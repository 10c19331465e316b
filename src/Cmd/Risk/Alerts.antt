-- ===== src/Cmd/Risk/Alerts.antt =====
-- When `Add` of cmd/risk.go finds that a bucket's score has crossed a threshold.
use open_gfw_next.Base.{
  ℕ, ◌+◌, ◌≤◌, ◌<◌, ◌≡◌, refl, sym, ap, subst, ◌∙◌, Bool, true, ◌&&◌, [], ◌∷◌, ◌++◌, arith, ltb,
  leb,
}
use open_gfw_next.Cmd.Risk.{Hit, Bucket, Settings, rearm, prune, add_hit}
use open_gfw_next.Cmd.Risk.Window.{recent, weigh, weigh-recent_le, weigh_last, prune-recent}

-- a threshold that is set, reached by `after` and not by `before`
abbrev pub passes : ℕ → ℕ → ℕ → Bool
passes threshold before after = ltb 0 threshold && ltb before threshold && leb threshold after

-- The score is that of the hits, and a flag is set while the score reaches its threshold.
abbrev pub IsConsistent : Settings → Bucket → Type 0
IsConsistent c b =
    (b.score ≡ weigh b.hits)
    × ((0 < c.alert_threshold → c.alert_threshold ≤ b.score → b.alert_sent ≡ true)
        × (0 < c.response_threshold → c.response_threshold ≤ b.score → b.response_sent ≡ true))

pub IsConsistent-prune :
    (c : Settings) (b : Bucket) (now : ℕ) → IsConsistent c b → IsConsistent c (prune c.window b now)
IsConsistent-prune c b now i = subst (IsConsistent c) (sym (prune-recent c.window b now)) (
  refl,
  (
    (λ p q. i.1.0 p (ground (arith, q, i.0, weigh-recent_le c.window now b.hits))),
    (λ p q. i.1.1 p (ground (arith, q, i.0, weigh-recent_le c.window now b.hits))),
  ),
)

pub add_hit-hits :
    (c : Settings) (now : ℕ) (hit : Hit) (b : Bucket)
    → (add_hit c now hit b).0.hits ≡ recent c.window now b.hits ++ (hit ∷ [])
unfolding add_hit rearm
add_hit-hits c now hit b = ground (arith, prune-recent c.window b now)

add_hit-score :
    (c : Settings) (now : ℕ) (hit : Hit) (b : Bucket)
    → (add_hit c now hit b).0.score ≡ weigh (recent c.window now b.hits ++ (hit ∷ []))
unfolding add_hit rearm
add_hit-score c now hit b =
    ground (arith, prune-recent c.window b now, weigh_last (recent c.window now b.hits) hit)

add_hit-alert_sent :
    (c : Settings) (now : ℕ) (hit : Hit) (b : Bucket)
    → 0 < c.alert_threshold
    → c.alert_threshold ≤ (add_hit c now hit b).0.score
    → (add_hit c now hit b).0.alert_sent ≡ true
unfolding add_hit rearm
add_hit-alert_sent c now hit b p q = ground arith

add_hit-response_sent :
    (c : Settings) (now : ℕ) (hit : Hit) (b : Bucket)
    → 0 < c.response_threshold
    → c.response_threshold ≤ (add_hit c now hit b).0.score
    → (add_hit c now hit b).0.response_sent ≡ true
unfolding add_hit rearm
add_hit-response_sent c now hit b p q = ground arith

pub add_hit-IsConsistent :
    (c : Settings) (now : ℕ) (hit : Hit) (b : Bucket) → IsConsistent c (add_hit c now hit b).0
add_hit-IsConsistent c now hit b = (
  add_hit-score c now hit b ∙ ap weigh (sym (add_hit-hits c now hit b)),
  (add_hit-alert_sent c now hit b, add_hit-response_sent c now hit b),
)

-- For a consistent bucket, `Add` finds a threshold crossed exactly if the hits still in the window
-- do not reach it and the new hit makes them do so.
pub add_hit-passes :
    (c : Settings) (now : ℕ) (hit : Hit) (b : Bucket)
    → IsConsistent c b
    → (let before = weigh (recent c.window now b.hits) in
        ((add_hit c now hit b).1 ≡ passes c.alert_threshold before (before + hit.weight))
        × ((add_hit c now hit b).2 ≡ passes c.response_threshold before (before + hit.weight)))
unfolding add_hit rearm
add_hit-passes c now hit b i =
    ground
      (arith, prune-recent c.window b now, weigh-recent_le c.window now b.hits, i.0, i.1.0, i.1.1)
