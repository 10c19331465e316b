-- ===== src/Cmd/Risk/Follows.antt =====
-- A bucket of cmd/risk.go and the hits that its key has had: the bucket follows them when it holds
-- those that can still count.
use open_gfw_next.Base.{
  ℕ, ◌≤◌, ◌≡◌, refl, sym, ap, ◌∙◌, Bool, true, false, String, List, [], ◌∷◌, ◌++◌, arith, ◌==◌,
  if◌then◌else◌, length,
}
use open_gfw_next.Cmd.Risk.{Hit, Event, Bucket, Settings, fresh, prune, rearm, add_hit}
use open_gfw_next.Cmd.Risk.Window.{recent, weigh-nil, prune-recent, recent-recent, recent-append}
use open_gfw_next.Cmd.Risk.Add.{hit_of}
use open_gfw_next.Cmd.Risk.Alerts.{
  IsConsistent, IsConsistent-prune, add_hit-IsConsistent, add_hit-hits,
}
use open_gfw_next.Cmd.Risk.Store.{swept}

no_hits : (hs : List Hit) → (length hs == 0) ≡ true → hs ≡ []
no_hits [] e = refl
no_hits (h ∷ hs) e = ground (arith, e)

module _ (c : Settings) where
  -- The bucket of a key is consistent, and its hits are the hits `hs` that can still count.
  abbrev pub Follows : ℕ → Bucket → List Hit → Type 0
  Follows last b hs =
      IsConsistent c b × ((t : ℕ) → last ≤ t → recent c.window t b.hits ≡ recent c.window t hs)

  if-IsConsistent :
      (t : Bool) (a b : Bucket)
      → IsConsistent c a
      → IsConsistent c b
      → IsConsistent c (if t then a else b)
  if-IsConsistent true a b p q = p
  if-IsConsistent false a b p q = q

  fresh-IsConsistent : (kt k : String) → IsConsistent c (fresh kt k)
  fresh-IsConsistent kt k =
      (sym weigh-nil, ((λ p q. ground (arith, p, q)), (λ p q. ground (arith, p, q))))

  pub Follows-later :
      (last now : ℕ) (b : Bucket) (hs : List Hit)
      → last ≤ now
      → Follows last b hs
      → Follows now b hs
  Follows-later last now b hs le f = (f.0, λ t r. f.1 t (ground (arith, le, r)))

  pub Follows-fresh : (kt k : String) → Follows 0 (fresh kt k) []
  Follows-fresh kt k = (fresh-IsConsistent kt k, λ t r. refl)

  recent_prune :
      (last now : ℕ) (b : Bucket) (hs : List Hit)
      → last ≤ now
      → Follows last b hs
      → (t : ℕ) → now ≤ t
      → recent c.window t (recent c.window now b.hits) ≡ recent c.window t hs
  recent_prune last now b hs le f t r =
      recent-recent c.window now t b.hits r ∙ f.1 t (ground (arith, le, r))

  swept-hits : (now : ℕ) (b : Bucket) → (swept c.window now b).hits ≡ recent c.window now b.hits
  swept-hits now b =
      ground (arith, prune-recent c.window b now, no_hits (recent c.window now b.hits))

  pub Follows-swept :
      (last now : ℕ) (b : Bucket) (hs : List Hit)
      → last ≤ now
      → Follows last b hs
      → Follows now (swept c.window now b) hs
  Follows-swept last now b hs le f = (
    if-IsConsistent (length (recent c.window now b.hits) == 0) (fresh b.key_type b.key)
        (prune c.window b now) (fresh-IsConsistent b.key_type b.key)
        (IsConsistent-prune c b now f.0),
    λ t r. ap (recent c.window t) (swept-hits now b) ∙ recent_prune last now b hs le f t r,
  )

  pub Follows-add_hit :
      (last now : ℕ) (e : Event) (b : Bucket) (hs : List Hit)
      → last ≤ now
      → Follows last b hs
      → Follows now (add_hit c now (hit_of c now e) b).0 (hs ++ (hit_of c now e ∷ []))
  Follows-add_hit last now e b hs le f = (
    add_hit-IsConsistent c now (hit_of c now e) b,
    λ t r. ground (
      arith,
      add_hit-hits c now (hit_of c now e) b,
      recent-append c.window t (recent c.window now b.hits) (hit_of c now e ∷ []),
      recent-append c.window t hs (hit_of c now e ∷ []),
      recent_prune last now b hs le f t r,
    ),
  )

  pub add_hit-id :
      (now : ℕ) (hit : Hit) (b : Bucket)
      → ((add_hit c now hit b).0.key_type ≡ b.key_type) × ((add_hit c now hit b).0.key ≡ b.key)
  unfolding add_hit prune rearm
  add_hit-id now hit b = (refl, refl)

  pub if-Follows :
      (t : Bool) (now : ℕ) (a b : Bucket) (xs ys : List Hit)
      → Follows now a xs
      → Follows now b ys
      → Follows now (if t then a else b) (if t then xs else ys)
  if-Follows true now a b xs ys p q = p
  if-Follows false now a b xs ys p q = q
