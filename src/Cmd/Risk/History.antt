-- ===== src/Cmd/Risk/History.antt =====
-- A risk aggregator of cmd/risk.go from its start: what each `Add` sends, from the calls before it.
use open_gfw_next.Base.{
  ℕ, ◌≤◌, ◌≡◌, sym, ap, subst, Bool, not, ◌&&◌, ◌||◌, String, List, [], ◌∷◌, ◌++◌, arith, str_eq,
  eq_iff, ◌==◌, if◌then◌else◌, Bool-cases, inl, inr,
}
use open_gfw_next.Cmd.Risk.{
  Hit, Event, Bucket, Settings, Output, fresh, bucket, add_hit, rule_weight, risk_aggregation_key,
}
use open_gfw_next.Cmd.Risk.Window.{recent, weigh, weigh_last}
use open_gfw_next.Cmd.Risk.Add.{
  send, new_risk_event, hit_of, add_keyed, add, prune_all, bucket_count,
}
use open_gfw_next.Cmd.Risk.Alerts.{passes, add_hit-IsConsistent, add_hit-hits, add_hit-passes}
use open_gfw_next.Cmd.Risk.Follows.{
  Follows, Follows-later, Follows-fresh, Follows-swept, Follows-add_hit, if-Follows, add_hit-id,
}
use open_gfw_next.Cmd.Risk.Store.{
  IsUnique, has_id_iff, bucket-put, bucket-id, bucket-prune_all, empty-IsUnique, put-IsUnique,
  prune_all-IsUnique,
}

-- a call of the aggregator, with the clock's reading
pub data Call : Type 0 where
  adding : (now : ℕ) (event : Event) → Call
  counting : (now : ℕ) → Call

abbrev pub time_of : Call → ℕ
time_of (adding now e) = now
time_of (counting now) = now

-- the clock does not run backwards, from `last` on
abbrev pub IsOrdered : ℕ → List Call → Type 0
IsOrdered last [] = ℕ
IsOrdered last (x ∷ xs) = (last ≤ time_of x) × IsOrdered (time_of x) xs

-- the last time
abbrev pub end_time : ℕ → List Call → ℕ
end_time last [] = last
end_time last (x ∷ xs) = end_time (time_of x) xs

module _ (normalize_mac : String → String) (itoa : ℕ → String) (c : Settings) where
  -- does an event count, and for the key?
  abbrev pub counts : Event → Bool
  counts e =
      let k = risk_aggregation_key normalize_mac e in
      not (str_eq k.1 "" || (rule_weight c e.rule == 0))

  abbrev pub counts_for : String → String → Event → Bool
  counts_for kt k e =
      let key = risk_aggregation_key normalize_mac e in
      counts e && (str_eq key.0 kt && str_eq key.1 k)

  -- what a call leaves of the buckets
  abbrev pub step : List Bucket → Call → List Bucket
  step bs (adding now e) = (add normalize_mac itoa c now e bs).0
  step bs (counting now) = (bucket_count c now bs).0

  abbrev pub run : List Bucket → List Call → List Bucket
  run bs [] = bs
  run bs (x ∷ xs) = run (step bs x) xs

  -- the hits of a key that the calls record, after `hs`
  abbrev pub record_call : String → String → List Hit → Call → List Hit
  record_call kt k hs (adding now e) = if counts_for kt k e then hs ++ (hit_of c now e ∷ []) else hs
  record_call kt k hs (counting now) = hs

  abbrev pub history : String → String → List Hit → List Call → List Hit
  history kt k hs [] = hs
  history kt k hs (x ∷ xs) = history kt k (record_call kt k hs x) xs

  add_keyed-bucket :
      (kt k ft f : String) (now : ℕ) (e : Event) (bs : List Bucket)
      → bucket kt k (add_keyed normalize_mac itoa c (ft, f) now e bs).0 ≡ (
          if str_eq ft kt && str_eq f k
          then (add_hit c now (hit_of c now e) (bucket kt k bs)).0
          else bucket kt k bs)
  unfolding add_keyed
  add_keyed-bucket kt k ft f now e bs =
      let b = (add_hit c now (hit_of c now e) (bucket ft f bs)).0 in
      ground (
        arith,
        bucket-put kt k b bs,
        has_id_iff kt k b,
        add_hit-id c now (hit_of c now e) (bucket ft f bs),
        bucket-id ft f bs,
        eq_iff ft kt,
        eq_iff f k,
      )

  add-bucket :
      (kt k : String) (now : ℕ) (e : Event) (bs : List Bucket)
      → bucket kt k (step bs (adding now e)) ≡ (
          if counts_for kt k e
          then (add_hit c now (hit_of c now e) (bucket kt k bs)).0
          else bucket kt k bs)
  unfolding add
  add-bucket kt k now e bs =
      let key = risk_aggregation_key normalize_mac e in
      ground (arith, add_keyed-bucket kt k key.0 key.1 now e bs)

  add-IsUnique :
      (now : ℕ) (e : Event) (bs : List Bucket) → IsUnique bs → IsUnique (step bs (adding now e))
  unfolding add add_keyed
  add-IsUnique now e bs u =
      let key = risk_aggregation_key normalize_mac e in
      elim (Bool-cases (str_eq key.1 "" || (rule_weight c e.rule == 0))) [
        | inl y ↦ subst IsUnique (ground (arith, y)) u
        | inr n ↦
            subst IsUnique (ground (arith, n))
              (put-IsUnique (add_hit c now (hit_of c now e) (bucket key.0 key.1 bs)).0 bs u)
      ]

  Follows-step :
      (kt k : String) (last : ℕ) (bs : List Bucket) (hs : List Hit) (x : Call)
      → IsUnique bs
      → last ≤ time_of x
      → Follows c last (bucket kt k bs) hs
      → Follows c (time_of x) (bucket kt k (step bs x)) (record_call kt k hs x)
  unfolding bucket_count prune_all
  Follows-step kt k last bs hs (adding now e) u le f =
      subst (λ b. Follows c now b (record_call kt k hs (adding now e)))
        (sym (add-bucket kt k now e bs))
        (if-Follows c (counts_for kt k e) now (add_hit c now (hit_of c now e) (bucket kt k bs)).0
          (bucket kt k bs) (hs ++ (hit_of c now e ∷ [])) hs
          (Follows-add_hit c last now e (bucket kt k bs) hs le f)
          (Follows-later c last now (bucket kt k bs) hs le f))
  Follows-step kt k last bs hs (counting now) u le f =
      subst (λ b. Follows c now b hs) (sym (bucket-prune_all c now kt k bs u))
        (Follows-swept c last now (bucket kt k bs) hs le f)

  step-IsUnique : (bs : List Bucket) (x : Call) → IsUnique bs → IsUnique (step bs x)
  unfolding bucket_count prune_all
  step-IsUnique bs (adding now e) u = add-IsUnique now e bs u
  step-IsUnique bs (counting now) u = prune_all-IsUnique c now bs u

  run-Follows :
      (kt k : String) (calls : List Call) (last : ℕ) (bs : List Bucket) (hs : List Hit)
      → IsUnique bs
      → IsOrdered last calls
      → Follows c last (bucket kt k bs) hs
      → Follows c (end_time last calls) (bucket kt k (run bs calls)) (history kt k hs calls)
  run-Follows kt k [] last bs hs u o f = f
  run-Follows kt k (x ∷ xs) last bs hs u o f =
      run-Follows kt k xs (time_of x) (step bs x) (record_call kt k hs x) (step-IsUnique bs x u) o.1
        (Follows-step kt k last bs hs x u o.0 f)

  -- the bucket of which an event tells, from the hits in the window and a new one
  abbrev pub told : String → String → List Hit → Bucket
  told kt k hs = record (fresh kt k) { hits = hs; score = weigh hs }

  -- what an event makes `Add` send, if `hs` are the earlier hits of its key
  abbrev pub expected : List Hit → ℕ → Event → List Output
  expected hs now e =
      let key = risk_aggregation_key normalize_mac e in
      let before = recent c.window now hs in
      let after = before ++ (hit_of c now e ∷ []) in
      if counts e
      then send c (passes c.alert_threshold (weigh before) (weigh after))
          (passes c.response_threshold (weigh before) (weigh after))
          (new_risk_event itoa c (record e { time = now }) (told key.0 key.1 after))
      else []

  new_risk_event-told :
      (e : Event) (b : Bucket)
      → b.score ≡ weigh b.hits
      → new_risk_event itoa c e b ≡ new_risk_event itoa c e (told b.key_type b.key b.hits)
  unfolding new_risk_event
  new_risk_event-told e b h =
      ap (λ s. new_risk_event itoa c e (record (told b.key_type b.key b.hits) { score = s })) h

  add_keyed-sends :
      (kt k : String) (last now : ℕ) (e : Event) (bs : List Bucket) (hs : List Hit)
      → last ≤ now
      → Follows c last (bucket kt k bs) hs
      → (let before = recent c.window now hs in
          let after = before ++ (hit_of c now e ∷ []) in
          (add_keyed normalize_mac itoa c (kt, k) now e bs).1
          ≡ send c
              (passes c.alert_threshold (weigh before) (weigh after))
              (passes c.response_threshold (weigh before) (weigh after))
              (new_risk_event itoa c (record e { time = now }) (told kt k after)))
  unfolding add_keyed
  add_keyed-sends kt k last now e bs hs le f =
      let b = bucket kt k bs in
      let hit = hit_of c now e in
      let b' = (add_hit c now hit b).0 in
      cc (
        (add_hit-passes c now hit b f.0).0,
        (add_hit-passes c now hit b f.0).1,
        f.1 now le,
        weigh_last (recent c.window now hs) hit,
        new_risk_event-told (record e { time = now }) b' (add_hit-IsConsistent c now hit b).0,
        (add_hit-id c now hit b).0,
        (add_hit-id c now hit b).1,
        (bucket-id kt k bs).0,
        (bucket-id kt k bs).1,
        add_hit-hits c now hit b,
      )

  add-sends :
      (last now : ℕ) (e : Event) (bs : List Bucket) (hs : List Hit)
      → last ≤ now
      → (let key = risk_aggregation_key normalize_mac e in
          Follows c last (bucket key.0 key.1 bs) hs)
      → (add normalize_mac itoa c now e bs).1 ≡ expected hs now e
  unfolding add
  add-sends last now e bs hs le f =
      let key = risk_aggregation_key normalize_mac e in
      ground (arith, add_keyed-sends key.0 key.1 last now e bs hs le f)

  -- After any calls of `Add` and `BucketCount` whose clock readings never decrease, an `Add` of an
  -- event without a key or a positive weight sends nothing. Any other event alerts, or quarantines,
  -- exactly if that output is there and the weights of the key's hits of the last `window`
  -- nanoseconds were below its threshold and reach it with the new hit; the risk event is counted
  -- once if either is crossed, and tells of exactly these hits and the sum of their weights.
  pub run-sends :
      (calls : List Call) (now : ℕ) (e : Event)
      → IsOrdered 0 calls
      → end_time 0 calls ≤ now
      → (let key = risk_aggregation_key normalize_mac e in
          (add normalize_mac itoa c now e (run [] calls)).1
          ≡ expected (history key.0 key.1 [] calls) now e)
  unfolding bucket
  run-sends calls now e o le =
      let key = risk_aggregation_key normalize_mac e in
      add-sends (end_time 0 calls) now e (run [] calls) (history key.0 key.1 [] calls) le
        (run-Follows key.0 key.1 calls 0 [] [] empty-IsUnique o (Follows-fresh c key.0 key.1))
