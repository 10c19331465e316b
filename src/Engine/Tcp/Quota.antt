-- ===== src/Engine/Tcp/Quota.antt =====
-- The byte limit of an analyzer in engine/tcp.go.
use open_gfw_next.Base.{
  inl, inr, Bool-cases, ℕ, ◌+◌, ◌≤◌, ◌≡◌, refl, sym, ap, ◌∙◌, Bool, true, false, Option, List, [],
  ◌∷◌, ◌++◌, arith, Bytes, length, drop, append-nil, append_assoc, take-append-drop, length-take,
  length-append, if◌then◌else◌, ltb,
}
use open_gfw_next.Engine.{Action}
use open_gfw_next.Engine.Props.{CombinedPropMap, PropUpdate}
use open_gfw_next.Engine.Tcp.{Entry, Segment, feed_entry, within_quota}

within_quota-splits :
    (q : ℕ) (bytes : Bytes) → (rest : Bytes) × (within_quota q bytes ++ rest ≡ bytes)
unfolding within_quota
within_quota-splits q bytes = (
  if ltb q (length bytes) then drop q bytes else [],
  ground (arith, take-append-drop q bytes, append-nil bytes),
)

length-within_quota : (q : ℕ) (bytes : Bytes) → length (within_quota q bytes) ≤ q
unfolding within_quota
length-within_quota q bytes = ground (arith, length-take q bytes)

pub data_of : List Segment → Bytes
data_of [] = []
data_of (seg ∷ segs) = seg.payload ++ data_of segs

module _ {V St : Type 0} (feed : St → Segment → St × Option (PropUpdate V) × Bool)
    (close : St → Bool → St × Option (PropUpdate V))
    (match_rules : CombinedPropMap V → Action) where
  -- what the limit lets through, over the segments that the analyzer is active for
  seen : Entry St → List Segment → Bytes
  seen e [] = []
  seen e (seg ∷ segs) =
      let f = feed_entry feed close match_rules e seg in
      let part = within_quota e.quota seg.payload in
      let rest = seen f.entry segs in if f.done then part else part ++ rest

  feed_entry_partial :
      (e : Entry St) (seg : Segment)
      → e.has_limit ≡ true
      → (feed_entry feed close match_rules e seg).done ≡ false
      → let f = feed_entry feed close match_rules e seg in
        (within_quota e.quota seg.payload ≡ seg.payload)
        × (f.entry.quota + length seg.payload ≡ e.quota)
        × (f.entry.has_limit ≡ true)
  unfolding feed_entry within_quota
  feed_entry_partial e seg h d = ground (arith, length-take e.quota seg.payload)

  seen-le-quota :
      (segs : List Segment) (e : Entry St) → e.has_limit ≡ true → length (seen e segs) ≤ e.quota
  unfolding seen
  seen-le-quota [] e h = omega arith
  seen-le-quota (seg ∷ segs) e h =
      let f = feed_entry feed close match_rules e seg in
      let part = within_quota e.quota seg.payload in
      elim (Bool-cases f.done) [
        | inl d ↦ rw d (length-within_quota e.quota seg.payload)
        | inr d ↦
            let (whole, left, limited) = feed_entry_partial e seg h d in
            let low = seen-le-quota segs f.entry limited in
            rw d (
              omega (
                arith,
                length-append part (seen f.entry segs),
                ap (λ (b : Bytes). length b) whole,
                low,
                left,
              ))
      ]

  seen-prefix :
      (segs : List Segment) (e : Entry St)
      → e.has_limit ≡ true
      → (rest : Bytes) × (seen e segs ++ rest ≡ data_of segs)
  unfolding seen data_of
  seen-prefix [] e h = ([], refl)
  seen-prefix (seg ∷ segs) e h =
      let f = feed_entry feed close match_rules e seg in
      let part = within_quota e.quota seg.payload in
      elim (Bool-cases f.done) [
        | inl d ↦
            let (rest, same) = within_quota-splits e.quota seg.payload in
            (
              rest ++ data_of segs,
              rw d (
                  sym (append_assoc part rest (data_of segs))
                  ∙ ap (λ (b : Bytes). b ++ data_of segs) same),
            )
        | inr d ↦
            let (whole, left, limited) = feed_entry_partial e seg h d in
            let (rest, same) = seen-prefix segs f.entry limited in
            (
              rest,
              rw d (
                  append_assoc part (seen f.entry segs) rest
                  ∙ ap (◌++◌ part) same
                  ∙ ap (λ (b : Bytes). b ++ data_of segs) whole),
            )
      ]

module _ {V St : Type 0} (feed : St → Segment → St × Option (PropUpdate V) × Bool)
    (close : St → Bool → St × Option (PropUpdate V))
    (match_rules : CombinedPropMap V → Action) where
  -- the analyzer with a record of the bytes that its `Feed` is called with
  abbrev pub recorded_feed : St × Bytes → Segment → (St × Bytes) × Option (PropUpdate V) × Bool
  recorded_feed (st, bytes) seg =
      let (st', u, done) = feed st seg in ((st', bytes ++ seg.payload), u, done)

  abbrev pub recorded_close : St × Bytes → Bool → (St × Bytes) × Option (PropUpdate V)
  recorded_close (st, bytes) limited = let (st', u) = close st limited in ((st', bytes), u)

  -- the entry of a recorded analyzer after the segments that it is active for
  pub feed_to : Entry (St × Bytes) → List Segment → Entry (St × Bytes)
  feed_to e [] = e
  feed_to e (seg ∷ segs) =
      let f = feed_entry recorded_feed recorded_close match_rules e seg in
      let rest = feed_to f.entry segs in if f.done then f.entry else rest

  feed_entry-records :
      (e : Entry (St × Bytes)) (seg : Segment)
      → e.has_limit ≡ true
      → (feed_entry recorded_feed recorded_close match_rules e seg).entry.stream.1
        ≡ e.stream.1 ++ within_quota e.quota seg.payload
  unfolding feed_entry
  feed_entry-records e seg h = ground arith

  feed_to-seen :
      (segs : List Segment) (e : Entry (St × Bytes))
      → e.has_limit ≡ true
      → (feed_to e segs).stream.1
        ≡ e.stream.1 ++ seen recorded_feed recorded_close match_rules e segs
  unfolding feed_to seen
  feed_to-seen [] e h = sym (append-nil e.stream.1)
  feed_to-seen (seg ∷ segs) e h =
      let f = feed_entry recorded_feed recorded_close match_rules e seg in
      let part = within_quota e.quota seg.payload in
      let now = feed_entry-records e seg h in
      elim (Bool-cases f.done) [
        | inl d ↦ rw d now
        | inr d ↦
            let (whole, left, limited) =
              feed_entry_partial recorded_feed recorded_close match_rules e seg h d in
            let rest = seen recorded_feed recorded_close match_rules f.entry segs in
            rw d (
              feed_to-seen segs f.entry limited
              ∙ ap (λ (b : Bytes). b ++ rest) now
              ∙ append_assoc e.stream.1 part rest)
      ]

  -- The bytes that the `Feed` of an analyzer with a limit is called with are an initial part of the
  -- stream's data, of at most as many bytes as its limit, whatever the segments are and whatever the
  -- analyzer answers.
  pub feed_to_bounded :
      (segs : List Segment) (e : Entry (St × Bytes))
      → e.has_limit ≡ true
      → e.stream.1 ≡ []
      → (length (feed_to e segs).stream.1 ≤ e.quota)
        × ((rest : Bytes) × ((feed_to e segs).stream.1 ++ rest ≡ data_of segs))
  feed_to_bounded segs e h new =
      let same =
        feed_to-seen segs e h
        ∙ ap (λ (b : Bytes). b ++ seen recorded_feed recorded_close match_rules e segs) new in
      let (rest, whole) = seen-prefix recorded_feed recorded_close match_rules segs e h in
      (
        rw same (seen-le-quota recorded_feed recorded_close match_rules segs e h),
        (rest, rw same whole),
      )
