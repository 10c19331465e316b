-- ===== src/Analyzer/Trojan/Connection.antt =====
-- `Feed` of analyzer/tcp/trojan.go over a whole connection.
use open_gfw_next.Base.{
  ℕ, ◌<◌, ◌≡◌, ◌≢◌, refl, ◌∙◌, inl, inr, Bool, true, false, Option, none, some, List, [], ◌∷◌, ◌++◌,
  ◌⊎◌, Bytes, arith, length, Option-cases,
}
use open_gfw_next.Analyzer.Trojan.{Stream, new, Fed, zero_seq, is_ccs, tally, feed_counted, feed}
use open_gfw_next.Analyzer.Trojan.Runs.{
  IsOpen, tally-ne-none, tally-IsOpen, Reports, and_later, only, tally_keeps, tally_all,
  tally_all-verdict, groups, verdict,
}

feed-ne-none :
    (s : Stream) (rev : Bool) (skip : ℕ) (bytes : Bytes) → IsOpen s → feed s rev skip bytes ≢ none
unfolding feed feed_counted
feed-ne-none s rev skip bytes o =
    let counting : Stream = record s { first = false; count = true } in
    ground (
      arith,
      tally-ne-none counting rev (length bytes),
      tally-ne-none (record s { first = false }) rev (length bytes),
    )

feed-IsOpen :
    (s : Stream) (rev : Bool) (skip : ℕ) (bytes : Bytes) (r : Fed)
    → IsOpen s
    → feed s rev skip bytes ≡ some r
    → r.done ≡ false
    → IsOpen r.stream
unfolding feed feed_counted
feed-IsOpen s rev skip bytes r o e d =
    let counting : Stream = record s { first = false; count = true } in
    let open_still : IsOpen (record s { first = false; count = true }) = ground arith in
    let open_as_it_was : IsOpen (record s { first = false }) = ground arith in
    ground (
      arith,
      tally-IsOpen counting rev (length bytes) r open_still,
      tally-IsOpen (record s { first = false }) rev (length bytes) r open_as_it_was,
    )

-- `Feed` on an open stream never writes past the end of `seq`, and leaves the stream open unless it
-- says that it is done.
pub feed_safe :
    (s : Stream) (rev : Bool) (skip : ℕ) (bytes : Bytes)
    → IsOpen s
    → (r : Fed) × (feed s rev skip bytes ≡ some r) × (r.done ≡ false → IsOpen r.stream)
feed_safe s rev skip bytes o = elim (Option-cases (feed s rev skip bytes)) [
  | inl e ↦ absurd (feed-ne-none s rev skip bytes o e)
  | inr (r, e) ↦ (r, e, feed-IsOpen s rev skip bytes r o e)
]

feed-tally :
    (s : Stream) (d : Bool) (bytes : Bytes)
    → s.first ≡ false
    → s.count ≡ true
    → bytes ≢ []
    → feed s d 0 bytes ≡ tally s d (length bytes)
unfolding feed feed_counted
feed-tally s d [] f c ne = absurd (ne refl)
feed-tally s d (x ∷ bytes) f c ne = ground arith

-- the reports of the engine's calls of `Feed` with nothing skipped, up to the call that is done
pub feed_all : Stream → List (Bool × Bytes) → Option Reports
feed_all s [] = some ([], false)
feed_all s ((d, bytes) ∷ cs) = elim (feed s d 0 bytes) [
  | none ↦ none
  | some r ↦ and_later r (feed_all r.stream cs)
]

abbrev pub sizes : List (Bool × Bytes) → List (Bool × ℕ)
sizes [] = []
sizes ((d, bytes) ∷ cs) = (d, length bytes) ∷ sizes cs

abbrev pub NonEmpty : List (Bool × Bytes) → Type 0
NonEmpty [] = Unit
NonEmpty ((d, bytes) ∷ cs) = (bytes ≢ []) × NonEmpty cs

feed_all-tally_all :
    (cs : List (Bool × Bytes)) (s : Stream)
    → s.first ≡ false
    → s.count ≡ true
    → NonEmpty cs
    → feed_all s cs ≡ tally_all s (sizes cs)
unfolding feed_all tally_all
feed_all-tally_all [] s f c ne = refl
feed_all-tally_all ((d, bytes) ∷ cs) s f c ne =
    let first = feed-tally s d bytes f c ne.0 in
    elim (Option-cases (tally s d (length bytes))) [
      | inl e ↦ ground (arith, first, e)
      | inr (r, e) ↦
          let (c', f') = tally_keeps s d (length bytes) r e in
          let rest = feed_all-tally_all cs r.stream (f' ∙ f) (c' ∙ c) ne.1 in
          ground (arith, first, e, rest)
    ]

-- client data in which no Change Cipher Spec begins a chunk
abbrev pub Before : List (Bool × Bytes) → Type 0
Before [] = Unit
Before ((d, bytes) ∷ cs) = ((d ≡ true) ⊎ (is_ccs bytes ≡ false)) × Before cs

feed_uncounted :
    (s : Stream) (d : Bool) (bytes : Bytes)
    → s.first ≡ false
    → s.count ≡ false
    → (d ≡ true) ⊎ (is_ccs bytes ≡ false)
    → feed s d 0 bytes ≡ some (record { stream = s; update = none; done = false })
unfolding feed feed_counted
feed_uncounted s d bytes f c b = ground arith

is_ccs-length : (bytes : Bytes) → is_ccs bytes ≡ true → 0 < length bytes
unfolding is_ccs
is_ccs-length bytes h = ground arith

feed_ccs :
    (bytes : Bytes)
    → is_ccs bytes ≡ true
    → feed new false 0 bytes
      ≡ some (record {
        stream = record new { count = true; seq = record zero_seq { length1 = length bytes } };
        update = none;
        done = false;
      })
unfolding feed feed_counted tally new
feed_ccs bytes h = ground (arith, is_ccs-length bytes h)

feed_all-Before :
    (before cs : List (Bool × Bytes))
    → Before before
    → feed_all new (before ++ cs) ≡ feed_all new cs
unfolding feed_all new
feed_all-Before [] cs b = refl
feed_all-Before ((d, bytes) ∷ before) cs b =
    ground (arith, feed_uncounted new d bytes refl refl b.0, feed_all-Before before cs b.1)

-- Over a whole connection: what precedes the client's Change Cipher Spec is ignored, and from that
-- chunk on the analyzer reports when the fifth run of chunks in one direction begins. It reports the
-- byte counts of the first four runs and the decision tree's answer for them, and is done. No other
-- call of `Feed` reports anything.
pub feed_all-verdict :
    (before : List (Bool × Bytes)) (ccs : Bytes) (cs : List (Bool × Bytes))
    → Before before
    → is_ccs ccs ≡ true
    → NonEmpty cs
    → feed_all new (before ++ (false, ccs) ∷ cs)
      ≡ some (only (verdict (groups false (length ccs) (sizes cs))))
unfolding feed_all new
feed_all-verdict before ccs cs b h ne =
    let s = record new { count = true; seq = record zero_seq { length1 = length ccs } } in
    let counted = tally_all-verdict (sizes cs) s (omega arith) (refl, refl, refl) in
    let same = feed_all-tally_all cs s refl refl ne in
    feed_all-Before before ((false, ccs) ∷ cs) b ∙ ground (arith, feed_ccs ccs h, same, counted)
