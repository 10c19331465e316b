-- ===== src/Analyzer/Quic/Extract.antt =====
-- analyzer/udp/internal/quic/payload.go: extractCryptoFrames, on a reader of variable-length integers
-- that keeps the laws of RFC 9000.
use open_gfw_next.Base.{
  ℕ, zero, suc, ◌≤◌, ◌<◌, ◌≡◌, ◌≢◌, ◌⊎◌, refl, inl, inr, Option, some, List, [], ◌∷◌, Bytes, arith,
  Option-cases, length, length-drop,
}
use open_gfw_next.Analyzer.Quic.{
  CryptoFrame, Attempt, failed, panicked, exhausted, done, with_frame, read_crypto_frame,
  extract_crypto_frames,
}

-- reading takes a byte at least
unfoldable pub Shrinks : (Bytes → Option (ℕ × Bytes)) → Type 0
Shrinks read_varint = (b r : Bytes) (n : ℕ) → read_varint b ≡ some (n, r) → length r < length b

Attempt-cases :
    {A : Type 0} (a : Attempt A)
    → (a ≡ failed) ⊎ ((a ≡ panicked) ⊎ ((a ≡ exhausted) ⊎ ((x : A) × (a ≡ done x))))
Attempt-cases failed = inl refl
Attempt-cases panicked = inr (inl refl)
Attempt-cases exhausted = inr (inr (inl refl))
Attempt-cases (done a) = inr (inr (inr (a, refl)))

with_frame_ends :
    (f : CryptoFrame) (a : Attempt (List CryptoFrame)) → a ≢ exhausted → with_frame f a ≢ exhausted
unfolding with_frame
with_frame_ends f failed h = λ e. cc
with_frame_ends f panicked h = λ e. cc
with_frame_ends f exhausted h = absurd (h refl)
with_frame_ends f (done fs) h = λ e. cc

module _ (read_varint : Bytes → Option (ℕ × Bytes)) (max_length : ℕ) where
  read_crypto_frame_shorter :
      Shrinks read_varint
      → (r : Bytes)
      → (read_crypto_frame read_varint max_length r ≢ exhausted)
        × ((f : CryptoFrame) (r' : Bytes)
            → read_crypto_frame read_varint max_length r ≡ done (f, r')
            → length r' < length r)
  unfolding read_crypto_frame Shrinks
  read_crypto_frame_shorter shrinks r = elim (Option-cases (read_varint r)) [
    | inl e ↦ ground (arith, e)
    | inr ((offset, r'), e) ↦ elim (Option-cases (read_varint r')) [
      | inl e' ↦ ground (arith, e, e')
      | inr ((n, r''), e') ↦
          ground (arith, e, e', shrinks r r' offset e, shrinks r' r'' n e', length-drop n r'')
    ]
  ]

  -- With its length as fuel, the loop of `extractCryptoFrames` ends on every payload.
  pub extract_crypto_frames_ends :
      Shrinks read_varint
      → (fuel : ℕ) (bytes : Bytes) → length bytes ≤ fuel
      → extract_crypto_frames read_varint max_length fuel bytes ≢ exhausted
  unfolding extract_crypto_frames Shrinks
  extract_crypto_frames_ends shrinks fuel [] h = λ e. cc
  extract_crypto_frames_ends shrinks zero (x ∷ xs) h = elim h [ ]
  extract_crypto_frames_ends shrinks (suc fuel) (x ∷ xs) h =
      elim (Option-cases (read_varint (x ∷ xs))) [
        | inl e ↦ ground (arith, e)
        | inr ((kind, r), e) ↦
            let less = shrinks (x ∷ xs) r kind e in
            let onward = extract_crypto_frames_ends shrinks fuel r (omega arith) in
            let (ends, shorter) = read_crypto_frame_shorter shrinks r in
            elim (Attempt-cases (read_crypto_frame read_varint max_length r)) [
              | inl a ↦ ground (arith, e, a, onward)
              | inr (inl a) ↦ ground (arith, e, a, onward)
              | inr (inr (inl a)) ↦ absurd (ends a)
              | inr (inr (inr ((f, r'), a))) ↦
                  let rest =
                    extract_crypto_frames_ends shrinks fuel r' (omega (arith, shorter f r' a)) in
                  ground (arith, e, a, onward, with_frame_ends f _ rest)
            ]
      ]
