-- ===== src/Analyzer/Quic/Encode.antt =====
-- analyzer/udp/internal/quic/payload.go: frames that are written and read again, where the reader of
-- variable-length integers keeps the laws of RFC 9000.
use mathlib.Core.List.{Perm}
use open_gfw_next.Base.{
  concat, ℕ, zero, suc, ◌≤◌, ◌<◌, ◌≡◌, refl, ap, ◌∙◌, Option, some, List, [], ◌∷◌, ◌++◌, Bytes,
  arith, length, length-append, take-append_all, drop-append_all, append_assoc,
}
use open_gfw_next.Analyzer.Quic.{
  CryptoFrame, Attempt, done, with_frame, read_crypto_frame, extract_crypto_frames,
  assemble_crypto_frames,
}
use open_gfw_next.Analyzer.Quic.Frames.{pieces, AllNonempty}
use open_gfw_next.Analyzer.Quic.Messages.{assemble_crypto_frames-pieces}

-- an encoding of the numbers below 2 ^ 62 that is read again
pub record IsVarint (append_varint : ℕ → Bytes) (read_varint : Bytes → Option (ℕ × Bytes))
    : Type 0 where
  pub nonempty : (n : ℕ) → 1 ≤ length (append_varint n)
  pub read_append :
      (n : ℕ) (rest : Bytes)
      → n < 4611686018427387904
      → read_varint (append_varint n ++ rest) ≡ some (n, rest)

-- what a sender puts into a payload
pub data Frame : Type 0 where
  padding ping : Frame
  crypto : CryptoFrame → Frame

unfoldable pub crypto_frames : List Frame → List CryptoFrame
crypto_frames [] = []
crypto_frames (padding ∷ fs) = crypto_frames fs
crypto_frames (ping ∷ fs) = crypto_frames fs
crypto_frames (crypto f ∷ fs) = f ∷ crypto_frames fs

module _ (append_varint : ℕ → Bytes) where
  unfoldable pub encode : Frame → Bytes
  encode padding = append_varint 0
  encode ping = append_varint 1
  encode (crypto f) =
      append_varint 6 ++ (append_varint f.offset ++ (append_varint (length f.bytes) ++ f.bytes))

  unfoldable pub encode_all : List Frame → Bytes
  unfolding encode
  encode_all [] = []
  encode_all (f ∷ fs) = encode f ++ encode_all fs

-- a frame of the protocol, whose data `make` allows
unfoldable pub Fits : ℕ → List Frame → Type 0
Fits max_length [] = Unit
Fits max_length (padding ∷ fs) = Fits max_length fs
Fits max_length (ping ∷ fs) = Fits max_length fs
Fits max_length (crypto f ∷ fs) =
    (f.offset < 4611686018427387904)
    × (length f.bytes < 4611686018427387904)
    × (length f.bytes ≤ max_length)
    × Fits max_length fs

module _ (read_varint : Bytes → Option (ℕ × Bytes)) (max_length : ℕ) where
  extract : ℕ → Bytes → Attempt (List CryptoFrame)
  extract = extract_crypto_frames read_varint max_length

  extract-skip :
      (fuel kind : ℕ) (b r : Bytes)
      → 1 ≤ length b
      → read_varint b ≡ some (kind, r)
      → kind ≤ 1
      → extract (suc fuel) b ≡ extract fuel r
  unfolding extract extract_crypto_frames
  extract-skip fuel kind [] r h e k = elim h [ ]
  extract-skip fuel kind (x ∷ xs) r h e k = ground (arith, e)

  extract-crypto :
      (fuel : ℕ) (b r r' : Bytes) (f : CryptoFrame)
      → 1 ≤ length b
      → read_varint b ≡ some (6, r)
      → read_crypto_frame read_varint max_length r ≡ done (f, r')
      → extract (suc fuel) b ≡ with_frame f (extract fuel r')
  unfolding extract extract_crypto_frames
  extract-crypto fuel [] r r' f h e k = elim h [ ]
  extract-crypto fuel (x ∷ xs) r r' f h e k = ground (arith, e, k)

  module _ {append_varint : ℕ → Bytes} (v : IsVarint append_varint read_varint) where
    read_crypto_frame-encode :
        (f : CryptoFrame) (rest : Bytes)
        → f.offset < 4611686018427387904
        → length f.bytes < 4611686018427387904
        → length f.bytes ≤ max_length
        → read_crypto_frame read_varint max_length
            (append_varint f.offset ++ (append_varint (length f.bytes) ++ (f.bytes ++ rest)))
          ≡ done (f, rest)
    unfolding read_crypto_frame
    read_crypto_frame-encode f rest h k m = ground (
      arith,
      v.read_append f.offset (append_varint (length f.bytes) ++ (f.bytes ++ rest)) h,
      v.read_append (length f.bytes) (f.bytes ++ rest) k,
      length-append f.bytes rest,
      take-append_all f.bytes rest,
      drop-append_all f.bytes rest,
    )

    encode_nonempty : (f : Frame) → 1 ≤ length (encode append_varint f)
    unfolding encode
    encode_nonempty padding = v.nonempty 0
    encode_nonempty ping = v.nonempty 1
    encode_nonempty (crypto f) = omega (
      arith,
      v.nonempty 6,
      length-append (append_varint 6)
          (append_varint f.offset ++ (append_varint (length f.bytes) ++ f.bytes)),
    )

    encode-crypto :
        (f : CryptoFrame) (rest : Bytes)
        → encode append_varint (crypto f) ++ rest
          ≡ append_varint 6
            ++ (append_varint f.offset ++ (append_varint (length f.bytes) ++ (f.bytes ++ rest)))
    unfolding encode
    encode-crypto f rest = simp append_assoc

    begins : (f : Frame) (rest : Bytes) → 1 ≤ length (encode append_varint f ++ rest)
    begins f rest = omega (arith, encode_nonempty f, length-append (encode append_varint f) rest)

    fuel_left :
        (f : Frame) (fs : List Frame) (fuel : ℕ)
        → length (encode_all append_varint (f ∷ fs)) ≤ suc fuel
        → length (encode_all append_varint fs) ≤ fuel
    unfolding encode_all
    fuel_left f fs fuel h = omega (
      arith,
      encode_nonempty f,
      length-append (encode append_varint f) (encode_all append_varint fs),
    )

    extract-encode_all :
        (fuel : ℕ) (fs : List Frame)
        → length (encode_all append_varint fs) ≤ fuel
        → Fits max_length fs
        → extract fuel (encode_all append_varint fs) ≡ done (crypto_frames fs)
    unfolding encode_all encode Fits crypto_frames extract extract_crypto_frames with_frame
    extract-encode_all fuel [] h fits = refl
    extract-encode_all zero (f ∷ fs) h fits =
        absurd (omega (arith, begins f (encode_all append_varint fs)))
    extract-encode_all (suc fuel) (padding ∷ fs) h fits =
        let rest = encode_all append_varint fs in
        extract-skip fuel 0 _ rest (begins padding rest) (v.read_append 0 rest (omega arith))
          (omega arith)
        ∙ extract-encode_all fuel fs (fuel_left padding fs fuel h) fits
    extract-encode_all (suc fuel) (ping ∷ fs) h fits =
        let rest = encode_all append_varint fs in
        extract-skip fuel 1 _ rest (begins ping rest) (v.read_append 1 rest (omega arith))
          (omega arith)
        ∙ extract-encode_all fuel fs (fuel_left ping fs fuel h) fits
    extract-encode_all (suc fuel) (crypto f ∷ fs) h (o, n, m, fits) =
        let rest = encode_all append_varint fs in
        let r = append_varint f.offset ++ (append_varint (length f.bytes) ++ (f.bytes ++ rest)) in
        let ih = extract-encode_all fuel fs (fuel_left (crypto f) fs fuel h) fits in
        extract-crypto fuel _ r rest f (begins (crypto f) rest)
          (ap read_varint (encode-crypto f rest) ∙ v.read_append 6 r (omega arith))
          (read_crypto_frame-encode f rest o n m)
        ∙ ap (with_frame f) ih

    -- The payload of an Initial packet holds padding, PING frames and CRYPTO frames in any order, and the
    -- CRYPTO frames are the pieces of a message, none of them empty, in any order: the two functions of
    -- `ReadCryptoPayload` give the message back.
    pub assemble-extract-encode_all :
        (b : Bytes) (bs : List Bytes) (fs : List Frame)
        → AllNonempty (b ∷ bs)
        → length (concat (b ∷ bs)) ≤ max_length
        → Fits max_length fs
        → Perm (pieces 0 (b ∷ bs)) (crypto_frames fs)
        → (cs : List CryptoFrame) × (extract_crypto_frames read_varint max_length
              (length (encode_all append_varint fs))
              (encode_all append_varint fs)
            ≡ done cs)
          × (assemble_crypto_frames max_length cs ≡ done (concat (b ∷ bs)))
    unfolding extract
    assemble-extract-encode_all b bs fs some_bytes h fits p = (
      crypto_frames fs,
      extract-encode_all (length (encode_all append_varint fs)) fs (omega arith) fits,
      assemble_crypto_frames-pieces max_length b bs (crypto_frames fs) some_bytes h p,
    )
