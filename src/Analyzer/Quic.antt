-- ===== src/Analyzer/Quic.antt =====
-- analyzer/udp/quic.go and analyzer/udp/internal/quic: the CRYPTO frames of payload.go. A reader is the
-- bytes that it has left, and quicvarint.Read is the parameter `read_varint`. Offsets are below 2 ^ 62,
-- so that no int64 of payload.go overflows.
pub mod Frames
pub mod Messages
pub mod Extract
pub mod Encode
pub mod Header
pub mod Protect
pub mod PacketNumbers
pub mod Unprotect
pub mod Headers
pub mod Stream
pub mod Session
use open_gfw_next.Base.{
  ℕ, zero, suc, ◌+◌, ◌-◌, Bool, true, false, ◌&&◌, ◌||◌, Option, none, some, List, [], ◌∷◌, ◌++◌,
  Bytes, ltb, leb, ◌==◌, if◌then◌else◌, length, take, drop,
}

-- what a function makes: an error, a run-time panic, or a result; `exhausted` means that the fuel of
-- a loop ran out
pub data Attempt (A : Type 0) : Type 0 where
  failed panicked exhausted : Attempt A
  done : A → Attempt A

-- cryptoFrame
pub record CryptoFrame : Type 0 where
  pub offset : ℕ
  pub bytes : Bytes

abbrev pub padding_frame_type : ℕ
padding_frame_type = 0

abbrev pub ping_frame_type : ℕ
ping_frame_type = 1

abbrev pub crypto_frame_type : ℕ
crypto_frame_type = 6

-- frames = append(frames, frame), from the front
unfoldable pub with_frame : CryptoFrame → Attempt (List CryptoFrame) → Attempt (List CryptoFrame)
with_frame f failed = failed
with_frame f panicked = panicked
with_frame f exhausted = exhausted
with_frame f (done fs) = done (f ∷ fs)

-- `max_length` is the length of the longest slice that `make` returns; it panics on a longer one
module _ (read_varint : Bytes → Option (ℕ × Bytes)) (max_length : ℕ) where
  -- the offset, the length and the data of a frame, and what is left to read
  unfoldable pub read_crypto_frame : Bytes → Attempt (CryptoFrame × Bytes)
  read_crypto_frame r = elim (read_varint r) [
    | none ↦ failed
    | some (offset, r') ↦ elim (read_varint r') [
      | none ↦ failed
      | some (data_len, r'') ↦
          if ltb max_length data_len
          then panicked
          else if ltb (length r'') data_len
          then failed
          else done (record { offset = offset; bytes = take data_len r'' }, drop data_len r'')
    ]
  ]

  -- extractCryptoFrames, on a fuel of the reader's length
  unfoldable pub extract_crypto_frames : ℕ → Bytes → Attempt (List CryptoFrame)
  unfolding read_crypto_frame with_frame
  extract_crypto_frames fuel [] = done []
  extract_crypto_frames zero (x ∷ xs) = exhausted
  extract_crypto_frames (suc fuel) (x ∷ xs) = elim (read_varint (x ∷ xs)) [
    | none ↦ failed
    | some (kind, r) ↦
        let onward = extract_crypto_frames fuel r in
        let frame : Attempt (List CryptoFrame) = elim (read_crypto_frame r) [
          | failed ↦ failed
          | panicked ↦ panicked
          | exhausted ↦ exhausted
          | done (f, r') ↦ with_frame f (extract_crypto_frames fuel r')
        ] in
        if (kind == padding_frame_type) || kind == ping_frame_type
        then onward
        else if kind == crypto_frame_type
        then frame
        else failed
  ]

-- sort.Slice by the offset. Up to 12 frames it inserts one frame after the other, as here; beyond that,
-- the order of frames with the same offset is not determined.
unfoldable pub insert_frame : CryptoFrame → List CryptoFrame → List CryptoFrame
insert_frame f [] = f ∷ []
insert_frame f (g ∷ gs) =
    let rest = insert_frame f gs in if leb f.offset g.offset then f ∷ (g ∷ gs) else g ∷ rest

unfoldable pub sort_frames : List CryptoFrame → List CryptoFrame
unfolding insert_frame
sort_frames [] = []
sort_frames (f ∷ fs) = insert_frame f (sort_frames fs)

-- the loop that checks that each frame after the first begins where the frame before it ends
unfoldable pub are_contiguous : List CryptoFrame → Bool
are_contiguous [] = true
are_contiguous (f ∷ []) = true
are_contiguous (f ∷ (g ∷ fs)) = g.offset == f.offset + length f.bytes && are_contiguous (g ∷ fs)

-- the end of the last frame
unfoldable pub last_end : List CryptoFrame → ℕ
last_end [] = 0
last_end (f ∷ []) = f.offset + length f.bytes
last_end (f ∷ (g ∷ fs)) = last_end (g ∷ fs)

abbrev pub zeros : ℕ → Bytes
zeros zero = []
zeros (suc n) = 0 ∷ zeros n

-- copy(dst, src): as many bytes as both have
unfoldable pub copy : Bytes → Bytes → Bytes
copy [] src = []
copy (x ∷ dst) [] = x ∷ dst
copy (x ∷ dst) (y ∷ src) = y ∷ copy dst src

-- copy(data[frame.Offset:], frame.Data); the offset is within the data
unfoldable pub copy_at : ℕ → Bytes → Bytes → Bytes
unfolding copy
copy_at zero src dst = copy dst src
copy_at (suc n) src [] = []
copy_at (suc n) src (x ∷ dst) = x ∷ copy_at n src dst

-- the loop that fills the data
unfoldable pub copy_frames : List CryptoFrame → Bytes → Bytes
unfolding copy_at
copy_frames [] bytes = bytes
copy_frames (f ∷ fs) bytes = copy_frames fs (copy_at f.offset f.bytes bytes)

-- the frames in order: check them and put their data together
unfoldable pub assemble_sorted : ℕ → List CryptoFrame → Attempt Bytes
unfolding are_contiguous copy_frames last_end
assemble_sorted max_length fs =
    if are_contiguous fs
    then (if ltb max_length (last_end fs)
        then panicked
        else done (copy_frames fs (zeros (last_end fs))))
    else failed

-- assembleCryptoFrames, with `failed` for nil
unfoldable pub assemble_crypto_frames : ℕ → List CryptoFrame → Attempt Bytes
unfolding sort_frames assemble_sorted
assemble_crypto_frames max_length [] = failed
assemble_crypto_frames max_length (f ∷ []) = done f.bytes
assemble_crypto_frames max_length (f ∷ (g ∷ fs)) =
    assemble_sorted max_length (sort_frames (f ∷ (g ∷ fs)))
