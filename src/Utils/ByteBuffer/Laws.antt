-- ===== src/Utils/ByteBuffer/Laws.antt =====
-- The fixed-length getters of analyzer/utils/bytebuffer.go.
use open_gfw_next.Base.{
  ℕ, ◌<◌, ◌≡◌, ◌⊎◌, inl, inr, Bool, true, none, some, ◌++◌, Bytes, arith, ltb, Bool-cases, ltb→lt,
  length, take, drop, length-append, length-take, take-append-drop, take-append_le, drop-append_le,
}
use open_gfw_next.Utils.ByteBuffer.{ByteBuffer, append, get}

-- `Get` with `consume` takes exactly the first `n` bytes off the buffer and loses none; it fails
-- exactly when the buffer is shorter than `n`, and then the buffer stays.
pub get_splits :
    (b : ByteBuffer) (n : ℕ)
    → ((length b.buf < n) × (get b n true ≡ (b, none)))
      ⊎ ((d : Bytes) × (rest : Bytes) × (get b n true ≡ (record { buf = rest }, some d))
          × (length d ≡ n)
          × (d ++ rest ≡ b.buf))
unfolding get
get_splits b n = elim (Bool-cases (ltb (length b.buf) n)) [
  | inl short ↦ inl (ltb→lt _ _ short, ground arith)
  | inr enough ↦ inr (
    take n b.buf,
    drop n b.buf,
    ground arith,
    ground (arith, length-take n b.buf),
    take-append-drop n b.buf,
  )
]

-- Bytes that arrive later change nothing of a `Get` that has succeeded, with or without `consume`:
-- they stand behind what it leaves.
pub get-append :
    (b : ByteBuffer) (n : ℕ) (consume : Bool) (more d : Bytes)
    → (get b n consume).1 ≡ some d
    → get (append b more) n consume ≡ (append (get b n consume).0 more, some d)
unfolding get append
get-append b n consume more d h =
    ground
      (arith, length-append b.buf more, take-append_le n b.buf more, drop-append_le n b.buf more)
