-- ===== src/Utils/ByteBuffer.antt =====
-- analyzer/utils/bytebuffer.go. A method with a pointer receiver returns the buffer it leaves.
-- Lengths are not negative at any call in the repository. A `|` of shifted bytes is a sum here,
-- since the bits do not overlap.
pub mod Laws
pub mod Search
pub mod Lines
use open_gfw_next.Base.{
  ℕ, zero, suc, ◌+◌, ◌*◌, Bool, true, false, ◌&&◌, Option, none, some, List, [], ◌∷◌, ◌++◌, Bytes,
  ltb, ◌==◌, if◌then◌else◌, length, take, drop, get_or,
}

pub record ByteBuffer : Type 0 where
  pub buf : Bytes

abbrev pub empty : ByteBuffer
empty = record { buf = [] }

-- Append
unfoldable pub append : ByteBuffer → Bytes → ByteBuffer
append b bytes = record { buf = b.buf ++ bytes }

-- Len
abbrev pub len : ByteBuffer → ℕ
len b = length b.buf

-- Reset
unfoldable pub reset : ByteBuffer → ByteBuffer
reset b = empty

-- Get
unfoldable pub get : ByteBuffer → ℕ → Bool → ByteBuffer × Option Bytes
get b n consume =
    if ltb (length b.buf) n
    then (b, none)
    else (if consume then record { buf = drop n b.buf } else b, some (take n b.buf))

-- data[i] of a slice that is long enough
abbrev pub at : Bytes → ℕ → ℕ
at bytes i = get_or bytes i 0

-- what a getter makes of the bytes that `Get` returned
abbrev decode {ℓ} : {A : Type ℓ} → (Bytes → A) → ByteBuffer × Option Bytes → ByteBuffer × Option A
decode f (b, none) = (b, none)
decode f (b, some bytes) = (b, some (f bytes))

-- GetByte
unfoldable pub get_byte : ByteBuffer → Bool → ByteBuffer × Option ℕ
unfolding get
get_byte b consume = decode (λ bytes. at bytes 0) (get b 1 consume)

unfoldable pub uint16_of : Bool → Bytes → ℕ
uint16_of little bytes =
    if little then at bytes 0 + at bytes 1 * 256 else at bytes 1 + at bytes 0 * 256

unfoldable pub uint32_of : Bool → Bytes → ℕ
uint32_of little bytes =
    if little
    then at bytes 0 + at bytes 1 * 256 + at bytes 2 * 65536 + at bytes 3 * 16777216
    else at bytes 3 + at bytes 2 * 256 + at bytes 1 * 65536 + at bytes 0 * 16777216

-- GetUint16
unfoldable pub get_uint16 : ByteBuffer → Bool → Bool → ByteBuffer × Option ℕ
unfolding get uint16_of
get_uint16 b little consume = decode (uint16_of little) (get b 2 consume)

-- GetUint32
unfoldable pub get_uint32 : ByteBuffer → Bool → Bool → ByteBuffer × Option ℕ
unfolding get uint32_of
get_uint32 b little consume = decode (uint32_of little) (get b 4 consume)

-- bytes.Index, with `none` for -1
unfoldable pub is_prefix : Bytes → Bytes → Bool
is_prefix [] bytes = true
is_prefix (x ∷ xs) [] = false
is_prefix (x ∷ xs) (y ∷ ys) = x == y && is_prefix xs ys

abbrev later : Option ℕ → Option ℕ
later none = none
later (some i) = some (suc i)

-- Index
unfoldable pub index : Bytes → Bytes → Option ℕ
unfolding is_prefix
index [] sep = if is_prefix sep [] then some 0 else none
index (x ∷ xs) sep = if is_prefix sep (x ∷ xs) then some 0 else later (index xs sep)

get_to : ByteBuffer → Bytes → Bool → Bool → Option ℕ → ByteBuffer × Option Bytes
unfolding get
get_to b sep include consume none = (b, none)
get_to b sep include consume (some i) = get b (if include then i + length sep else i) consume

-- GetUntil
unfoldable pub get_until : ByteBuffer → Bytes → Bool → Bool → ByteBuffer × Option Bytes
unfolding get_to
get_until b sep include consume = get_to b sep include consume (index b.buf sep)

-- GetSubBuffer
unfoldable pub get_sub_buffer : ByteBuffer → ℕ → Bool → ByteBuffer × Option ByteBuffer
unfolding get
get_sub_buffer b n consume = decode (λ bytes. record { buf = bytes }) (get b n consume)

-- Skip
unfoldable pub skip : ByteBuffer → ℕ → ByteBuffer × Bool
skip b n = if ltb (length b.buf) n then (b, false) else (record { buf = drop n b.buf }, true)
