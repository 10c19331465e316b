-- ===== src/Analyzer/Tls/Encode.antt =====
-- Client hello messages as RFC 8446 writes them, and how the parser of analyzer/internal/tls.go reads
-- each of their parts back, whatever bytes follow.
use open_gfw_next.Base.{
  ℕ, ◌+◌, ◌/◌, ◌%◌, ◌<◌, ◌≡◌, refl, ap, ◌∙◌, true, false, some, List, [], ◌∷◌, ◌++◌, append-nil,
  Bytes, arith, ◌==◌, if◌then◌else◌, length, take, drop, length-append,
}
use open_gfw_next.Utils.ByteBuffer
use open_gfw_next.Utils.ByteBuffer.{ByteBuffer, get}
use open_gfw_next.Analyzer.Tls.{
  value, Parser, ◌>>=◌, ◌>>◌, ended, fail, checked, u8, u16, bytes, sub_buffer, skip, u16s,
  Extensions, parse_extension, parse_server_name,
}

abbrev pub buffer : Bytes → ByteBuffer
buffer xs = record { buf = xs }

abbrev pub u16_bytes : ℕ → Bytes
u16_bytes v = v / 256 ∷ (v % 256 ∷ [])

-- a step that succeeds, and the step after it
pub bind_value :
    {A B : Type 0} (p : Parser A) (f : A → Parser B) (b : ByteBuffer) (a : A) (b' : ByteBuffer)
    → p b ≡ value (a, b')
    → (p >>= f) b ≡ f a b'
bind_value p f b a b' e = rw (e, ◌>>=◌) refl

pub get_byte_lem :
    (x : ℕ) (rest : Bytes) → ByteBuffer.get_byte (buffer (x ∷ rest)) true ≡ (buffer rest, some x)
unfolding ByteBuffer.get_byte get
get_byte_lem x rest = ground arith

pub u8_lem : (x : ℕ) (rest : Bytes) → u8 (buffer (x ∷ rest)) ≡ value (x, buffer rest)
unfolding u8
u8_lem x rest = ap checked (get_byte_lem x rest)

pub get_uint16_lem :
    (v : ℕ) (rest : Bytes)
    → v < 65536
    → ByteBuffer.get_uint16 (buffer (u16_bytes v ++ rest)) false true ≡ (buffer rest, some v)
unfolding ByteBuffer.get_uint16 get
get_uint16_lem v rest h = ground arith

pub u16_lem :
    (v : ℕ) (rest : Bytes) → v < 65536 → u16 (buffer (u16_bytes v ++ rest)) ≡ value (v, buffer rest)
unfolding u16
u16_lem v rest h = ap checked (get_uint16_lem v rest h)

take_front : (xs rest : Bytes) → take (length xs) (xs ++ rest) ≡ xs
take_front [] rest = refl
take_front (x ∷ xs) rest = ap (λ ys. x ∷ ys) (take_front xs rest)

drop_front : (xs rest : Bytes) → drop (length xs) (xs ++ rest) ≡ rest
drop_front [] rest = refl
drop_front (x ∷ xs) rest = drop_front xs rest

pub get_front :
    (xs rest : Bytes) → get (buffer (xs ++ rest)) (length xs) true ≡ (buffer rest, some xs)
unfolding get
get_front xs rest = ground (arith, length-append xs rest, take_front xs rest, drop_front xs rest)

pub bytes_lem :
    (xs rest : Bytes) → bytes (length xs) (buffer (xs ++ rest)) ≡ value (xs, buffer rest)
unfolding bytes
bytes_lem xs rest = ap checked (get_front xs rest)

pub sub_buffer_lem :
    (xs rest : Bytes)
    → sub_buffer (length xs) (buffer (xs ++ rest)) ≡ value (buffer xs, buffer rest)
unfolding sub_buffer ByteBuffer.get_sub_buffer
sub_buffer_lem xs rest = ground (arith, get_front xs rest)

pub sub_buffer_all :
    (xs : Bytes) → sub_buffer (length xs) (buffer xs) ≡ value (buffer xs, buffer [])
sub_buffer_all xs = rw (append-nil xs) at (sub_buffer_lem xs [])

-- numbers of 16 bits, one after the other
unfoldable pub u16s_bytes : List ℕ → Bytes
u16s_bytes [] = []
u16s_bytes (v ∷ vs) = u16_bytes v ++ u16s_bytes vs

-- all numbers have 16 bits
abbrev pub AllShort : List ℕ → Type 0
AllShort [] = Unit {0}
AllShort (v ∷ vs) = (v < 65536) × AllShort vs

pub u16s_lem :
    (vs : List ℕ) (rest : Bytes)
    → AllShort vs
    → u16s (length vs) (buffer (u16s_bytes vs ++ rest)) ≡ value (vs, buffer rest)
unfolding u16s u16s_bytes
u16s_lem [] rest h = refl
u16s_lem (v ∷ vs) rest h =
    bind_value u16 _ _ v (buffer (u16s_bytes vs ++ rest)) (u16_lem v (u16s_bytes vs ++ rest) h.0)
    ∙ bind_value (u16s (length vs)) _ _ vs (buffer rest) (u16s_lem vs rest h.1)

-- the data of a server name extension with one host name
abbrev pub server_name_data : Bytes → Bytes
server_name_data name = u16_bytes (length name + 3) ++ (0 ∷ (u16_bytes (length name) ++ name))

bytes_all : (xs : Bytes) → bytes (length xs) (buffer xs) ≡ value (xs, buffer [])
bytes_all xs = rw (append-nil xs) at (bytes_lem xs [])

skip_lem : (x y : ℕ) (rest : Bytes) → skip 2 (buffer (x ∷ (y ∷ rest))) ≡ value (true, buffer rest)
unfolding skip ByteBuffer.skip
skip_lem x y rest = ground arith

-- A server name extension sets `sni` to its host name.
pub parse_extension-server_name :
    (name : Bytes) (e : Extensions)
    → length name < 65536
    → parse_extension 0 (buffer (server_name_data name)) e ≡ value (record e { sni = some name })
unfolding parse_extension parse_server_name
parse_extension-server_name name e h =
    let size = length name in
    let tail = u16_bytes size ++ name in
    let start = buffer (server_name_data name) in
    let kind =
      bind_value (skip 2) (λ _. u8) start true (buffer (0 ∷ tail))
        (skip_lem ((size + 3) / 256) ((size + 3) % 256) (0 ∷ tail))
      ∙ u8_lem 0 tail in
    let last = bytes_all name in
    ap (ended (λ (r : Bytes × ByteBuffer). record e { sni = some r.0 })) (
      bind_value (skip 2 >> u8) (λ t. (if t == 0 then u16 else fail) >>= λ n. bytes n) start 0
        (buffer tail) kind
      ∙ bind_value u16 (λ n. bytes n) (buffer tail) size (buffer name) (u16_lem size name h)
      ∙ last)
