-- ===== src/Analyzer/Tls.antt =====
-- analyzer/internal/tls.go: parsing the bodies of client and server hello messages. The property
-- map is a record; a parser that returns nil is `malformed` here, and `no_fuel` would mean that a
-- loop over the rest of a buffer had not ended.
pub mod Hello
pub mod Total
pub mod Ends
pub mod Stream
pub mod Encode
pub mod Listing
pub mod RoundTrip
pub mod Fingerprint
pub mod Session
pub mod Returns
use open_gfw_next.Base.{
  ◌*◌, ℕ, zero, suc, ◌+◌, ◌/◌, ◌%◌, Bool, true, false, Option, none, some, List, [], ◌∷◌, ◌++◌,
  Bytes, ◌==◌, if◌then◌else◌, length,
}
use open_gfw_next.Utils.ByteBuffer
use open_gfw_next.Utils.ByteBuffer.{ByteBuffer}

pub data Read (A : Type 0) : Type 0 where
  value : A → Read A
  malformed no_fuel : Read A

-- a step that reads from a buffer
abbrev pub Parser : Type 0 → Type 0
Parser A = ByteBuffer → Read (A × ByteBuffer)

infixl 5 ◌>>=◌ ◌>>◌
abbrev pub ◌>>=◌ : {A B : Type 0} → Parser A → (A → Parser B) → Parser B
◌>>=◌ p f b = elim (p b) [ value (a, b') ↦ f a b' | malformed ↦ malformed | no_fuel ↦ no_fuel ]

abbrev pub ◌>>◌ : {A B : Type 0} → Parser A → Parser B → Parser B
p >> q = p >>= λ _. q

abbrev pub give : {A : Type 0} → A → Parser A
give a b = value (a, b)

abbrev pub lift : {A : Type 0} → Read A → Parser A
lift (value a) b = value (a, b)
lift malformed b = malformed
lift no_fuel b = no_fuel

abbrev pub fail : {A : Type 0} → Parser A
fail b = malformed

-- `ok` checked, or ignored with a zero value
abbrev pub checked : {A : Type 0} → ByteBuffer × Option A → Read (A × ByteBuffer)
checked (b, none) = malformed
checked (b, some a) = value (a, b)

abbrev pub or_zero : {A : Type 0} → A → ByteBuffer × Option A → Read (A × ByteBuffer)
or_zero zero_value (b, none) = value (zero_value, b)
or_zero zero_value (b, some a) = value (a, b)

unfoldable pub u8 : Parser ℕ
u8 b = checked (ByteBuffer.get_byte b true)

unfoldable pub u16 : Parser ℕ
u16 b = checked (ByteBuffer.get_uint16 b false true)

unfoldable pub bytes : ℕ → Parser Bytes
bytes n b = checked (ByteBuffer.get b n true)

unfoldable pub skip : ℕ → Parser Bool
skip n b = let (b', ok) = ByteBuffer.skip b n in if ok then value (true, b') else malformed

unfoldable pub sub_buffer : ℕ → Parser ByteBuffer
sub_buffer n b = checked (ByteBuffer.get_sub_buffer b n true)

-- for i := range values { values[i], ok = GetUint16 }
unfoldable pub u16s : ℕ → Parser (List ℕ)
unfolding u16
u16s zero = give []
u16s (suc n) = u16 >>= λ v. u16s n >>= λ vs. give (v ∷ vs)

-- for buf.Len() > 0 { GetUint16 }, structurally on the rest of the buffer
unfoldable pub rest_u16s : Bytes → Read (List ℕ)
rest_u16s [] = value []
rest_u16s (x ∷ []) = malformed
rest_u16s (x ∷ (y ∷ rest)) = elim (rest_u16s rest) [
  | value vs ↦ value ((y + x * 256) ∷ vs)
  | malformed ↦ malformed
  | no_fuel ↦ no_fuel
]

-- the loop over the entries of an ALPN list, each at least one byte
unfoldable pub rest_names : ℕ → Parser (List Bytes)
unfolding u8 bytes
rest_names zero b = elim (b.buf) [ [] ↦ value ([], b) | _ ∷ _ ↦ no_fuel ]
rest_names (suc fuel) b = elim (b.buf) [
  | [] ↦ value ([], b)
  | _ ∷ _ ↦ (u8 >>= λ n. bytes n >>= λ name. rest_names fuel >>= λ names. give (name ∷ names)) b
]

-- what `supported_versions` holds: the server's choice, or the client's list
pub data Versions : Type 0 where
  chosen : ℕ → Versions
  offered : List ℕ → Versions

-- the entries of the map that extensions set
pub record Extensions : Type 0 where
  pub sni : Option Bytes
  pub alpn : Option (List Bytes)
  pub supported_groups : Option (List ℕ)
  pub ec_point_formats : Option Bytes
  pub signature_algorithms : Option (List ℕ)
  pub supported_versions : Option Versions
  pub ech : Bool

abbrev pub no_extensions : Extensions
no_extensions = record {
  sni = none;
  alpn = none;
  supported_groups = none;
  ec_point_formats = none;
  signature_algorithms = none;
  supported_versions = none;
  ech = false;
}

-- what a parser returns, without the buffer
abbrev pub ended : {A B : Type 0} → (A → B) → Read A → Read B
ended f (value a) = value (f a)
ended f malformed = malformed
ended f no_fuel = no_fuel

-- the cases of parseTLSExtensions
unfoldable pub parse_server_name : Extensions → ByteBuffer → Read Extensions
unfolding skip u8 u16 bytes
parse_server_name e b =
    ended (λ (r : Bytes × ByteBuffer). record e { sni = some r.0 })
      ((skip 2 >> u8 >>= λ t. (if t == 0 then u16 else fail) >>= λ n. bytes n) b)

unfoldable pub parse_alpn : Extensions → ByteBuffer → Read Extensions
unfolding skip rest_names
parse_alpn e b =
    ended (λ (r : List Bytes × ByteBuffer). record e { alpn = some r.0 })
      ((skip 2 >> λ b'. rest_names (length b'.buf) b') b)

-- a list of 16-bit numbers behind `n` bytes that are skipped
unfoldable pub skipped_u16s : ℕ → ByteBuffer → Read (List ℕ)
unfolding skip rest_u16s
skipped_u16s n b = elim (skip n b) [
  | value (_, b') ↦ rest_u16s b'.buf
  | malformed ↦ malformed
  | no_fuel ↦ no_fuel
]

unfoldable pub parse_point_formats : Extensions → ByteBuffer → Read Extensions
unfolding skip
parse_point_formats e b = elim (skip 1 b) [
  | value (_, b') ↦ value (record e { ec_point_formats = some b'.buf })
  | malformed ↦ malformed
  | no_fuel ↦ no_fuel
]

unfoldable pub parse_versions : Extensions → ByteBuffer → Read Extensions
unfolding u16 skipped_u16s
parse_versions e b =
    if length b.buf == 2
    then ended (λ (r : ℕ × ByteBuffer). record e { supported_versions = some (chosen r.0) }) (u16 b)
    else ended (λ vs. record e { supported_versions = some (offered vs) }) (skipped_u16s 1 b)

-- parseTLSExtensions
unfoldable pub parse_extension : ℕ → ByteBuffer → Extensions → Read Extensions
unfolding parse_server_name parse_alpn skipped_u16s parse_point_formats parse_versions
parse_extension kind b e =
    if kind == 0
    then parse_server_name e b
    else if kind == 0x10
    then parse_alpn e b
    else if kind == 0x0a
    then ended (λ vs. record e { supported_groups = some vs }) (skipped_u16s 2 b)
    else if kind == 0x0b
    then parse_point_formats e b
    else if kind == 0x0d
    then ended (λ vs. record e { signature_algorithms = some vs }) (skipped_u16s 2 b)
    else if kind == 0x2b
    then parse_versions e b
    else if kind == 0xfe0d
    then value (record e { ech = true })
    else value e
