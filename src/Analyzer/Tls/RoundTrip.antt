-- ===== src/Analyzer/Tls/RoundTrip.antt =====
-- The parser of analyzer/internal/tls.go on a client hello that is written out as RFC 8446 says.
use open_gfw_next.Base.{
  ℕ, ◌*◌, ◌/◌, ◌%◌, ◌<◌, ◌≡◌, refl, sym, ap, ◌∙◌, true, false, List, [], ◌∷◌, ◌++◌, Bytes, arith,
  ◌==◌, if◌then◌else◌, length,
}
use open_gfw_next.Utils.ByteBuffer
use open_gfw_next.Utils.ByteBuffer.{ByteBuffer, get}
use open_gfw_next.Analyzer.Tls.{
  Read, value, malformed, no_fuel, ◌>>=◌, give, fail, or_zero, u8, u16, bytes, u16s, Extensions,
  no_extensions,
}
use open_gfw_next.Analyzer.Tls.Hello.{opening, client_body, parse_client_hello, ClientHello}
use open_gfw_next.Analyzer.Tls.Encode.{
  buffer, u16_bytes, u16s_bytes, AllShort, bind_value, get_byte_lem, u8_lem, u16_lem,
  get_uint16_lem, get_front, bytes_lem, u16s_lem,
}
use open_gfw_next.Analyzer.Tls.Listing.{
  Extension, kinds, extensions_bytes, AllFit, apply_all, with_kinds, trailing_lem,
}

-- what a client sends
pub record Offer : Type 0 where
  pub version : ℕ
  pub random : Bytes
  pub session : Bytes
  pub ciphers : List ℕ
  pub compression : Bytes
  pub extensions : List Extension

abbrev pub offer_body : Offer → Bytes → Bytes
offer_body o rest =
    u16_bytes (2 * length o.ciphers)
    ++ (u16s_bytes o.ciphers ++ (length o.compression ∷ (o.compression ++ rest)))

abbrev pub offer_start : Offer → Bytes → Bytes
offer_start o rest = u16_bytes o.version ++ (o.random ++ (length o.session ∷ (o.session ++ rest)))

-- the message without its header
abbrev pub offer_bytes : Offer → Bytes
offer_bytes o =
    let list = extensions_bytes o.extensions in
    offer_start o (offer_body o (u16_bytes (length list) ++ list))

-- every part has the size that its length field can tell
pub record Fits (o : Offer) : Type 0 where
  pub version_fits : o.version < 65536
  pub random_size : length o.random ≡ 32
  pub ciphers_short : AllShort o.ciphers
  pub ciphers_fit : 2 * length o.ciphers < 65536
  pub extensions_short : AllFit o.extensions
  pub extensions_fit : length (extensions_bytes o.extensions) < 65536

opening_lem :
    (o : Offer) (rest : Bytes)
    → Fits o
    → opening (buffer (offer_start o rest))
      ≡ value (record { version = o.version; random = o.random; session = o.session }, buffer rest)
unfolding opening
opening_lem o rest fits =
    let tail3 = length o.session ∷ (o.session ++ rest) in
    let tail2 = o.random ++ tail3 in
    bind_value (λ b. or_zero 0 (ByteBuffer.get_uint16 b false true)) _
      (buffer (u16_bytes o.version ++ tail2)) o.version (buffer tail2)
      (ap (or_zero 0) (get_uint16_lem o.version tail2 fits.version_fits))
    ∙ bind_value (λ b. or_zero [] (get b 32 true)) _ (buffer tail2) o.random (buffer tail3)
        (ap (λ n. or_zero [] (get (buffer tail2) n true)) (sym fits.random_size)
          ∙ ap (or_zero []) (get_front o.random tail3))
    ∙ bind_value (λ b. or_zero 0 (ByteBuffer.get_byte b true)) _ (buffer tail3) (length o.session)
        (buffer (o.session ++ rest))
        (ap (or_zero 0) (get_byte_lem (length o.session) (o.session ++ rest)))
    ∙ bind_value (bytes (length o.session)) _ (buffer (o.session ++ rest)) o.session (buffer rest)
        (bytes_lem o.session rest)

even_count :
    (n : ℕ) (b : ByteBuffer) → (if 2 * n % 2 == 0 then u16s (2 * n / 2) else fail) b ≡ u16s n b
even_count n b =
    let even : (2 * n % 2 == 0) ≡ true = ground arith in
    let half : 2 * n / 2 ≡ n = omega arith in rw (even, half) refl

client_body_lem :
    (o : Offer) (rest : Bytes)
    → Fits o
    → client_body (buffer (offer_body o rest)) ≡ value ((o.ciphers, o.compression), buffer rest)
unfolding client_body
client_body_lem o rest fits =
    let tail4 = o.compression ++ rest in
    let tail3 = length o.compression ∷ tail4 in
    let tail2 = u16s_bytes o.ciphers ++ tail3 in
    let count = length o.ciphers in
    bind_value u16 _ (buffer (u16_bytes (2 * count) ++ tail2)) (2 * count) (buffer tail2)
      (u16_lem (2 * count) tail2 fits.ciphers_fit)
    ∙ bind_value (if 2 * count % 2 == 0 then u16s (2 * count / 2) else fail) _ (buffer tail2)
        o.ciphers (buffer tail3)
        (even_count count (buffer tail2) ∙ u16s_lem o.ciphers tail3 fits.ciphers_short)
    ∙ bind_value u8 _ (buffer tail3) (length o.compression) (buffer tail4)
        (u8_lem (length o.compression) tail4)
    ∙ bind_value (bytes (length o.compression)) _ (buffer tail4) o.compression (buffer rest)
        (bytes_lem o.compression rest)

abbrev pub hello_of : Offer → Extensions → ClientHello
hello_of o e = record {
  start = record { version = o.version; random = o.random; session = o.session };
  ciphers = o.ciphers;
  compression = o.compression;
  extension_types = kinds o.extensions;
  extensions = e;
}

finished :
    (o : Offer) (r : Read Extensions)
    → ((λ _. with_kinds (kinds o.extensions) r (buffer [])) >>= λ found. give (record {
      start = record { version = o.version; random = o.random; session = o.session };
      ciphers = o.ciphers;
      compression = o.compression;
      extension_types = found.0;
      extensions = found.1;
    }))
        (buffer [])
      ≡ (elim r [
        | value e ↦ value (hello_of o e, buffer [])
        | malformed ↦ malformed
        | no_fuel ↦ no_fuel
      ])
finished o (value e) = refl
finished o malformed = refl
finished o no_fuel = refl

-- A client hello whose parts fit their length fields is read back: version, random, session,
-- cipher suites, compression methods and extension types are those that were written, in order, and
-- the entries of the extensions are what their data set one after the other. The message is refused
-- exactly if the data of an extension is malformed.
pub parse_client_hello-offer :
    (o : Offer)
    → Fits o
    → parse_client_hello (buffer (offer_bytes o)) ≡ (elim (apply_all o.extensions no_extensions) [
      | value e ↦ value (hello_of o e, buffer [])
      | malformed ↦ malformed
      | no_fuel ↦ no_fuel
    ])
unfolding parse_client_hello
parse_client_hello-offer o fits =
    let list = extensions_bytes o.extensions in
    let tail2 = u16_bytes (length list) ++ list in
    let tail1 = offer_body o tail2 in
    bind_value opening _ (buffer (offer_start o tail1)) _ (buffer tail1) (opening_lem o tail1 fits)
    ∙ bind_value client_body _ (buffer tail1) (o.ciphers, o.compression) (buffer tail2)
        (client_body_lem o tail2 fits)
    ∙ ap
        (λ q.
          ((λ _. q) >>= λ found. give (record {
            start = record { version = o.version; random = o.random; session = o.session };
            ciphers = o.ciphers;
            compression = o.compression;
            extension_types = found.0;
            extensions = found.1;
          }))
            (buffer []))
        (trailing_lem o.extensions fits.extensions_short fits.extensions_fit)
    ∙ finished o (apply_all o.extensions no_extensions)
