-- ===== src/Analyzer/Tls/Hello.antt =====
-- analyzer/internal/tls.go: the loop over the extensions, and the two hello messages.
use open_gfw_next.Base.{
  ℕ, zero, suc, ◌/◌, ◌%◌, true, false, none, some, List, [], ◌∷◌, ◌++◌, Bytes, ◌==◌, if◌then◌else◌,
  length,
}
use open_gfw_next.Utils.ByteBuffer
use open_gfw_next.Utils.ByteBuffer.{ByteBuffer}
use open_gfw_next.Analyzer.Tls.{
  value, no_fuel, Parser, ◌>>=◌, give, lift, ended, fail, or_zero, u8, u16, bytes, sub_buffer, u16s,
  Extensions, no_extensions, parse_extension,
}

-- what the loop over the extensions has read: their types and what they set
abbrev pub Found : Type 0
Found = List ℕ × Extensions

-- one extension: its type, and its data parsed
unfoldable pub next_extension : Extensions → Parser Found
unfolding u16 sub_buffer parse_extension
next_extension e = u16 >>= λ kind. u16 >>= λ n.
    sub_buffer n >>= λ d. lift (parse_extension kind d e) >>= λ e'. give (kind ∷ [], e')

-- for extBuf.Len() > 0; an extension takes at least four bytes
unfoldable pub extensions : ℕ → Extensions → Parser Found
unfolding next_extension
extensions zero e b = elim (b.buf) [ [] ↦ value (([], e), b) | _ ∷ _ ↦ no_fuel ]
extensions (suc fuel) e b = elim (b.buf) [
  | [] ↦ value (([], e), b)
  | _ ∷ _ ↦ (next_extension e >>= λ f. extensions fuel f.1 >>= λ g. give (f.0 ++ g.0, g.1)) b
]

-- the end of a hello: the extensions, if there are two more bytes
unfoldable pub trailing : Parser Found
unfolding sub_buffer extensions
trailing b =
    let (b', size) = ByteBuffer.get_uint16 b false true in
    elim size [
      | none ↦ value (([], no_extensions), b')
      | some n ↦
          (sub_buffer n >>= λ d.
          lift
            (ended (λ (r : Found × ByteBuffer). r.0) (extensions (length d.buf) no_extensions d)))
            b'
    ]

-- what both hellos begin with: version, random and session; the first two are not checked
pub record Opening : Type 0 where
  pub version : ℕ
  pub random : Bytes
  pub session : Bytes

unfoldable pub opening : Parser Opening
unfolding bytes
opening = (λ b. or_zero 0 (ByteBuffer.get_uint16 b false true)) >>= λ version.
    (λ b. or_zero [] (ByteBuffer.get b 32 true)) >>= λ random.
    (λ b. or_zero 0 (ByteBuffer.get_byte b true)) >>= λ n.
    bytes n >>= λ session. give (record { version = version; random = random; session = session })

-- the map of parseTLSClientHelloMsgData, before the fingerprints
pub record ClientHello : Type 0 where
  pub start : Opening
  pub ciphers : List ℕ
  pub compression : Bytes
  pub extension_types : List ℕ
  pub extensions : Extensions

unfoldable pub client_body : Parser (List ℕ × Bytes)
unfolding u8 u16 u16s bytes
client_body = u16 >>= λ n. (if n % 2 == 0 then u16s (n / 2) else fail) >>= λ ciphers.
    u8 >>= λ m. bytes m >>= λ compression. give (ciphers, compression)

-- parseTLSClientHelloMsgData
unfoldable pub parse_client_hello : Parser ClientHello
unfolding opening client_body trailing
parse_client_hello = opening >>= λ o. client_body >>= λ body. trailing >>= λ found. give (record {
  start = o;
  ciphers = body.0;
  compression = body.1;
  extension_types = found.0;
  extensions = found.1;
})

-- the map of ParseTLSServerHelloMsgData
pub record ServerHello : Type 0 where
  pub start : Opening
  pub cipher : ℕ
  pub compression : ℕ
  pub extensions : Extensions

-- ParseTLSServerHelloMsgData
unfoldable pub parse_server_hello : Parser ServerHello
unfolding opening u8 u16 trailing
parse_server_hello = opening >>= λ o. u16 >>= λ cipher. u8 >>= λ compression. trailing >>= λ found.
    give (record { start = o; cipher = cipher; compression = compression; extensions = found.1 })
