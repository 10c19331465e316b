-- ===== src/Analyzer/Tls/Fingerprint.antt =====
-- analyzer/internal/tls.go: the JA3 and JA4 fingerprints of a client hello. The digests of crypto/md5
-- and crypto/sha256 are parameters, from bytes to bytes.
pub mod Laws
use open_gfw_next.Base.{
  ℕ, ◌/◌, ◌%◌, Bool, true, false, not, ◌&&◌, ◌||◌, Option, none, some, List, [], ◌∷◌, ◌++◌, map,
  Bytes, ltb, ◌==◌, if◌then◌else◌, length, take, min,
}
use open_gfw_next.Utils.Sorting.{sort}
use open_gfw_next.Utils.Strings.{codes, is_empty}
use open_gfw_next.Utils.Strings.Format.{itoa, two_digits, hex4, encode_to_string, join}
use open_gfw_next.Analyzer.Tls.{Read, ended, Versions, chosen, offered, Extensions}
use open_gfw_next.Analyzer.Tls.Hello.{ClientHello, parse_client_hello}
use open_gfw_next.Utils.ByteBuffer.{ByteBuffer}

-- isGREASE
unfoldable pub is_grease : ℕ → Bool
is_grease value =
    let high = value / 256 % 256 in let low = value % 256 in high == low && high % 16 == 10

-- filterGREASE
unfoldable pub filter_grease : List ℕ → List ℕ
unfolding is_grease
filter_grease [] = []
filter_grease (v ∷ vs) = let rest = filter_grease vs in if is_grease v then rest else v ∷ rest

-- joinUint16sJA3 and joinUint8s
unfoldable pub join_uint16s_ja3 : List ℕ → Bytes
unfolding filter_grease itoa join
join_uint16s_ja3 vs = join (codes "-") (map itoa (filter_grease vs))

unfoldable pub join_uint8s : Bytes → Bytes
unfolding itoa join
join_uint8s vs = join (codes "-") (map itoa vs)

-- values[len(values)-1] after sorting, and the given number if there is none
abbrev last_or : ℕ → List ℕ → ℕ
last_or v [] = v
last_or v (w ∷ ws) = last_or w ws

-- the version that is fingerprinted: the greatest of the client's list, if it has one
unfoldable pub ja4_version : ℕ → Option Versions → ℕ
unfolding filter_grease sort
ja4_version version (some (offered vs)) = last_or version (sort (filter_grease vs))
ja4_version version _ = version

-- ja4TLSVersion
unfoldable pub ja4_tls_version : ℕ → Option Versions → Bytes
unfolding ja4_version
ja4_tls_version version supported =
    let v = ja4_version version supported in
    if v == 0x0002
    then codes "s2"
    else if v == 0x0300
    then codes "s3"
    else if v == 0x0301
    then codes "10"
    else if v == 0x0302
    then codes "11"
    else if v == 0x0303
    then codes "12"
    else if v == 0x0304
    then codes "13"
    else codes "00"

-- the code of the first protocol's name
unfoldable pub alpn_code : Bytes → Bytes
alpn_code [] = codes "00"
alpn_code (c ∷ s) =
    if ltb 127 c
    then codes "99"
    else if ltb 2 (length (c ∷ s))
    then c ∷ (last_or c s ∷ [])
    else c ∷ s

-- ja4ALPN
unfoldable pub ja4_alpn : Option (List Bytes) → Bytes
unfolding alpn_code
ja4_alpn (some (value ∷ values)) = alpn_code value
ja4_alpn _ = alpn_code []

-- ja4HexParts
unfoldable pub ja4_hex_parts : List ℕ → List Bytes
unfolding hex4
ja4_hex_parts vs = map hex4 vs

-- the extensions that ja4ExtensionHash counts in: not the server's name, not the protocols
unfoldable pub hashed_extensions : List ℕ → List ℕ
hashed_extensions [] = []
hashed_extensions (v ∷ vs) =
    let rest = hashed_extensions vs in if v == 0 || v == 0x10 then rest else v ∷ rest

abbrev pub no_hash : Bytes
no_hash = codes "000000000000"

module _ (sha256 : Bytes → Bytes) where
  -- ja4SHA12
  unfoldable pub ja4_sha12 : Bytes → Bytes
  unfolding encode_to_string
  ja4_sha12 value = take 12 (encode_to_string (sha256 value))

  -- ja4HashHexValues
  unfoldable pub ja4_hash_hex_values : List ℕ → Bytes
  unfolding ja4_sha12 ja4_hex_parts sort join
  ja4_hash_hex_values [] = no_hash
  ja4_hash_hex_values (v ∷ vs) = ja4_sha12 (join (codes ",") (ja4_hex_parts (sort (v ∷ vs))))

  -- the end of ja4ExtensionHash, on the parts of the extensions and of the signature algorithms
  unfoldable pub hash_parts : List Bytes → List Bytes → Bytes
  unfolding ja4_sha12 join
  hash_parts parts (s ∷ ss) =
      ja4_sha12 (join (codes ",") parts ++ (codes "_" ++ join (codes ",") (s ∷ ss)))
  hash_parts [] [] = no_hash
  hash_parts (p ∷ ps) [] = ja4_sha12 (join (codes ",") (p ∷ ps))

  -- ja4ExtensionHash
  unfoldable pub ja4_extension_hash : List ℕ → List ℕ → Bytes
  unfolding hash_parts hashed_extensions ja4_hex_parts sort filter_grease
  ja4_extension_hash extension_values algorithms =
      hash_parts (ja4_hex_parts (sort (hashed_extensions extension_values)))
        (ja4_hex_parts (filter_grease algorithms))

  -- buildJA4
  unfoldable pub build_ja4 :
      Bytes
      → ℕ
      → Option Versions
      → Option Bytes
      → List ℕ
      → List ℕ
      → Option (List Bytes)
      → List ℕ
      → Bytes
  unfolding filter_grease ja4_tls_version ja4_alpn ja4_hash_hex_values ja4_extension_hash two_digits
  build_ja4 protocol version supported sni ciphers types alpn algorithms =
      let cipher_values = filter_grease ciphers in
      let extension_values = filter_grease types in
      let prefix = if is_empty protocol then codes "t" else protocol in
      let sni_flag : Bytes = elim sni [ none ↦ codes "i" | some _ ↦ codes "d" ] in
      prefix
      ++ (ja4_tls_version version supported
          ++ (sni_flag
              ++ (two_digits (min (length cipher_values) 99)
                  ++ (two_digits (min (length extension_values) 99)
                      ++ (ja4_alpn alpn
                          ++ (codes "_"
                              ++ (ja4_hash_hex_values cipher_values
                                  ++ (codes "_"
                                      ++ ja4_extension_hash extension_values algorithms))))))))

-- an entry of the map, or the zero value
abbrev or_nil : {A : Type 0} → Option (List A) → List A
or_nil none = []
or_nil (some vs) = vs

-- the text that JA3 hashes
unfoldable pub ja3_text : ClientHello → Bytes
unfolding itoa join join_uint16s_ja3 join_uint8s
ja3_text m = join (codes ",") (
    itoa m.start.version
    ∷ (join_uint16s_ja3 m.ciphers
        ∷ (join_uint16s_ja3 m.extension_types
            ∷ (join_uint16s_ja3 (or_nil m.extensions.supported_groups)
                ∷ (join_uint8s (or_nil m.extensions.ec_point_formats) ∷ [])))))

-- the map of a client hello: what was read, and the fingerprints
pub record Fingerprinted : Type 0 where
  pub hello : ClientHello
  pub ja3 : Bytes
  pub ja3_hash : Bytes
  pub ja4 : Bytes

-- addTLSClientHelloFingerprint; the three entries that it deletes are none
unfoldable pub add_fingerprint :
    (Bytes → Bytes) → (Bytes → Bytes) → Bytes → ClientHello → Fingerprinted
unfolding ja3_text build_ja4 encode_to_string
add_fingerprint md5 sha256 protocol m = record {
  hello = record m {
    extensions = record (m.extensions) {
      supported_groups = none;
      ec_point_formats = none;
      signature_algorithms = none;
    };
  };
  ja3 = ja3_text m;
  ja3_hash = encode_to_string (md5 (ja3_text m));
  ja4 =
      build_ja4 sha256 protocol m.start.version m.extensions.supported_versions m.extensions.sni
        m.ciphers m.extension_types m.extensions.alpn (or_nil m.extensions.signature_algorithms);
}

-- parseTLSClientHelloMsgData with its last step, for a protocol
unfoldable pub parse_fingerprinted :
    (Bytes → Bytes) → (Bytes → Bytes) → Bytes → ByteBuffer → Read Fingerprinted
unfolding parse_client_hello add_fingerprint
parse_fingerprinted md5 sha256 protocol b =
    ended (λ (r : ClientHello × ByteBuffer). add_fingerprint md5 sha256 protocol r.0)
      (parse_client_hello b)
