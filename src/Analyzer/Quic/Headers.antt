-- ===== src/Analyzer/Quic/Headers.antt =====
-- analyzer/udp/internal/quic/header.go: the header of an Initial packet that is written and read again.
use open_gfw_next.Base.{
  ℕ, ◌/◌, ◌%◌, ◌<◌, ◌≡◌, refl, ap, ◌∙◌, true, [], ◌∷◌, ◌++◌, Bytes, Option, some, arith, length,
  take-append_all, drop-append_all, length-append, append_assoc,
}
use open_gfw_next.Utils.ByteBuffer.{uint32_of}
use open_gfw_next.Analyzer.Quic.Header.{
  Header, read_byte, read_full, read_connection_id, be_uint32, read_id, is_initial, read_token,
  read_tail, read_rest, parse_long_header, parse_initial_header,
}
use open_gfw_next.Analyzer.Quic.Protect.{big_endian}
use open_gfw_next.Analyzer.Quic.Encode.{IsVarint}

read_full-append : (b rest : Bytes) → read_full (length b) (b ++ rest) ≡ some (b, rest)
unfolding read_full
read_full-append b rest =
    ground (arith, length-append b rest, take-append_all b rest, drop-append_all b rest)

read_connection_id-append :
    (b rest : Bytes) → read_connection_id (length b) (b ++ rest) ≡ some (b, rest)
unfolding read_connection_id
read_connection_id-append [] [] = refl
read_connection_id-append [] (x ∷ rest) = read_full-append [] (x ∷ rest)
read_connection_id-append (x ∷ b) rest = read_full-append (x ∷ b) rest

be_uint32-big_endian :
    (v : ℕ) (rest : Bytes) → v < 4294967296 → be_uint32 (big_endian 4 v ++ rest) ≡ some (v, rest)
unfolding be_uint32 big_endian uint32_of read_full
be_uint32-big_endian v rest h = ground arith

read_id-append : (b rest : Bytes) → read_id (length b ∷ (b ++ rest)) ≡ some (b, rest)
unfolding read_id read_byte
read_id-append b rest = read_connection_id-append b rest

-- the bytes of a header behind its version
unfoldable pub tail_bytes : (ℕ → Bytes) → Header → Bytes
tail_bytes append_varint h =
    length h.dest_connection_id
    ∷ (h.dest_connection_id
        ++ (length h.src_connection_id
            ∷ (h.src_connection_id
                ++ (append_varint (length h.token)
                    ++ (h.token ++ append_varint h.payload_length)))))

unfoldable pub header_bytes : (ℕ → Bytes) → ℕ → Header → Bytes
unfolding tail_bytes
header_bytes append_varint first h = first ∷ (big_endian 4 h.version ++ tail_bytes append_varint h)

module _ {append_varint : ℕ → Bytes} (read_varint : Bytes → Option (ℕ × Bytes))
    (v : IsVarint append_varint read_varint) where
  read_tail-append :
      (token rest : Bytes) (n : ℕ)
      → length token < 4611686018427387904
      → n < 4611686018427387904
      → read_tail read_varint true
          (append_varint (length token) ++ (token ++ (append_varint n ++ rest)))
        ≡ some ((token, n), rest)
  unfolding read_tail read_token
  read_tail-append token rest n h k = ground (
    arith,
    v.read_append (length token) (token ++ (append_varint n ++ rest)) h,
    read_full-append token (append_varint n ++ rest),
    v.read_append n rest k,
  )

  read_rest-append :
      (first version n : ℕ) (dest src token rest : Bytes)
      → is_initial first version ≡ true
      → length token < 4611686018427387904
      → n < 4611686018427387904
      → read_rest read_varint first version (
          length dest
          ∷ (dest
              ++ (length src
                  ∷ (src
                      ++ (append_varint (length token) ++ (token ++ (append_varint n ++ rest)))))))
        ≡ some (
          record {
            version = version;
            src_connection_id = src;
            dest_connection_id = dest;
            payload_length = n;
            token = token;
          },
          rest,
        )
  unfolding read_rest
  read_rest-append first version n dest src token rest i t k =
      let tail = append_varint (length token) ++ (token ++ (append_varint n ++ rest)) in
      ground (
        arith,
        i,
        read_id-append dest (length src ∷ (src ++ tail)),
        read_id-append src tail,
        read_tail-append token rest n t k,
      )

  read_rest-tail_bytes :
      (first : ℕ) (h : Header) (rest : Bytes)
      → is_initial first h.version ≡ true
      → length h.token < 4611686018427387904
      → h.payload_length < 4611686018427387904
      → read_rest read_varint first h.version (tail_bytes append_varint h ++ rest) ≡ some (h, rest)
  unfolding tail_bytes
  read_rest-tail_bytes first h rest i t n =
      ap (read_rest read_varint first h.version) (simp append_assoc)
      ∙ read_rest-append first h.version h.payload_length h.dest_connection_id h.src_connection_id
          h.token rest i t n

  parse_long_header-header_bytes :
      (first : ℕ) (h : Header) (rest : Bytes)
      → first / 64 % 2 ≡ 1
      → h.version < 4294967296
      → is_initial first h.version ≡ true
      → length h.token < 4611686018427387904
      → h.payload_length < 4611686018427387904
      → parse_long_header read_varint (header_bytes append_varint first h ++ rest) ≡ some (h, rest)
  unfolding parse_long_header header_bytes read_byte
  parse_long_header-header_bytes first h rest bit w i t n =
      let tail = tail_bytes append_varint h in
      let word =
        ap be_uint32 (append_assoc (big_endian 4 h.version) tail rest)
        ∙ be_uint32-big_endian h.version (tail ++ rest) w in
      ground (arith, bit, word, read_rest-tail_bytes first h rest i t n)

  -- `ParseInitialHeader` reads back the header of an Initial packet, and counts its bytes, whatever
  -- stands behind it.
  pub parse_initial_header-header_bytes :
      (first : ℕ) (h : Header) (rest : Bytes)
      → first / 64 % 2 ≡ 1
      → h.version < 4294967296
      → is_initial first h.version ≡ true
      → length h.token < 4611686018427387904
      → h.payload_length < 4611686018427387904
      → parse_initial_header read_varint (header_bytes append_varint first h ++ rest)
        ≡ some (h, length (header_bytes append_varint first h))
  unfolding parse_initial_header
  parse_initial_header-header_bytes first h rest bit w i t n = ground (
    arith,
    parse_long_header-header_bytes first h rest bit w i t n,
    length-append (header_bytes append_varint first h) rest,
  )
