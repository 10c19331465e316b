-- ===== src/Analyzer/Quic/Header.antt =====
-- analyzer/udp/internal/quic/header.go, with the versions of quic.go. quicvarint.Read is the parameter
-- `read_varint`; every other error of the readers is `none`.
use open_gfw_next.Base.{
  ℕ, ◌-◌, ◌/◌, ◌%◌, Bool, false, not, ◌&&◌, Option, none, some, [], ◌∷◌, Bytes, ltb, ◌==◌,
  if◌then◌else◌, length, take, drop,
}
use open_gfw_next.Utils.ByteBuffer.{uint32_of}
use open_gfw_next.Analyzer.Quic.{zeros}

-- V1 and V2
abbrev pub version1 : ℕ
version1 = 1

abbrev pub version2 : ℕ
version2 = 1798521807

-- Header; the type is never set
pub record Header : Type 0 where
  pub version : ℕ
  pub src_connection_id : Bytes
  pub dest_connection_id : Bytes
  pub payload_length : ℕ
  pub token : Bytes

-- what is read, and what is left to read
abbrev pub Read : Type 0 → Type 0
Read A = Option (A × Bytes)

-- ReadByte
unfoldable pub read_byte : Bytes → Read ℕ
read_byte [] = none
read_byte (x ∷ r) = some (x, r)

-- io.ReadFull of `n` bytes
unfoldable pub read_full : ℕ → Bytes → Read Bytes
read_full n r = if ltb (length r) n then none else some (take n r, drop n r)

-- readConnectionID: io.EOF, where nothing is left, is no error, and leaves the zeros of `make`
unfoldable pub read_connection_id : ℕ → Bytes → Read Bytes
unfolding read_full
read_connection_id n [] = some (zeros n, [])
read_connection_id n (x ∷ r) = read_full n (x ∷ r)

-- beUint32
unfoldable pub be_uint32 : Bytes → Read ℕ
unfolding read_full uint32_of
be_uint32 r = elim (read_full 4 r) [ none ↦ none | some (b, r') ↦ some (uint32_of false b, r') ]

-- the byte of the length of a connection id, and the id
unfoldable pub read_id : Bytes → Read Bytes
unfolding read_byte read_connection_id
read_id r = elim (read_byte r) [ none ↦ none | some (n, r') ↦ read_connection_id n r' ]

-- the type bits of an Initial packet
unfoldable pub is_initial : ℕ → ℕ → Bool
is_initial type_byte version = type_byte / 16 % 4 == (if version == version2 then 1 else 0)

module _ (read_varint : Bytes → Read ℕ) where
  -- the token of an Initial packet
  unfoldable pub read_token : Bytes → Read Bytes
  unfolding read_full
  read_token r = elim (read_varint r) [ none ↦ none | some (n, r') ↦ read_full n r' ]

  -- the token, if there is one, and the length
  unfoldable pub read_tail : Bool → Bytes → Read (Bytes × ℕ)
  unfolding read_token
  read_tail initial r = elim (if initial then read_token r else some ([], r)) [
    | none ↦ none
    | some (token, r') ↦ elim (read_varint r') [
      | none ↦ none
      | some (n, r'') ↦ some ((token, n), r'')
    ]
  ]

  -- the connection ids and what follows, behind the version
  unfoldable pub read_rest : ℕ → ℕ → Bytes → Read Header
  unfolding read_id read_tail is_initial
  read_rest type_byte version r = elim (read_id r) [
    | none ↦ none
    | some (dest, r') ↦ elim (read_id r') [
      | none ↦ none
      | some (src, r'') ↦ elim (read_tail (is_initial type_byte version) r'') [
        | none ↦ none
        | some ((token, n), left) ↦ some (
          record {
            version = version;
            src_connection_id = src;
            dest_connection_id = dest;
            payload_length = n;
            token = token;
          },
          left,
        )
      ]
    ]
  ]

  -- parseLongHeader
  unfoldable pub parse_long_header : Bytes → Read Header
  unfolding read_byte be_uint32 read_rest
  parse_long_header r = elim (read_byte r) [
    | none ↦ none
    | some (type_byte, r') ↦ elim (be_uint32 r') [
      | none ↦ none
      | some (version, r'') ↦
          let rest = read_rest type_byte version r'' in
          if not (version == 0) && type_byte / 64 % 2 == 0 then none else rest
    ]
  ]

  -- ParseInitialHeader: the header and the number of bytes read
  unfoldable pub parse_initial_header : Bytes → Option (Header × ℕ)
  unfolding parse_long_header
  parse_initial_header bytes = elim (parse_long_header bytes) [
    | none ↦ none
    | some (h, r) ↦ some (h, length bytes - length r)
  ]
