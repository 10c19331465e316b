-- ===== src/Analyzer/Quic/Protect.antt =====
-- analyzer/udp/internal/quic/packet_protector.go and quic.go. The ciphers and HKDF are parameters.
use open_gfw_next.Base.{
  ℕ, zero, suc, ◌+◌, ◌-◌, ◌*◌, ◌/◌, ◌%◌, ◌^◌, Bool, ◌&&◌, Option, none, some, [], ◌∷◌, ◌++◌, Bytes,
  ltb, leb, ◌==◌, if◌then◌else◌, length, take, drop,
}
use open_gfw_next.Utils.ByteBuffer.{at}
use open_gfw_next.Utils.Strings.{codes}
use open_gfw_next.Analyzer.Quic.{Attempt, failed, panicked, done, zeros}
use open_gfw_next.Analyzer.Quic.Header.{version1, version2}

-- the exclusive or of the lowest `n` bits
unfoldable pub xor_bits : ℕ → ℕ → ℕ → ℕ
xor_bits zero a b = 0
xor_bits (suc n) a b = (a % 2 + b % 2) % 2 + 2 * xor_bits n (a / 2) (b / 2)

-- a ^ b of bytes
unfoldable pub xor_byte : ℕ → ℕ → ℕ
unfolding xor_bits
xor_byte a b = xor_bits 8 a b

unfoldable pub xor_bytes : Bytes → Bytes → Bytes
unfolding xor_byte
xor_bytes [] ys = []
xor_bytes (x ∷ xs) [] = x ∷ xs
xor_bytes (x ∷ xs) (y ∷ ys) = xor_byte x y ∷ xor_bytes xs ys

-- isLongHeader; the high bit is set
unfoldable pub is_long_header : ℕ → Bool
is_long_header b = leb 128 b

abbrev quic_salt_old : Bytes
quic_salt_old =
    175
    ∷ (191
        ∷ (236
            ∷ (40
                ∷ (153
                    ∷ (147
                        ∷ (210
                            ∷ (76
                                ∷ (158
                                    ∷ (151
                                        ∷ (134
                                            ∷ (241
                                                ∷ (156
                                                    ∷ (97
                                                        ∷ (17
                                                            ∷ (224
                                                            ∷ (67
                                                            ∷ (144
                                                            ∷ (168 ∷ (153 ∷ [])))))))))))))))))))

abbrev quic_salt_v1 : Bytes
quic_salt_v1 =
    56
    ∷ (118
        ∷ (44
            ∷ (247
                ∷ (245
                    ∷ (89
                        ∷ (52
                            ∷ (179
                                ∷ (77
                                    ∷ (23
                                        ∷ (154
                                            ∷ (230
                                                ∷ (164
                                                    ∷ (200
                                                        ∷ (12
                                                            ∷ (173
                                                            ∷ (204
                                                            ∷ (187
                                                            ∷ (127 ∷ (10 ∷ [])))))))))))))))))))

abbrev quic_salt_v2 : Bytes
quic_salt_v2 =
    13
    ∷ (237
        ∷ (227
            ∷ (222
                ∷ (247
                    ∷ (0
                        ∷ (166
                            ∷ (219
                                ∷ (129
                                    ∷ (147
                                        ∷ (129
                                            ∷ (190
                                                ∷ (110
                                                    ∷ (38
                                                        ∷ (157
                                                            ∷ (203
                                                            ∷ (249
                                                            ∷ (189
                                                            ∷ (46 ∷ (217 ∷ [])))))))))))))))))))

-- getSalt
unfoldable pub get_salt : ℕ → Bytes
get_salt v =
    if v == version1 then quic_salt_v1 else if v == version2 then quic_salt_v2 else quic_salt_old

-- keyLabel
unfoldable pub key_label : ℕ → Bytes
key_label v = if v == version2 then codes "quicv2 key" else codes "quic key"

-- ivLabel
unfoldable pub iv_label : ℕ → Bytes
iv_label v = if v == version2 then codes "quicv2 iv" else codes "quic iv"

-- headerProtectionLabel
unfoldable pub header_protection_label : ℕ → Bytes
header_protection_label v = if v == version2 then codes "quicv2 hp" else codes "quic hp"

-- ProtectionKey; `aead_open` is the method Open of its AEAD, on a nonce, a ciphertext and further data
pub record ProtectionKey : Type 0 where
  pub aead_open : Bytes → Bytes → Bytes → Option Bytes
  pub header_protection : Bytes → Bytes
  pub iv : Bytes

-- the crypto packages that the code calls: HKDF-Extract and HKDF-Expand with SHA-256, and AES-GCM and
-- AES under a key
pub record Primitives : Type 0 where
  pub hkdf_extract : Bytes → Bytes → Bytes
  pub hkdf_expand : Bytes → Bytes → ℕ → Bytes
  pub gcm_open : Bytes → Bytes → Bytes → Bytes → Option Bytes
  pub gcm_nonce_size : ℕ
  pub aes_encrypt : Bytes → Bytes → Bytes

-- hkdfExpandLabel; labels and contexts are below 250 bytes
unfoldable pub hkdf_expand_label : Primitives → Bytes → Bytes → Bytes → ℕ → Bytes
hkdf_expand_label p secret label context n =
    let full = codes "tls13 " ++ label in
    p.hkdf_expand secret
      (n / 256 % 256 ∷ (n % 256 ∷ (length full ∷ (full ++ (length context ∷ context))))) n

-- newProtectionKey for TLS_AES_128_GCM_SHA256, which is NewInitialProtectionKey
unfoldable pub new_initial_protection_key : Primitives → Bytes → ℕ → ProtectionKey
unfolding hkdf_expand_label key_label iv_label header_protection_label
new_initial_protection_key p secret v =
    let key = hkdf_expand_label p secret (key_label v) [] 16 in
    let hp_key = hkdf_expand_label p secret (header_protection_label v) [] 16 in
    record {
      aead_open = p.gcm_open key;
      header_protection = p.aes_encrypt hp_key;
      iv = hkdf_expand_label p secret (iv_label v) [] p.gcm_nonce_size;
    }

-- the lowest `n` bytes of a number, the highest first
unfoldable pub big_endian : ℕ → ℕ → Bytes
big_endian zero v = []
big_endian (suc n) v = v / 256 ^ n % 256 ∷ big_endian n v

-- the method nonce, for an IV of 8 bytes or more
unfoldable pub nonce : Bytes → ℕ → Bytes
unfolding big_endian xor_bytes
nonce iv pn = xor_bytes (zeros (length iv - 8) ++ big_endian 8 pn) iv

-- decodePacketNumber; the packet numbers are not negative
unfoldable pub decode_packet_number : ℕ → ℕ → ℕ → ℕ
decode_packet_number largest truncated nbits =
    let expected = largest + 1 in
    let win = 256 ^ nbits in
    let hwin = win / 2 in
    let candidate = expected / win * win + truncated in
    if leb (candidate + hwin) expected && ltb (candidate + win) 4611686018427387904
    then candidate + win
    else if ltb (expected + hwin) candidate && leb win candidate
    then candidate - win
    else candidate

-- pn = (pn << 8) | int64(b), over the bytes
unfoldable pub number_of : ℕ → Bytes → ℕ
number_of pn [] = pn
number_of pn (b ∷ bs) = number_of (pn * 256 + b) bs

-- packet[0] ^= mask[0] & 0x0f, or 0x1f for a short header
unfoldable pub unmask_first : Bytes → ℕ → ℕ
unfolding xor_byte is_long_header
unmask_first mask first =
    xor_byte first (if is_long_header first then at mask 0 % 16 else at mask 0 % 32)

unfoldable pub opened : Option Bytes → Attempt Bytes
opened none = failed
opened (some plain) = done plain

-- the decryption, with the first byte, what follows it in the header, the bytes of the packet number
-- and the encrypted payload
unfoldable pub decrypt : ProtectionKey → ℕ → ℕ → Bytes → Bytes → Bytes → Attempt Bytes
unfolding number_of decode_packet_number nonce opened
decrypt key pn_max first middle pn_bytes payload =
    let pn = decode_packet_number pn_max (number_of 0 pn_bytes) (first % 4 + 1) in
    opened (key.aead_open (nonce key.iv pn) payload (first ∷ (middle ++ pn_bytes)))

-- the loop over the bytes of the packet number, which panics where they go past the packet's end, and
-- the decryption
unfoldable pub open_payload : ProtectionKey → Bytes → Bytes → ℕ → ℕ → ℕ → ℕ → Attempt Bytes
unfolding xor_bytes decrypt
open_payload key mask packet pn_offset pn_max first pn_len =
    let pn_bytes = xor_bytes (take pn_len (drop pn_offset packet)) (drop 1 mask) in
    let payload = drop pn_len (drop pn_offset packet) in
    let plain = decrypt key pn_max first (take (pn_offset - 1) (drop 1 packet)) pn_bytes payload in
    if ltb (length packet) (pn_offset + pn_len) then panicked else plain

-- behind the sample: unmask the header, and decrypt
unfoldable pub open_packet : ProtectionKey → Bytes → Bytes → ℕ → ℕ → Attempt Bytes
unfolding unmask_first open_payload
open_packet key mask packet pn_offset pn_max =
    let first = unmask_first mask (at packet 0) in
    open_payload key mask packet pn_offset pn_max first (first % 4 + 1)

-- UnProtect, of a packet that is not empty, at an offset of 1 or more. `beyond` is what lies behind the
-- packet in its array: the sample is cut by the slice's capacity, not by its length. What is written
-- back into the packet is not modelled.
unfoldable pub un_protect : ProtectionKey → Bytes → Bytes → ℕ → ℕ → Attempt Bytes
unfolding open_packet is_long_header
un_protect key packet beyond pn_offset pn_max =
    let sample = take 16 (drop (pn_offset + 4) (packet ++ beyond)) in
    let plain = open_packet key (key.header_protection sample) packet pn_offset pn_max in
    if is_long_header (at packet 0) && ltb (length packet) (pn_offset + 20)
    then failed
    else if ltb (length (packet ++ beyond)) (pn_offset + 20)
    then panicked
    else plain
