-- ===== src/Analyzer/Quic/Unprotect.antt =====
-- analyzer/udp/internal/quic/packet_protector.go: what UnProtect makes of the packet of a sender that
-- follows RFC 9001.
use open_gfw_next.Base.{
  ℕ, zero, suc, ◌+◌, ◌-◌, ◌/◌, ◌%◌, ◌^◌, ◌≤◌, ◌<◌, ◌≡◌, refl, sym, ap, ◌∙◌, [], ◌∷◌, ◌++◌, Bytes,
  some, arith, length, take, drop, take-append_all, drop-append_all, drop-append_past,
  length-append, append_assoc, take-append_le, drop-append_le, length-drop,
}
use open_gfw_next.Utils.ByteBuffer.{at}
use open_gfw_next.Analyzer.Quic.{Attempt, done}
use open_gfw_next.Analyzer.Quic.Protect.{
  ProtectionKey, decode_packet_number, big_endian, number_of, xor_byte, xor_bytes, unmask_first,
  decrypt, opened, open_payload, open_packet, un_protect, is_long_header, nonce,
}
use open_gfw_next.Analyzer.Quic.PacketNumbers.{
  decode_packet_number_window, xor_byte_involution, xor_byte_high,
}

unfoldable pub AllBytes : Bytes → Type 0
AllBytes [] = Unit
AllBytes (x ∷ xs) = (x < 256) × AllBytes xs

xor_bytes_involution : (xs ys : Bytes) → AllBytes xs → xor_bytes (xor_bytes xs ys) ys ≡ xs
unfolding xor_bytes AllBytes
xor_bytes_involution [] ys h = refl
xor_bytes_involution (x ∷ xs) [] h = refl
xor_bytes_involution (x ∷ xs) (y ∷ ys) (h, k) =
    rw (xor_byte_involution x y h) (ap (◌∷◌ x) (xor_bytes_involution xs ys k))

pub length-xor_bytes : (xs ys : Bytes) → length (xor_bytes xs ys) ≡ length xs
unfolding xor_bytes
length-xor_bytes [] ys = refl
length-xor_bytes (x ∷ xs) [] = refl
length-xor_bytes (x ∷ xs) (y ∷ ys) = ap suc (length-xor_bytes xs ys)

pub length-big_endian : (n v : ℕ) → length (big_endian n v) ≡ n
unfolding big_endian
length-big_endian zero v = refl
length-big_endian (suc n) v = ap suc (length-big_endian n v)

big_endian-AllBytes : (n v : ℕ) → AllBytes (big_endian n v)
unfolding big_endian AllBytes
big_endian-AllBytes zero v = tt
big_endian-AllBytes (suc n) v = (omega arith, big_endian-AllBytes n v)

number_of-big_endian : (n v : ℕ) → 1 ≤ n → n ≤ 4 → number_of 0 (big_endian n v) ≡ v % 256 ^ n
unfolding number_of big_endian
number_of-big_endian zero v a b = elim a [ ]
number_of-big_endian (suc zero) v a b = omega arith
number_of-big_endian (suc (suc zero)) v a b = omega arith
number_of-big_endian (suc (suc (suc zero))) v a b = omega arith
number_of-big_endian (suc (suc (suc (suc zero)))) v a b = omega arith
number_of-big_endian (suc (suc (suc (suc (suc n))))) v a b = absurd (omega arith)

-- the first byte of a long header under a mask
unmask_first-xor_byte :
    (mask : Bytes) (first : ℕ)
    → first < 256
    → 128 ≤ first
    → unmask_first mask (xor_byte first (at mask 0 % 16)) ≡ first
unfolding unmask_first is_long_header
unmask_first-xor_byte mask first h k =
    let m = at mask 0 % 16 in
    let high = xor_byte_high first m h (omega arith) in
    let long : 128 ≤ xor_byte first m = omega arith in
    ground (arith, long, xor_byte_involution first m h)

-- the packet of a sender: the header up to the packet number is `first ∷ middle`, the packet number
-- takes `n` bytes, and `sealed` is the encrypted payload; the mask comes from a sample of it
unfoldable pub mask_of : ProtectionKey → ℕ → Bytes → Bytes
mask_of key n sealed = key.header_protection (take 16 (drop (4 - n) sealed))

unfoldable pub protect : ProtectionKey → ℕ → Bytes → ℕ → ℕ → Bytes → Bytes
unfolding mask_of
protect key first middle n pn sealed =
    let mask = mask_of key n sealed in
    xor_byte first (at mask 0 % 16)
    ∷ (middle ++ (xor_bytes (big_endian n pn) (drop 1 mask) ++ sealed))

-- the sample lies behind four bytes, of which `n` are the packet number's
sample-protect :
    (middle pnb sealed beyond : Bytes) (x n : ℕ)
    → length pnb ≡ n
    → n ≤ 4
    → 20 ≤ n + length sealed
    → take 16 (drop (suc (length middle) + 4) ((x ∷ (middle ++ (pnb ++ sealed))) ++ beyond))
      ≡ take 16 (drop (4 - n) sealed)
sample-protect middle pnb sealed beyond x n e h k =
    let rest = (pnb ++ sealed) ++ beyond in
    let shape : suc (length middle) + 4 ≡ suc (length middle + 4) = omega arith in
    let four : length middle + 4 ≡ length middle + (length pnb + (4 - n)) = omega arith in
    let behind =
      drop-append_past middle rest (length pnb + (4 - n))
      ∙ ap (drop (length pnb + (4 - n))) (append_assoc pnb sealed beyond)
      ∙ drop-append_past pnb (sealed ++ beyond) (4 - n)
      ∙ drop-append_le (4 - n) sealed beyond (omega arith) in
    ap (λ i. take 16 (drop i ((x ∷ (middle ++ (pnb ++ sealed))) ++ beyond))) shape
    ∙ ap (λ i. take 16 (drop i ((middle ++ (pnb ++ sealed)) ++ beyond))) four
    ∙ ap (λ b. take 16 (drop (length middle + (length pnb + (4 - n))) b))
        (append_assoc middle (pnb ++ sealed) beyond)
    ∙ ap (take 16) behind
    ∙ take-append_le 16 (drop (4 - n) sealed) beyond (omega (arith, length-drop (4 - n) sealed))

-- where the key opens the payload of a packet number
decrypt-opens :
    (key : ProtectionKey) (pn_max first n pn : ℕ) (middle sealed plain : Bytes)
    → first % 4 + 1 ≡ n
    → n ≤ 4
    → decode_packet_number pn_max (pn % 256 ^ n) n ≡ pn
    → key.aead_open (nonce key.iv pn) sealed (first ∷ (middle ++ big_endian n pn)) ≡ some plain
    → decrypt key pn_max first middle (big_endian n pn) sealed ≡ done plain
unfolding decrypt
decrypt-opens key pn_max first n pn middle sealed plain e h d opens =
    let hdr = first ∷ (middle ++ big_endian n pn) in
    let open_at : ℕ → Attempt Bytes = λ p. opened (key.aead_open (nonce key.iv p) sealed hdr) in
    let read = number_of-big_endian n pn (omega arith) h in
    ap (λ k. open_at (decode_packet_number pn_max (number_of 0 (big_endian n pn)) k)) e
    ∙ ap (λ v. open_at (decode_packet_number pn_max v n)) read
    ∙ ap open_at d
    ∙ ap opened opens

open_payload_lem :
    (key : ProtectionKey) (mask packet middle masked pn_bytes payload : Bytes)
    (pn_max pn_offset first n : ℕ)
    → pn_offset + n ≤ length packet
    → take (pn_offset - 1) (drop 1 packet) ≡ middle
    → take n (drop pn_offset packet) ≡ masked
    → xor_bytes masked (drop 1 mask) ≡ pn_bytes
    → drop n (drop pn_offset packet) ≡ payload
    → open_payload key mask packet pn_offset pn_max first n
      ≡ decrypt key pn_max first middle pn_bytes payload
unfolding open_payload
open_payload_lem key mask packet middle masked pn_bytes payload pn_max pn_offset first n h a b c d =
    ground (arith, a, b, c, d)

open_payload-protect :
    (key : ProtectionKey) (mask : Bytes) (pn_max first n pn x : ℕ) (middle sealed : Bytes)
    → open_payload key mask
        (x ∷ (middle ++ (xor_bytes (big_endian n pn) (drop 1 mask) ++ sealed)))
        (suc (length middle))
        pn_max
        first
        n
      ≡ decrypt key pn_max first middle (big_endian n pn) sealed
open_payload-protect key mask pn_max first n pn x middle sealed =
    let masked = xor_bytes (big_endian n pn) (drop 1 mask) in
    let wide : length masked ≡ n =
      length-xor_bytes (big_endian n pn) (drop 1 mask) ∙ length-big_endian n pn in
    let behind = drop-append_all middle (masked ++ sealed) in
    let number : take n (masked ++ sealed) ≡ masked =
      ap (λ k. take k (masked ++ sealed)) (sym wide) ∙ take-append_all masked sealed in
    let payload : drop n (masked ++ sealed) ≡ sealed =
      ap (λ k. drop k (masked ++ sealed)) (sym wide) ∙ drop-append_all masked sealed in
    let plain = xor_bytes_involution (big_endian n pn) (drop 1 mask) (big_endian-AllBytes n pn) in
    let pred : suc (length middle) - 1 ≡ length middle = omega arith in
    open_payload_lem key mask (x ∷ (middle ++ (masked ++ sealed))) middle masked (big_endian n pn)
      sealed pn_max (suc (length middle)) first n
      (omega (arith, length-append middle (masked ++ sealed), length-append masked sealed, wide))
      (ap (λ k. take k (middle ++ (masked ++ sealed))) pred
        ∙ take-append_all middle (masked ++ sealed))
      (ap (take n) behind ∙ number) plain (ap (drop n) behind ∙ payload)

un_protect_lem :
    (key : ProtectionKey) (packet beyond mask : Bytes) (pn_offset pn_max : ℕ)
    → pn_offset + 20 ≤ length packet
    → key.header_protection (take 16 (drop (pn_offset + 4) (packet ++ beyond))) ≡ mask
    → un_protect key packet beyond pn_offset pn_max ≡ open_packet key mask packet pn_offset pn_max
unfolding un_protect
un_protect_lem key packet beyond mask pn_offset pn_max h e =
    ground (arith, e, length-append packet beyond)

open_packet_lem :
    (key : ProtectionKey) (mask packet : Bytes) (pn_offset pn_max first n : ℕ)
    → unmask_first mask (at packet 0) ≡ first
    → first % 4 + 1 ≡ n
    → open_packet key mask packet pn_offset pn_max
      ≡ open_payload key mask packet pn_offset pn_max first n
unfolding open_packet
open_packet_lem key mask packet pn_offset pn_max first n e h =
    ap (λ f. open_payload key mask packet pn_offset pn_max f (f % 4 + 1)) e
    ∙ ap (open_payload key mask packet pn_offset pn_max first) h

-- `UnProtect` gives back the payload of a long-header packet that a sender has protected as RFC 9001
-- says, whatever lies behind the packet: its packet number takes one to four bytes, the two lowest bits
-- of the first byte count them, the sample is there, the number is in the window around the largest
-- one, and the key opens the payload.
pub un_protect-protect :
    (key : ProtectionKey) (first n pn pn_max : ℕ) (middle sealed plain beyond : Bytes)
    → first < 256
    → 128 ≤ first
    → first % 4 + 1 ≡ n
    → 20 ≤ n + length sealed
    → pn < 4611686018427387904
    → pn_max + 1 < pn + 256 ^ n / 2
    → pn ≤ pn_max + 1 + 256 ^ n / 2
    → key.aead_open (nonce key.iv pn) sealed (first ∷ (middle ++ big_endian n pn)) ≡ some plain
    → un_protect key (protect key first middle n pn sealed) beyond (suc (length middle)) pn_max
      ≡ done plain
unfolding protect mask_of
un_protect-protect key first n pn pn_max middle sealed plain beyond h k e room a b c opens =
    let mask = mask_of key n sealed in
    let pnb = xor_bytes (big_endian n pn) (drop 1 mask) in
    let x = xor_byte first (at mask 0 % 16) in
    let wide : length pnb ≡ n =
      length-xor_bytes (big_endian n pn) (drop 1 mask) ∙ length-big_endian n pn in
    let small : n ≤ 4 = omega arith in
    let sample = sample-protect middle pnb sealed beyond x n wide small room in
    let packet = protect key first middle n pn sealed in
    let enough : suc (length middle) + 20 ≤ length packet =
      omega (arith, length-append middle (pnb ++ sealed), length-append pnb sealed, wide) in
    un_protect_lem key packet beyond mask (suc (length middle)) pn_max enough
      (ap key.header_protection sample)
    ∙ open_packet_lem key mask packet (suc (length middle)) pn_max first n
        (unmask_first-xor_byte mask first h k) e
    ∙ open_payload-protect key mask pn_max first n pn x middle sealed
    ∙ decrypt-opens key pn_max first n pn middle sealed plain e small
        (decode_packet_number_window pn_max pn n (omega arith) small a b c) opens
