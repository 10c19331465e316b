-- ===== src/Analyzer/Quic/PacketNumbers.antt =====
-- analyzer/udp/internal/quic/packet_protector.go: packet numbers, and masks that are taken off again.
use open_gfw_next.Base.{sym, ℕ, zero, suc, ◌+◌, ◌*◌, ◌/◌, ◌%◌, ◌^◌, ◌≤◌, ◌<◌, ◌≡◌, ap, ◌∙◌, arith}
use open_gfw_next.Analyzer.Quic.Protect.{decode_packet_number, xor_bits, xor_byte}

-- `decodePacketNumber` finds the packet number of which it gets the lowest bytes, one to four of them,
-- if that number is less than half of their range away from the number after the largest one.
pub decode_packet_number_window :
    (largest pn n : ℕ)
    → 1 ≤ n
    → n ≤ 4
    → pn < 4611686018427387904
    → largest + 1 < pn + 256 ^ n / 2
    → pn ≤ largest + 1 + 256 ^ n / 2
    → decode_packet_number largest (pn % 256 ^ n) n ≡ pn
unfolding decode_packet_number
decode_packet_number_window largest pn zero a b c d e = elim a [ ]
decode_packet_number_window largest pn (suc zero) a b c d e = ground arith
decode_packet_number_window largest pn (suc (suc zero)) a b c d e = ground arith
decode_packet_number_window largest pn (suc (suc (suc zero))) a b c d e = ground arith
decode_packet_number_window largest pn (suc (suc (suc (suc zero)))) a b c d e = ground arith
decode_packet_number_window largest pn (suc (suc (suc (suc (suc n))))) a b c d e =
    absurd (omega arith)

-- the first bit of a number, and the others
halves : (r q : ℕ) → r < 2 → (r + 2 * q) / 2 ≡ q
halves r q h = omega arith

xor_bits_involution : (n a m : ℕ) → a < 2 ^ n → xor_bits n (xor_bits n a m) m ≡ a
unfolding xor_bits
xor_bits_involution zero a m h = omega arith
xor_bits_involution (suc n) a m h =
    let r = (a % 2 + m % 2) % 2 in
    let q = xor_bits n (a / 2) (m / 2) in
    let half = halves r q (omega arith) in
    let ih = xor_bits_involution n (a / 2) (m / 2) (omega arith) in rw half (rw ih (omega arith))

xor_bits_zero : (n a : ℕ) → a < 2 ^ n → xor_bits n a 0 ≡ a
unfolding xor_bits
xor_bits_zero zero a h = omega arith
xor_bits_zero (suc n) a h = rw (xor_bits_zero n (a / 2) (omega arith)) (omega arith)

pub xor_byte_involution : (a m : ℕ) → a < 256 → xor_byte (xor_byte a m) m ≡ a
unfolding xor_byte
xor_byte_involution a m h = xor_bits_involution 8 a m h

xor_bits_half : (n a m : ℕ) → xor_bits (suc n) a m / 2 ≡ xor_bits n (a / 2) (m / 2)
unfolding xor_bits
xor_bits_half n a m = halves ((a % 2 + m % 2) % 2) (xor_bits n (a / 2) (m / 2)) (omega arith)

sixteenth : (a : ℕ) → a / 16 ≡ a / 2 / 2 / 2 / 2
sixteenth a = omega arith

-- a mask of four bits leaves the four high bits
pub xor_byte_high : (a m : ℕ) → a < 256 → m < 16 → xor_byte a m / 16 ≡ a / 16
unfolding xor_byte
xor_byte_high a m h k =
    let high = a / 2 / 2 / 2 / 2 in
    let none_left : m / 2 / 2 / 2 / 2 ≡ 0 = omega arith in
    sixteenth (xor_bits 8 a m)
    ∙ ap (λ x. x / 2 / 2 / 2) (xor_bits_half 7 a m)
    ∙ ap (λ x. x / 2 / 2) (xor_bits_half 6 (a / 2) (m / 2))
    ∙ ap (λ x. x / 2) (xor_bits_half 5 (a / 2 / 2) (m / 2 / 2))
    ∙ xor_bits_half 4 (a / 2 / 2 / 2) (m / 2 / 2 / 2)
    ∙ ap (xor_bits 4 high) none_left
    ∙ xor_bits_zero 4 high (omega arith)
    ∙ sym (sixteenth a)
