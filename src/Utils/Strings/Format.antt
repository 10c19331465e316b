-- ===== src/Utils/Strings/Format.antt =====
-- Go's strconv.Itoa, the verbs %02d and %04x of fmt, hex.EncodeToString and strings.Join.
use open_gfw_next.Base.{ℕ, zero, suc, ◌+◌, ◌/◌, ◌%◌, List, [], ◌∷◌, ◌++◌, Bytes, ltb, if◌then◌else◌}

-- the decimal digits; a number has at most as many as the fuel if that is the number itself
unfoldable pub decimal_digits : ℕ → ℕ → Bytes
decimal_digits zero n = (48 + n) ∷ []
decimal_digits (suc fuel) n =
    let rest = decimal_digits fuel (n / 10) in
    if ltb n 10 then (48 + n) ∷ [] else rest ++ ((48 + n % 10) ∷ [])

-- Itoa of a number that is not negative
unfoldable pub itoa : ℕ → Bytes
unfolding decimal_digits
itoa n = decimal_digits n n

-- %02d of a number up to 99
unfoldable pub two_digits : ℕ → Bytes
two_digits n = (48 + n / 10) ∷ ((48 + n % 10) ∷ [])

-- a hexadecimal digit, in lower case
abbrev hex_digit : ℕ → ℕ
hex_digit d = if ltb d 10 then 48 + d else 87 + d

-- %04x of a 16-bit number
unfoldable pub hex4 : ℕ → Bytes
hex4 v =
    hex_digit (v / 4096)
    ∷ (hex_digit (v / 256 % 16) ∷ (hex_digit (v / 16 % 16) ∷ (hex_digit (v % 16) ∷ [])))

-- EncodeToString
unfoldable pub encode_to_string : Bytes → Bytes
encode_to_string [] = []
encode_to_string (b ∷ bs) = hex_digit (b / 16) ∷ (hex_digit (b % 16) ∷ encode_to_string bs)

-- Join
unfoldable pub join : Bytes → List Bytes → Bytes
join sep [] = []
join sep (s ∷ []) = s
join sep (s ∷ (t ∷ ss)) = s ++ (sep ++ join sep (t ∷ ss))
