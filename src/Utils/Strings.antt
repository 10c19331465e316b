-- ===== src/Utils/Strings.antt =====
-- The functions of Go's package strings that the modelled code calls, on ASCII texts: a text is the
-- list of its bytes. A letter beyond ASCII is left as it is here, and so is a space beyond ASCII but
-- by Fields, which knows the spaces of Unicode.
pub mod Laws
pub mod Format
pub mod Split
pub mod Words
use Prim.Native.Char.{code}
use open_gfw_next.Base.{
  ℕ, ◌+◌, ◌-◌, Bool, true, false, ◌&&◌, ◌||◌, String, [], ◌∷◌, Bytes, map, leb, ◌==◌, if◌then◌else◌,
  length, drop,
}
use open_gfw_next.Utils.ByteBuffer.{is_prefix}

-- the bytes of a literal
abbrev pub codes : String → Bytes
codes String.[] = []
codes (String.◌∷◌ c s) = code c ∷ codes s

-- ==
unfoldable pub same_text : Bytes → Bytes → Bool
same_text [] [] = true
same_text [] (t ∷ ts) = false
same_text (s ∷ ss) [] = false
same_text (s ∷ ss) (t ∷ ts) = if s == t then same_text ss ts else false

abbrev pub is_empty : Bytes → Bool
is_empty [] = true
is_empty (_ ∷ _) = false

-- ToLower
abbrev pub lower : ℕ → ℕ
lower c = if leb 65 c && leb c 90 then c + 32 else c

unfoldable pub to_lower : Bytes → Bytes
to_lower s = map lower s

-- space, and tab to carriage return
abbrev pub is_space : ℕ → Bool
is_space c = c == 32 || (leb 9 c && leb c 13)

-- TrimLeftFunc, for the bytes with `p`
unfoldable pub trim_left : (ℕ → Bool) → Bytes → Bytes
trim_left p [] = []
trim_left p (c ∷ s) = let rest = trim_left p s in if p c then rest else c ∷ s

abbrev put_front : (ℕ → Bool) → ℕ → Bytes → Bytes
put_front p c [] = if p c then [] else c ∷ []
put_front p c (d ∷ s) = c ∷ (d ∷ s)

-- TrimRightFunc
unfoldable pub trim_right : (ℕ → Bool) → Bytes → Bytes
trim_right p [] = []
trim_right p (c ∷ s) = put_front p c (trim_right p s)

-- TrimSpace, and Trim by one byte
unfoldable pub trim_space : Bytes → Bytes
unfolding trim_left trim_right
trim_space s = trim_right is_space (trim_left is_space s)

unfoldable pub trim_byte : ℕ → Bytes → Bytes
unfolding trim_left trim_right
trim_byte d s = trim_right (λ c. c == d) (trim_left (λ c. c == d) s)

-- HasPrefix and HasSuffix
unfoldable pub has_prefix : Bytes → Bytes → Bool
has_prefix s p = is_prefix p s

unfoldable pub has_suffix : Bytes → Bytes → Bool
unfolding same_text
has_suffix s p = leb (length p) (length s) && same_text (drop (length s - length p) s) p

-- Contains
unfoldable pub contains : Bytes → Bytes → Bool
contains [] sub = is_prefix sub []
contains (c ∷ s) sub = is_prefix sub (c ∷ s) || contains s sub
