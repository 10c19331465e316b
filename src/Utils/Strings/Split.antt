-- ===== src/Utils/Strings/Split.antt =====
-- Go's strings.Fields, and strings.Split and strings.SplitN by one byte, SplitN into at most three parts.
use open_gfw_next.Base.{
  zero, suc, ◌-◌, ◌&&◌, ◌||◌, ltb, leb, ℕ, Option, none, some, List, [], ◌∷◌, ◌++◌, Bytes, ◌==◌,
  if◌then◌else◌,
}
use open_gfw_next.Utils.ByteBuffer.{at}
use open_gfw_next.Utils.Strings.{is_space, is_empty}

-- the number of bytes of a space beyond ASCII that begins with these bytes, 0 if none does: U+0085,
-- U+00A0, U+1680, U+2000 to U+200A, U+2028, U+2029, U+202F, U+205F and U+3000 in UTF-8
unfoldable pub wide_space : ℕ → ℕ → ℕ → ℕ
wide_space a b c =
    let general = leb 128 c && leb c 138 || (c == 168) || (c == 169) || (c == 175) in
    if a == 194 && (b == 133 || b == 160)
    then 2
    else if a == 225 && b == 154 && c == 128
    then 3
    else if a == 226 && b == 128 && general
    then 3
    else if a == 226 && b == 129 && c == 159
    then 3
    else if a == 227 && b == 128 && c == 128
    then 3
    else 0

-- the number of bytes of the space that a text begins with. No space's first byte stands within
-- another character of a text.
unfoldable pub space_width : Bytes → ℕ
unfolding wide_space
space_width [] = 0
space_width (c ∷ s) =
    if is_space c then 1 else if ltb c 128 then 0 else wide_space c (at s 0) (at s 1)

-- Fields, with the bytes of a space that are still to skip and the field that has begun
unfoldable pub fields_from : ℕ → Bytes → Bytes → List Bytes
unfolding space_width
fields_from skip field [] = if is_empty field then [] else field ∷ []
fields_from (suc skip) field (c ∷ s) = fields_from skip field s
fields_from zero field (c ∷ s) =
    let width = space_width (c ∷ s) in
    let later = fields_from (width - 1) [] s in
    let longer = fields_from 0 (field ++ (c ∷ [])) s in
    if width == 0 then longer else if is_empty field then later else field ∷ later

unfoldable pub fields : Bytes → List Bytes
unfolding fields_from
fields s = fields_from 0 [] s

-- what stands before and after the first such byte
unfoldable pub cut : ℕ → Bytes → Option (Bytes × Bytes)
cut d [] = none
cut d (c ∷ s) = elim (cut d s) [
  | none ↦ if c == d then some ([], s) else none
  | some (a, b) ↦ if c == d then some ([], s) else some (c ∷ a, b)
]

-- SplitN
unfoldable pub split_three : ℕ → Bytes → List Bytes
unfolding cut
split_three d s = elim (cut d s) [
  | none ↦ s ∷ []
  | some (a, r) ↦ elim (cut d r) [ none ↦ a ∷ (r ∷ []) | some (b, t) ↦ a ∷ (b ∷ (t ∷ [])) ]
]

abbrev put_in_first : ℕ → List Bytes → List Bytes
put_in_first c [] = (c ∷ []) ∷ []
put_in_first c (p ∷ ps) = (c ∷ p) ∷ ps

-- Split by one byte
unfoldable pub split : ℕ → Bytes → List Bytes
split d [] = [] ∷ []
split d (c ∷ s) = let parts = split d s in if c == d then [] ∷ parts else put_in_first c parts
