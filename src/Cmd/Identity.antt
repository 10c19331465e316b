-- ===== src/Cmd/Identity.antt =====
-- cmd/identity.go: how texts are normalized. net.ParseMAC with the String of its result is the
-- parameter `parse_mac`, `none` for an error. A set of texts is the list of its members.
use open_gfw_next.Base.{
  ℕ, Bool, true, ◌&&◌, ◌||◌, Option, none, some, List, [], ◌∷◌, Bytes, leb, ◌==◌, if◌then◌else◌,
  length, take, drop,
}
use open_gfw_next.Utils.Strings.{codes, is_empty, to_lower, trim_space}
use open_gfw_next.Utils.Strings.Format.{join}

-- makeStringSet
unfoldable pub make_string_set : List Bytes → List Bytes
unfolding trim_space
make_string_set [] = []
make_string_set (value ∷ values) =
    let rest = make_string_set values in
    let v = trim_space value in if is_empty v then rest else v ∷ rest

-- the replacer that takes out `:`, `-` and `.`
unfoldable pub compact : Bytes → Bytes
compact [] = []
compact (c ∷ s) = let rest = compact s in if c == 58 || c == 45 || c == 46 then rest else c ∷ rest

-- isHexString
unfoldable pub is_hex_string : Bytes → Bool
is_hex_string [] = true
is_hex_string (c ∷ s) = ((leb 48 c && leb c 57) || (leb 97 c && leb c 102)) && is_hex_string s

-- s[i : i+2]
abbrev pair_at : ℕ → Bytes → Bytes
pair_at i s = take 2 (drop i s)

-- normalizeMAC
unfoldable pub normalize_mac : (Bytes → Option Bytes) → Bytes → Bytes
unfolding to_lower trim_space compact is_hex_string join
normalize_mac parse_mac s =
    let value = to_lower (trim_space s) in
    let c = compact value in
    let pairs =
      pair_at 0 c
      ∷ (pair_at 2 c ∷ (pair_at 4 c ∷ (pair_at 6 c ∷ (pair_at 8 c ∷ (pair_at 10 c ∷ []))))) in
    if is_empty value then [] else elim (parse_mac value) [
      | some mac ↦ mac
      | none ↦ if length c == 12 && is_hex_string c then join (codes ":") pairs else value
    ]
