-- ===== src/Tests/Fet.antt =====
-- A text with two runs of printable bytes.
use open_gfw_next.Base.{◌≡◌, refl, Bool, true, false, Option, none, some, [], ◌∷◌, ◌++◌, Bytes}
use open_gfw_next.Utils.Strings.{codes}
use open_gfw_next.Analyzer.Fet.{PropMap, contiguous_printable, feed}
use open_gfw_next.Analyzer.Fet.Runs.{longest, contiguous_printable-longest}

abbrev mixed : Bytes
mixed = codes "ab" ++ (1 ∷ codes "cde")

contiguous_printable-longest_example : contiguous_printable mixed ≡ longest mixed
contiguous_printable-longest_example = contiguous_printable-longest mixed

abbrev says_yes : Option PropMap × Bool → Option Bool
says_yes (none, done) = none
says_yes (some m, done) = some m.yes

-- eight bytes with four bits each are taken for encrypted, a request is not
encrypted : says_yes (feed 0 (15 ∷ (143 ∷ (240 ∷ (135 ∷ (170 ∷ (204 ∷ (153 ∷ [])))))))) ≡ some true
unfolding feed
encrypted = refl

request : says_yes (feed 0 (codes "GET / HTTP/1.1")) ≡ some false
unfolding feed
request = refl
