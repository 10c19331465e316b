-- ===== src/Analyzer/Fet.antt =====
-- analyzer/tcp/fet.go. The averages are exact fractions, numerator and denominator; on segments of less
-- than 2^16 bytes the comparisons agree with those of the source's 32-bit floats.
pub mod Runs
use open_gfw_next.Base.{
  ℕ, zero, suc, ◌+◌, ◌*◌, ◌/◌, ◌%◌, Bool, true, false, not, ◌&&◌, ◌||◌, Option, none, some, List,
  [], ◌∷◌, Bytes, ltb, leb, ◌==◌, if◌then◌else◌, length, take, get_or,
}
use open_gfw_next.Utils.Strings.{codes}
use open_gfw_next.Ruleset.{is_among}

-- isPrintable
unfoldable pub is_printable : ℕ → Bool
is_printable b = leb 0x20 b && leb b 0x7e

-- the loop of popCount: a byte has at most eight rounds
unfoldable pub bits : ℕ → ℕ → ℕ
bits zero b = 0
bits (suc fuel) b = let rest = bits fuel (b / 2) in if b == 0 then 0 else b % 2 + rest

-- popCount
unfoldable pub pop_count : ℕ → ℕ
unfolding bits
pop_count b = bits 8 b

unfoldable pub total_pop_count : Bytes → ℕ
unfolding pop_count
total_pop_count [] = 0
total_pop_count (b ∷ bs) = pop_count b + total_pop_count bs

-- averagePopCount
unfoldable pub average_pop_count : Bytes → ℕ × ℕ
unfolding total_pop_count
average_pop_count bs = if length bs == 0 then (0, 1) else (total_pop_count bs, length bs)

unfoldable pub all_printable : Bytes → Bool
unfolding is_printable
all_printable [] = true
all_printable (b ∷ bs) = if not (is_printable b) then false else all_printable bs

-- isFirstSixPrintable
unfoldable pub is_first_six_printable : Bytes → Bool
unfolding all_printable
is_first_six_printable bs = if ltb (length bs) 6 then false else all_printable (take 6 bs)

unfoldable pub count_printable : Bytes → ℕ
unfolding is_printable
count_printable [] = 0
count_printable (b ∷ bs) =
    let rest = count_printable bs in if is_printable b then suc rest else rest

-- printablePercentage
unfoldable pub printable_percentage : Bytes → ℕ × ℕ
unfolding count_printable
printable_percentage bs = if length bs == 0 then (0, 1) else (count_printable bs, length bs)

-- the loop of contiguousPrintable, with `maxCount` and `current`
unfoldable pub longest_so_far : ℕ → ℕ → Bytes → ℕ
unfolding is_printable
longest_so_far max_count current [] = if ltb max_count current then current else max_count
longest_so_far max_count current (b ∷ bs) =
    if is_printable b
    then longest_so_far max_count (current + 1) bs
    else longest_so_far (if ltb max_count current then current else max_count) 0 bs

-- contiguousPrintable
unfoldable pub contiguous_printable : Bytes → ℕ
unfolding longest_so_far
contiguous_printable bs = longest_so_far 0 0 bs

-- the three letters of a request that are looked for
abbrev pub methods : List Bytes
methods =
    codes "GET"
    ∷ (codes "HEA"
        ∷ (codes "POS"
            ∷ (codes "PUT"
                ∷ (codes "DEL"
                    ∷ (codes "CON" ∷ (codes "OPT" ∷ (codes "TRA" ∷ (codes "PAT" ∷ []))))))))

-- isTLSorHTTP
unfoldable pub is_tls_or_http : Bytes → Bool
unfolding is_among
is_tls_or_http bs =
    let a = get_or bs 0 0 in
    let b = get_or bs 1 0 in
    let c = get_or bs 2 0 in
    if ltb (length bs) 3
    then false
    else if leb 0x16 a && leb a 0x17 && b == 0x03 && leb c 0x09
    then true
    else is_among (take 3 bs) methods

-- the map of the update
pub record PropMap : Type 0 where
  pub ex1 : ℕ × ℕ
  pub ex2 : Bool
  pub ex3 : ℕ × ℕ
  pub ex4 : ℕ
  pub ex5 : Bool
  pub yes : Bool

-- `exempt`
unfoldable pub is_exempt : ℕ × ℕ → Bool → ℕ × ℕ → ℕ → Bool → Bool
is_exempt (t, n) ex2 (c, m) ex4 ex5 =
    (leb (5 * t) (17 * n) || leb (23 * n) (5 * t)) || ex2 || ltb m (2 * c) || ltb 20 ex4 || ex5

-- Feed: the update, and `done`; the stream has no state
unfoldable pub feed : ℕ → Bytes → Option PropMap × Bool
unfolding average_pop_count is_first_six_printable printable_percentage contiguous_printable
    is_tls_or_http is_exempt
feed skip bs =
    let ex1 = average_pop_count bs in
    let ex2 = is_first_six_printable bs in
    let ex3 = printable_percentage bs in
    let ex4 = contiguous_printable bs in
    let ex5 = is_tls_or_http bs in
    if not (skip == 0) then (none, true) else if length bs == 0 then (none, false) else (
      some (record {
        ex1 = ex1;
        ex2 = ex2;
        ex3 = ex3;
        ex4 = ex4;
        ex5 = ex5;
        yes = not (is_exempt ex1 ex2 ex3 ex4 ex5);
      }),
      true,
    )
