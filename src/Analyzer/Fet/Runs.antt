-- ===== src/Analyzer/Fet/Runs.antt =====
-- The measures of analyzer/tcp/fet.go against direct definitions.
use open_gfw_next.Base.{
  inr, inl, ℕ, suc, ◌+◌, ◌≤◌, ◌≡◌, [], ◌∷◌, Bytes, arith, ltb, if◌then◌else◌, Bool-cases,
}
use open_gfw_next.Analyzer.Fet.{is_printable, longest_so_far, contiguous_printable}

-- the printable bytes that a text begins with
pub leading : Bytes → ℕ
leading [] = 0
leading (b ∷ bs) = let rest = leading bs in if is_printable b then suc rest else 0

abbrev greater : ℕ → ℕ → ℕ
greater a b = if ltb a b then b else a

-- the longest run of printable bytes: the greatest number that a rest of the text begins with
pub longest : Bytes → ℕ
longest [] = 0
longest (b ∷ bs) = greater (leading (b ∷ bs)) (longest bs)

leading_le : (bs : Bytes) → leading bs ≤ longest bs
unfolding leading longest
leading_le [] = omega arith
leading_le (b ∷ bs) = ground arith

longest_so_far_lem :
    (m c : ℕ) (bs : Bytes)
    → longest_so_far m c bs ≡ greater m (greater (c + leading bs) (longest bs))
unfolding longest_so_far leading longest
longest_so_far_lem m c [] = ground arith
longest_so_far_lem m c (b ∷ bs) = elim (Bool-cases (is_printable b)) [
  | inl e ↦ ground (arith, e, longest_so_far_lem m (c + 1) bs, leading_le bs)
  | inr e ↦ ground (arith, e, longest_so_far_lem (greater m c) 0 bs, leading_le bs)
]

-- contiguousPrintable is the length of the longest run of printable bytes.
pub contiguous_printable-longest : (bs : Bytes) → contiguous_printable bs ≡ longest bs
unfolding contiguous_printable
contiguous_printable-longest bs = ground (arith, longest_so_far_lem 0 0 bs, leading_le bs)
