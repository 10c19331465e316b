-- ===== src/Utils/Sorting.antt =====
-- sort.Slice on numbers, with `<`: equal numbers cannot be told apart, so that the order is
-- determined, and it is modelled by inserting one number after the other.
use mathlib.Core.List
use mathlib.Core.List.{Perm, Permᴰ}
use mathlib.Core.Logic.{∥∥₁_elim}
use native.Mathlib.Nat.{ℕ_set}
use open_gfw_next.Base.{
  ap, suc, length, ℕ, ◌≡◌, refl, ◌∙◌, sym, List, [], ◌∷◌, leb, if◌then◌else◌, arith,
}

unfoldable pub insert : ℕ → List ℕ → List ℕ
insert v [] = v ∷ []
insert v (w ∷ ws) = let rest = insert v ws in if leb v w then v ∷ (w ∷ ws) else w ∷ rest

unfoldable pub sort : List ℕ → List ℕ
unfolding insert
sort [] = []
sort (v ∷ vs) = insert v (sort vs)

pub insert_swap : (v w : ℕ) (us : List ℕ) → insert v (insert w us) ≡ insert w (insert v us)
unfolding insert
insert_swap v w [] = ground arith
insert_swap v w (u ∷ us) = ground (arith, insert_swap v w us)

sort-Permᴰ : {vs ws : List ℕ} → Permᴰ vs ws → sort vs ≡ sort ws
unfolding sort
sort-Permᴰ Permᴰ.nil = refl
sort-Permᴰ (Permᴰ.cons e p) = let ih = sort-Permᴰ p in cc
sort-Permᴰ (Permᴰ.swap {a = a} {b = b} {l = l} e f) = rw (sym e, sym f) (insert_swap a b (sort l))
sort-Permᴰ (Permᴰ.trans p q) = sort-Permᴰ p ∙ sort-Permᴰ q

-- Sorting forgets the order.
pub sort-perm : {vs ws : List ℕ} → Perm vs ws → sort vs ≡ sort ws
sort-perm p = ∥∥₁_elim p (List.is_set ℕ_set _ _) sort-Permᴰ

length-insert : (v : ℕ) (ws : List ℕ) → length (insert v ws) ≡ suc (length ws)
unfolding insert
length-insert v [] = refl
length-insert v (w ∷ ws) = ground (arith, length-insert v ws)

pub length-sort : (vs : List ℕ) → length (sort vs) ≡ length vs
unfolding sort
length-sort [] = refl
length-sort (v ∷ vs) = length-insert v (sort vs) ∙ ap suc (length-sort vs)
