-- ===== src/Utils/Strings/Words.antt =====
-- Words, which hold no space, and what Fields and SplitN find in texts that are made of them.
use open_gfw_next.Base.{
  Bool, true, not, ◌&&◌, ltb, not, Bool, true, ℕ, ◌≡◌, refl, sym, ap, ◌∙◌, false, some, [], ◌∷◌,
  ◌++◌, append-nil, append_assoc, Bytes, arith, ◌==◌,
}
use open_gfw_next.Utils.Strings.{is_space}
use open_gfw_next.Utils.Strings.Split.{space_width, fields_from, cut}

-- ASCII but no space
abbrev pub is_plain : ℕ → Bool
is_plain c = not (is_space c) && ltb c 128

-- ASCII without a space, and so without an end of a line; and no byte `d`
abbrev pub IsWord : Bytes → Type 0
IsWord [] = Unit {0}
IsWord (c ∷ s) = (is_plain c ≡ true) × IsWord s

abbrev pub Without : ℕ → Bytes → Type 0
Without d [] = Unit {0}
Without d (c ∷ s) = ((c == d) ≡ false) × Without d s

pub IsWord-append : (s t : Bytes) → IsWord s → IsWord t → IsWord (s ++ t)
IsWord-append [] t h k = k
IsWord-append (c ∷ s) t h k = (h.0, IsWord-append s t h.1 k)

no_space : (c : ℕ) (s : Bytes) → is_plain c ≡ true → space_width (c ∷ s) ≡ 0
unfolding space_width
no_space c s h = ground (arith, h)

pub fields_word :
    (field s : Bytes) (c : ℕ) (t : Bytes)
    → IsWord (c ∷ s)
    → fields_from 0 field ((c ∷ s) ++ t) ≡ fields_from 0 (field ++ (c ∷ s)) t
unfolding fields_from
fields_word field [] c t h = rw (no_space c t h.0, fields_from) refl
fields_word field (d ∷ s) c t h =
    let step : fields_from 0 field (c ∷ (d ∷ (s ++ t)))
        ≡ fields_from 0 (field ++ (c ∷ [])) (d ∷ (s ++ t)) =
      rw (no_space c (d ∷ (s ++ t)) h.0, fields_from) refl in
    step
    ∙ (fields_word (field ++ (c ∷ [])) s d t h.1
        ∙ ap (λ x. fields_from 0 x t) (append_assoc field (c ∷ []) (d ∷ s)))

pub cut_lem : (d : ℕ) (s t : Bytes) → Without d s → cut d (s ++ (d ∷ t)) ≡ some (s, t)
unfolding cut
cut_lem d [] t h = ground arith
cut_lem d (c ∷ s) t h = ground (arith, h.0, cut_lem d s t h.1)

pub IsWord-Without : (s : Bytes) → IsWord s → Without 13 s
IsWord-Without [] h = tt
IsWord-Without (c ∷ s) h = (ground (arith, h.0), IsWord-Without s h.1)

pub Without-append : (d : ℕ) (s t : Bytes) → Without d s → Without d t → Without d (s ++ t)
Without-append d [] t h k = k
Without-append d (c ∷ s) t h k = (h.0, Without-append d s t h.1 k)

pub one_field : (s : Bytes) (c : ℕ) → IsWord (c ∷ s) → fields_from 0 [] (c ∷ s) ≡ (c ∷ s) ∷ []
unfolding fields_from
one_field s c h = ap (λ x. fields_from 0 [] x) (sym (append-nil (c ∷ s))) ∙ fields_word [] s c [] h
