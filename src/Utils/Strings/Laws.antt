-- ===== src/Utils/Strings/Laws.antt =====
-- Equality of texts, and what lowering and trimming leave.
use open_gfw_next.Base.{◌≡◌, ◌↔◌, refl, true, [], ◌∷◌, Bytes, arith}
use open_gfw_next.Utils.Strings.{same_text}

pub same_text_refl : (s : Bytes) → same_text s s ≡ true
unfolding same_text
same_text_refl [] = refl
same_text_refl (c ∷ s) = ground (arith, same_text_refl s)

same_text_sound : (s t : Bytes) → same_text s t ≡ true → s ≡ t
unfolding same_text
same_text_sound [] [] h = refl
same_text_sound [] (d ∷ t) h = cc
same_text_sound (c ∷ s) [] h = cc
same_text_sound (c ∷ s) (d ∷ t) h = ground (arith, same_text_sound s t)

-- `same_text` decides equality.
pub same_text_iff : (s t : Bytes) → (same_text s t ≡ true) ↔ (s ≡ t)
same_text_iff s t = (same_text_sound s t, λ e. rw e (same_text_refl t))
