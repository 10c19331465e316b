-- ===== src/Analyzer/Quic/Frames.antt =====
-- analyzer/udp/internal/quic/payload.go: the assembly of CRYPTO frames.
use mathlib.Core.List.{Permᴰ}
use open_gfw_next.Base.{
  concat, ℕ, zero, suc, ◌+◌, ◌≤◌, ◌<◌, ◌≡◌, ◌≢◌, refl, sym, ap, subst, ◌∙◌, true, List, [], ◌∷◌,
  ◌++◌, Bytes, arith, length, append_assoc, append-nil, length-append, zero-add, suc-add,
}
use open_gfw_next.Analyzer.Quic.{
  CryptoFrame, insert_frame, sort_frames, are_contiguous, last_end, zeros, copy, copy_at,
  copy_frames,
}

-- no frame of the list has the frame's offset
Apart : CryptoFrame → List CryptoFrame → Type 0
Apart f [] = Unit
Apart f (g ∷ gs) = (f.offset ≢ g.offset) × Apart f gs

pub Distinct : List CryptoFrame → Type 0
Distinct [] = Unit
Distinct (f ∷ fs) = (Apart f fs) × Distinct fs

Apart-perm : {fs gs : List CryptoFrame} (f : CryptoFrame) → Permᴰ fs gs → Apart f fs → Apart f gs
unfolding Apart
Apart-perm f Permᴰ.nil a = a
Apart-perm f (Permᴰ.cons e p) (h, a) = (rw (← e) h, Apart-perm f p a)
Apart-perm f (Permᴰ.swap e g) (h, (k, a)) = (rw (← g) k, (rw (← e) h, a))
Apart-perm f (Permᴰ.trans p q) a = Apart-perm f q (Apart-perm f p a)

insert_frame_swap :
    (f g : CryptoFrame) (fs : List CryptoFrame)
    → f.offset ≢ g.offset
    → insert_frame f (insert_frame g fs) ≡ insert_frame g (insert_frame f fs)
unfolding insert_frame
insert_frame_swap f g [] h = ground arith
insert_frame_swap f g (x ∷ fs) h = ground (arith, insert_frame_swap f g fs h)

Apart-same : {f g : CryptoFrame} (fs : List CryptoFrame) → f ≡ g → Apart f fs → Apart g fs
Apart-same fs e a = subst (λ x. Apart x fs) e a

Distinct-perm : {fs gs : List CryptoFrame} → Permᴰ fs gs → Distinct fs → Distinct gs
unfolding Distinct Apart
Distinct-perm Permᴰ.nil d = d
Distinct-perm (Permᴰ.cons {a = a} {b = b} e p) (h, d) =
    (Apart-same _ e (Apart-perm a p h), Distinct-perm p d)
Distinct-perm (Permᴰ.swap {a = a} {b = b} {l = l} e g) ((h, k), (j, d)) = (
  (λ same. h (ap (λ f. f.offset) e ∙ sym same ∙ sym (ap (λ f. f.offset) g)), Apart-same _ g j),
  (Apart-same _ e k, d),
)
Distinct-perm (Permᴰ.trans p q) d = Distinct-perm q (Distinct-perm p d)

pub sort_frames-perm :
    {fs gs : List CryptoFrame} → Permᴰ fs gs → Distinct fs → sort_frames fs ≡ sort_frames gs
unfolding sort_frames Distinct Apart
sort_frames-perm Permᴰ.nil d = refl
sort_frames-perm (Permᴰ.cons e p) (h, d) = let ih = sort_frames-perm p d in cc
sort_frames-perm (Permᴰ.swap {a = a} {b = b} {l = l} e g) ((h, k), d) =
    rw (sym e, sym g) (insert_frame_swap _ _ (sort_frames l) h)
sort_frames-perm (Permᴰ.trans p q) d = sort_frames-perm p d ∙ sort_frames-perm q (Distinct-perm p d)

-- the pieces of a message as frames, the first one at the offset
unfoldable pub pieces : ℕ → List Bytes → List CryptoFrame
pieces o [] = []
pieces o (b ∷ bs) = record { offset = o; bytes = b } ∷ pieces (o + length b) bs

unfoldable pub AllNonempty : List Bytes → Type 0
AllNonempty [] = Unit
AllNonempty (b ∷ bs) = (1 ≤ length b) × AllNonempty bs

pieces-Apart : (f : CryptoFrame) (o : ℕ) (bs : List Bytes) → f.offset < o → Apart f (pieces o bs)
unfolding Apart pieces
pieces-Apart f o [] h = tt
pieces-Apart f o (b ∷ bs) h = (omega arith, pieces-Apart f (o + length b) bs (omega arith))

pub pieces-Distinct : (o : ℕ) (bs : List Bytes) → AllNonempty bs → Distinct (pieces o bs)
unfolding Distinct pieces AllNonempty
pieces-Distinct o [] h = tt
pieces-Distinct o (b ∷ bs) (h, k) =
    (pieces-Apart _ (o + length b) bs (omega arith), pieces-Distinct (o + length b) bs k)

insert_frame-pieces :
    (f : CryptoFrame) (o : ℕ) (bs : List Bytes)
    → f.offset ≤ o
    → insert_frame f (pieces o bs) ≡ f ∷ pieces o bs
unfolding insert_frame pieces
insert_frame-pieces f o [] h = refl
insert_frame-pieces f o (b ∷ bs) h = ground arith

pub sort_frames-pieces : (o : ℕ) (bs : List Bytes) → sort_frames (pieces o bs) ≡ pieces o bs
unfolding sort_frames pieces
sort_frames-pieces o [] = refl
sort_frames-pieces o (b ∷ bs) =
    ap (insert_frame _) (sort_frames-pieces (o + length b) bs)
    ∙ insert_frame-pieces _ (o + length b) bs (omega arith)

pub are_contiguous-pieces : (o : ℕ) (bs : List Bytes) → are_contiguous (pieces o bs) ≡ true
unfolding are_contiguous pieces
are_contiguous-pieces o [] = refl
are_contiguous-pieces o (b ∷ []) = refl
are_contiguous-pieces o (b ∷ (c ∷ bs)) =
    ground (arith, are_contiguous-pieces (o + length b) (c ∷ bs))

pub last_end-pieces :
    (o : ℕ) (b : Bytes) (bs : List Bytes)
    → last_end (pieces o (b ∷ bs)) ≡ o + length (concat (b ∷ bs))
unfolding last_end pieces
last_end-pieces o b [] = rw (append-nil b) refl
last_end-pieces o b (c ∷ bs) =
    omega (arith, last_end-pieces (o + length b) c bs, length-append b (c ++ concat bs))

pub zeros-add : (m n : ℕ) → zeros (m + n) ≡ zeros m ++ zeros n
zeros-add zero n = rw (zero-add n) refl
zeros-add (suc m) n = rw (suc-add m n) (ap (◌∷◌ 0) (zeros-add m n))

copy-all : (b rest : Bytes) → copy (zeros (length b) ++ rest) b ≡ b ++ rest
unfolding copy
copy-all [] [] = refl
copy-all [] (x ∷ rest) = refl
copy-all (x ∷ b) rest = ap (◌∷◌ x) (copy-all b rest)

copy_at-all :
    (w b rest : Bytes) → copy_at (length w) b (w ++ (zeros (length b) ++ rest)) ≡ w ++ (b ++ rest)
unfolding copy_at
copy_at-all [] b rest = copy-all b rest
copy_at-all (x ∷ w) b rest = ap (◌∷◌ x) (copy_at-all w b rest)

pub copy_frames-pieces :
    (bs : List Bytes) (w : Bytes)
    → copy_frames (pieces (length w) bs) (w ++ zeros (length (concat bs))) ≡ w ++ concat bs
unfolding copy_frames pieces
copy_frames-pieces [] w = refl
copy_frames-pieces (b ∷ bs) w =
    let n = length (concat bs) in
    let ih = copy_frames-pieces bs (w ++ b) in
    let filled =
      ap (copy_at (length w) b)
        (ap (λ z. w ++ z) (ap zeros (length-append b (concat bs)) ∙ zeros-add (length b) n))
      ∙ copy_at-all w b (zeros n)
      ∙ sym (append_assoc w b (zeros n)) in
    ap (copy_frames (pieces (length w + length b) bs)) filled
    ∙ ap (λ o. copy_frames (pieces o bs) ((w ++ b) ++ zeros n)) (sym (length-append w b))
    ∙ ih
    ∙ append_assoc w b (concat bs)
