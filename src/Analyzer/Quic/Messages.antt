-- ===== src/Analyzer/Quic/Messages.antt =====
-- analyzer/udp/internal/quic/payload.go: what assembleCryptoFrames makes of frames in any order.
use mathlib.Core.List
use mathlib.Core.List.{Perm, Permᴰ}
use mathlib.Core.Logic.{∥∥₁_elim}
use open_gfw_next.Base.{
  concat, ℕ, zero, suc, ◌+◌, ◌≤◌, ◌≡◌, refl, sym, ap, ◌∙◌, ◌⊎◌, inl, inr, true, false, List, [],
  ◌∷◌, ◌++◌, Bytes, arith, ltb, leb, if◌then◌else◌, length, append-nil, Bool-cases,
}
use open_gfw_next.Analyzer.Quic.{
  CryptoFrame, failed, panicked, done, insert_frame, sort_frames, are_contiguous, zeros,
  copy_frames, assemble_sorted, assemble_crypto_frames,
}
use open_gfw_next.Analyzer.Quic.Frames.{
  pieces, AllNonempty, sort_frames-perm, pieces-Distinct, sort_frames-pieces, are_contiguous-pieces,
  last_end-pieces, copy_frames-pieces, zeros-add,
}

CryptoFrame_set : IsSet CryptoFrame
CryptoFrame_set = hlevel

pub contents : List CryptoFrame → List Bytes
contents [] = []
contents (f ∷ fs) = f.bytes ∷ contents fs

-- a contiguous list is the pieces of what it holds
contiguous-pieces :
    (f : CryptoFrame) (fs : List CryptoFrame)
    → are_contiguous (f ∷ fs) ≡ true
    → f ∷ fs ≡ pieces f.offset (contents (f ∷ fs))
unfolding are_contiguous pieces contents
contiguous-pieces f [] h = refl
contiguous-pieces f (g ∷ fs) h =
    let ih = contiguous-pieces g fs (ground arith) in
    let next : g.offset ≡ f.offset + length f.bytes = ground arith in
    ap (◌∷◌ f) (ih ∙ ap (λ o. pieces o (contents (g ∷ fs))) next)

contents-pieces : (o : ℕ) (bs : List Bytes) → contents (pieces o bs) ≡ bs
unfolding contents pieces
contents-pieces o [] = refl
contents-pieces o (b ∷ bs) = ap (◌∷◌ b) (contents-pieces (o + length b) bs)

insert_frame-cons :
    (f : CryptoFrame) (fs : List CryptoFrame)
    → (h : CryptoFrame) × (hs : List CryptoFrame) × (insert_frame f fs ≡ h ∷ hs)
unfolding insert_frame
insert_frame-cons f [] = (f, [], refl)
insert_frame-cons f (g ∷ fs) = elim (Bool-cases (leb f.offset g.offset)) [
  | inl e ↦ (f, g ∷ fs, ground arith)
  | inr e ↦ (g, insert_frame f fs, ground arith)
]

length-zeros : (n : ℕ) → length (zeros n) ≡ n
length-zeros zero = refl
length-zeros (suc n) = ap suc (length-zeros n)

assemble_sorted-pieces :
    (max_length o : ℕ) (b : Bytes) (bs : List Bytes)
    → assemble_sorted max_length (pieces o (b ∷ bs)) ≡ (
        if ltb max_length (o + length (concat (b ∷ bs)))
        then panicked
        else done (zeros o ++ concat (b ∷ bs)))
unfolding assemble_sorted
assemble_sorted-pieces max_length o b bs =
    let n = length (concat (b ∷ bs)) in
    let filled =
      ap (λ k. copy_frames (pieces k (b ∷ bs)) (zeros o ++ zeros n)) (sym (length-zeros o))
      ∙ copy_frames-pieces (b ∷ bs) (zeros o) in
    let whole = ap (copy_frames (pieces o (b ∷ bs))) (zeros-add o n) ∙ filled in
    ground (arith, are_contiguous-pieces o (b ∷ bs), last_end-pieces o b bs, whole)

assembled :
    (max_length : ℕ) (h : CryptoFrame) (hs : List CryptoFrame)
    → are_contiguous (h ∷ hs) ≡ true
    → assemble_sorted max_length (h ∷ hs) ≡ (
        if ltb max_length (h.offset + length (concat (contents (h ∷ hs))))
        then panicked
        else done (zeros h.offset ++ concat (contents (h ∷ hs))))
unfolding contents
assembled max_length h hs c =
    ap (assemble_sorted max_length) (contiguous-pieces h hs c)
    ∙ assemble_sorted-pieces max_length h.offset h.bytes (contents hs)

not_assembled :
    (max_length : ℕ) (fs : List CryptoFrame)
    → are_contiguous fs ≡ false
    → assemble_sorted max_length fs ≡ failed
unfolding assemble_sorted
not_assembled max_length fs c = ground (arith, c)

assemble_in_order :
    (max_length : ℕ) (fs : List CryptoFrame) (b : Bytes) (bs : List Bytes)
    → sort_frames fs ≡ pieces 0 (b ∷ bs)
    → length (concat (b ∷ bs)) ≤ max_length
    → assemble_crypto_frames max_length fs ≡ done (concat (b ∷ bs))
unfolding assemble_crypto_frames sort_frames insert_frame pieces contents
assemble_in_order max_length [] b bs e h = cc
assemble_in_order max_length (f ∷ []) b bs e h =
    let same = ap contents e ∙ contents-pieces 0 (b ∷ bs) in
    ap done (sym (append-nil f.bytes)) ∙ ap (λ x. done (concat x)) same
assemble_in_order max_length (f ∷ (g ∷ fs)) b bs e h =
    rw e (ground (arith, assemble_sorted-pieces max_length 0 b bs))

-- A message that is cut into pieces, none of them empty, and sent as one frame for each piece, is put
-- together again from its frames in any order, if `make` allows its length.
pub assemble_crypto_frames-pieces :
    (max_length : ℕ) (b : Bytes) (bs : List Bytes) (fs : List CryptoFrame)
    → AllNonempty (b ∷ bs)
    → length (concat (b ∷ bs)) ≤ max_length
    → Perm (pieces 0 (b ∷ bs)) fs
    → assemble_crypto_frames max_length fs ≡ done (concat (b ∷ bs))
assemble_crypto_frames-pieces max_length b bs fs some_bytes h p =
    let ordered : sort_frames (pieces 0 (b ∷ bs)) ≡ sort_frames fs =
      ∥∥₁_elim p (List.is_set CryptoFrame_set _ _)
        (λ q. sort_frames-perm q (pieces-Distinct 0 (b ∷ bs) some_bytes)) in
    assemble_in_order max_length fs b bs (sym ordered ∙ sort_frames-pieces 0 (b ∷ bs)) h

-- Two frames or more are put together in the order of their offsets. They fail exactly when one does
-- not begin where the one before it ends. Otherwise, if `make` allows the end of the last frame as a
-- length, the result is the frames' data behind as many zeros as the offset of the first frame; if
-- not, it panics.
pub assemble_crypto_frames_lem :
    (max_length : ℕ) (f g : CryptoFrame) (fs : List CryptoFrame)
    → ((are_contiguous (sort_frames (f ∷ (g ∷ fs))) ≡ false)
        × (assemble_crypto_frames max_length (f ∷ (g ∷ fs)) ≡ failed))
      ⊎ ((h : CryptoFrame) × (hs : List CryptoFrame) × (sort_frames (f ∷ (g ∷ fs)) ≡ h ∷ hs)
          × (are_contiguous (h ∷ hs) ≡ true)
          × (assemble_crypto_frames max_length (f ∷ (g ∷ fs)) ≡ (
              if ltb max_length (h.offset + length (concat (contents (h ∷ hs))))
              then panicked
              else done (zeros h.offset ++ concat (contents (h ∷ hs))))))
unfolding assemble_crypto_frames
assemble_crypto_frames_lem max_length f g fs =
    let (h, hs, e) = insert_frame-cons f (sort_frames (g ∷ fs)) in
    elim (Bool-cases (are_contiguous (h ∷ hs))) [
      | inl c ↦ inr (h, hs, e, c, ap (assemble_sorted max_length) e ∙ assembled max_length h hs c)
      | inr c ↦ inl (
        ap are_contiguous e ∙ c,
        ap (assemble_sorted max_length) e ∙ not_assembled max_length (h ∷ hs) c,
      )
    ]
