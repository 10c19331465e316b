-- ===== src/Analyzer/Wireguard/Ring.antt =====
-- What the ring of sender indexes of analyzer/udp/wireguard.go remembers.
use open_gfw_next.Base.{
  ℕ, zero, suc, ◌≡◌, refl, ap, Bool, true, false, Option, none, some, List, [], ◌∷◌, arith, take,
  if◌then◌else◌,
}
use open_gfw_next.Analyzer.Wireguard.{
  Index, Cells, new, drop_last, last_of, put_sender_index, answers, search_cells,
  match_receiver_index,
}

-- the cells after the current one, for the indexes put so far, newest first
abbrev pub pad : ℕ → List Index → Cells
pad zero h = []
pad (suc n) [] = none ∷ pad n []
pad (suc n) (x ∷ h) = some x ∷ pad n h

pub record Remembers (cells : Cells) (h : List Index) : Type 0 where
  pub current : Option Index
  pub shape : cells ≡ current ∷ pad 5 h

-- A new stream remembers nothing.
pub Remembers-new : Remembers new.remembered []
unfolding new
Remembers-new = record { current = none; shape = refl }

drop_last-pad :
    (n : ℕ) (h : List Index) (c : Option Index) → drop_last c (pad (suc n) h) ≡ c ∷ pad n h
drop_last-pad zero [] c = refl
drop_last-pad zero (x ∷ h) c = refl
drop_last-pad (suc n) [] c = ap (◌∷◌ c) (drop_last-pad n [] none)
drop_last-pad (suc n) (x ∷ h) c = ap (◌∷◌ c) (drop_last-pad n h (some x))

pub put_sender_index-Remembers :
    (cells : Cells) (h : List Index) (rev : Bool) (i : ℕ)
    → Remembers cells h
    → Remembers (put_sender_index cells rev i) (record { sender_index = i; reverse = rev } ∷ h)
unfolding put_sender_index
put_sender_index-Remembers cells h rev i r =
    let w : Index = record { sender_index = i; reverse = rev } in
    record {
      current = last_of (some w) (pad 5 h);
      shape = rw r.shape (ap (◌∷◌ (last_of (some w) (pad 5 h))) (drop_last-pad 4 h (some w)));
    }

-- Some index of the list answers the receiver index.
pub any_answers : Bool → ℕ → List Index → Bool
any_answers rev i [] = false
any_answers rev i (w ∷ h) = if answers rev i w then true else any_answers rev i h

search_cells-pad :
    (n : ℕ) (h : List Index) (rev : Bool) (i : ℕ)
    → search_cells rev i (pad n h) ≡ any_answers rev i (take n h)
unfolding search_cells any_answers
search_cells-pad zero h rev i = refl
search_cells-pad (suc n) [] rev i = refl
search_cells-pad (suc n) (x ∷ h) rev i = ground (arith, search_cells-pad n h rev i)

-- A receiver index is matched exactly when one of the last five sender indexes answers it: the
-- sixth cell of the ring is never looked at.
pub match_receiver_index-Remembers :
    (cells : Cells) (h : List Index) (rev : Bool) (i : ℕ)
    → Remembers cells h
    → match_receiver_index cells rev i ≡ any_answers rev i (take 5 h)
unfolding match_receiver_index
match_receiver_index-Remembers cells h rev i r = ground (arith, r.shape, search_cells-pad 5 h rev i)
