-- ===== src/Analyzer/Udpflow/Counters.antt =====
-- The counters of analyzer/udp/udpflow.go that depend on the order of the packets.
use open_gfw_next.Base.{
  ℕ, suc, ◌<◌, ◌≡◌, ◌⊎◌, inl, inr, refl, Bool, true, List, [], ◌∷◌, arith, ◌==◌, if◌then◌else◌,
  Bool-cases,
}
use open_gfw_next.Analyzer.Udpflow.{new, update_direction_run, count_packet, feed}
use open_gfw_next.Analyzer.Udpflow.History.{
  Packet, size, after, packets_with, since_empty, smallest, lesser, earliest, run_of, longest_run,
  turns,
}

smallest_cons :
    (p : Packet) (h : List Packet)
    → 0 < smallest h
    → smallest (p ∷ h) ≡ lesser (size p) (smallest h)
unfolding smallest
smallest_cons p [] k = absurd (omega arith)
smallest_cons p (q ∷ h) k = refl

since_empty-cases : (h : List Packet) → (since_empty h ≡ []) ⊎ (0 < smallest (since_empty h))
unfolding since_empty smallest
since_empty-cases [] = inl refl
since_empty-cases (p ∷ h) = elim (Bool-cases (size p == 0)) [
  | inl e ↦ inl (rw (e, since_empty) refl)
  | inr e ↦ inr (elim (since_empty-cases h) [
    | inl k ↦ rw (e, k, since_empty, smallest) (ground (arith, e))
    | inr k ↦ ground (arith, e, k, smallest_cons p (since_empty h) k)
  ])
]

pub earliest_cons : (p : Packet) (h : List Packet) → 0 < earliest h → earliest (p ∷ h) ≡ earliest h
unfolding earliest
earliest_cons p [] k = absurd (omega arith)
earliest_cons p (q ∷ h) k = refl

module _ (f : Packet → Bool) (full : (p : Packet) → f p ≡ true → 0 < size p) where
  pub earliest-cases :
      (h : List Packet) → (packets_with f h ≡ []) ⊎ (0 < earliest (packets_with f h))
  unfolding packets_with earliest
  earliest-cases [] = inl refl
  earliest-cases (p ∷ h) = elim (Bool-cases (f p)) [
    | inl e ↦ inr (elim (earliest-cases h) [
      | inl k ↦ rw (e, k, packets_with, earliest) (full p e)
      | inr k ↦ ground (arith, e, k, earliest_cons p (packets_with f h) k)
    ])
    | inr e ↦ elim (earliest-cases h) [
      | inl k ↦ inl (rw (e, packets_with) k)
      | inr k ↦ inr (rw (e, packets_with) k)
    ]
  ]

module _ (src dst : ℕ) where
  pub min_lem : (h : List Packet) → (after src dst h).min_packet_len ≡ smallest (since_empty h)
  unfolding after feed count_packet new since_empty smallest
  min_lem [] = refl
  min_lem (p ∷ h) = elim (since_empty-cases h) [
    | inl k ↦ ground (arith, k, min_lem h)
    | inr k ↦ ground (arith, k, min_lem h, smallest_cons p (since_empty h) k)
  ]

  -- the latest direction: 1 for sent, 2 for received
  abbrev direction_of : List Packet → ℕ
  direction_of [] = 0
  direction_of (p ∷ h) = if p.rev then 2 else 1

  abbrev latest_run : List Packet → ℕ
  latest_run [] = 0
  latest_run (p ∷ h) = suc (run_of p.rev h)

  direction_lem : (h : List Packet) → (after src dst h).last_direction ≡ direction_of h
  unfolding after feed count_packet update_direction_run new
  direction_lem [] = refl
  direction_lem (p ∷ h) = ground (arith, direction_lem h)

  run_lem : (h : List Packet) → (after src dst h).current_run ≡ latest_run h
  unfolding after feed count_packet update_direction_run new run_of
  run_lem [] = refl
  run_lem (p ∷ []) = refl
  run_lem (p ∷ (q ∷ h)) = ground (arith, direction_lem (q ∷ h), run_lem (q ∷ h))

  pub max_run_lem : (h : List Packet) → (after src dst h).max_run ≡ longest_run h
  unfolding after feed count_packet update_direction_run new run_of longest_run
  max_run_lem [] = refl
  max_run_lem (p ∷ []) = refl
  max_run_lem (p ∷ (q ∷ h)) =
      ground (arith, direction_lem (q ∷ h), run_lem (q ∷ h), max_run_lem (q ∷ h))

  pub turns_lem : (h : List Packet) → (after src dst h).direction_turns ≡ turns h
  unfolding after feed count_packet update_direction_run new turns
  turns_lem [] = refl
  turns_lem (p ∷ []) = refl
  turns_lem (p ∷ (q ∷ h)) = ground (arith, direction_lem (q ∷ h), turns_lem (q ∷ h))
