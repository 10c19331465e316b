-- ===== src/Utils/Lsm/Steps.antt =====
-- Machines of analyzer/utils/lsm.go whose steps append none keep their list of steps.
use open_gfw_next.Base.{
  ℕ, zero, suc, ◌+◌, ◌≡◌, inl, inr, some, [], arith, append-nil, Option-cases, get_elem?,
}
use open_gfw_next.Utils.Lsm.{Lsm, Outcome, Ran, append_steps, run_loop, run}

module _ {K S : Type 0} (exec : K → S → Outcome K S) where
  abbrev pub Fixed : Type 0
  Fixed = (k : K) (s : S) → (exec k s).appended ≡ []

  run_loop-steps :
      Fixed
      → (fuel : ℕ) (m : Lsm K) (s : S) (r : Ran K S) → run_loop exec fuel m s ≡ some r
      → r.machine.steps ≡ m.steps
  unfolding run_loop
  run_loop-steps fixed zero m s r e = cc
  run_loop-steps fixed (suc fuel) m s r e = elim (Option-cases (get_elem? m.steps m.index)) [
    | inl absent ↦ ground arith
    | inr (k, here) ↦
        let o = exec k s in
        let m' = append_steps m o.appended in
        let onward = run_loop-steps fixed fuel (record m' { index = m.index + 1 }) o.state r in
        let again = run_loop-steps fixed fuel (record m' { index = 0 }) o.state r in
        ground (arith, here, fixed k s, append-nil m.steps, onward, again)
  ]

  pub run-steps :
      Fixed
      → (fuel : ℕ) (m : Lsm K) (s : S) (r : Ran K S) → run exec fuel m s ≡ some r
      → r.machine.steps ≡ m.steps
  unfolding run
  run-steps fixed fuel m s r e = ground (arith, run_loop-steps fixed fuel m s r)
