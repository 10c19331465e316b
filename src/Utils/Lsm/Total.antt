-- ===== src/Utils/Lsm/Total.antt =====
-- `Run` of analyzer/utils/lsm.go ends: each step that is passed uses up its weight, and what it
-- appends weighs less than itself.
use open_gfw_next.Base.{
  Bool, true, ℕ, zero, suc, ◌+◌, ◌<◌, ◌≡◌, ◌≢◌, inl, inr, none, some, List, [], ◌∷◌, ◌++◌, arith,
  Option-cases, add-one, length, drop, drop-append_le, get_elem?,
}
use open_gfw_next.Utils.Lsm.{Lsm, reset, Outcome, Ran, append_steps, run_loop, run}

module _ {K : Type 0} (weight : K → ℕ) where
  abbrev pub total : List K → ℕ
  total [] = 0
  total (k ∷ ks) = weight k + total ks

  total-append : (xs ys : List K) → total (xs ++ ys) ≡ total xs + total ys
  total-append [] ys = omega arith
  total-append (k ∷ xs) ys = omega (arith, total-append xs ys)

  -- the weight of the steps that are still to run
  abbrev pub ahead : Lsm K → ℕ
  ahead m = total (drop m.index m.steps)

  total-drop-suc :
      (ks : List K) (i : ℕ) (k : K)
      → get_elem? ks i ≡ some k
      → total (drop i ks) ≡ weight k + total (drop (suc i) ks)
  total-drop-suc [] i k e = cc
  total-drop-suc (x ∷ ks) zero k e = ground arith
  total-drop-suc (x ∷ ks) (suc i) k e = total-drop-suc ks i k e

get_elem?_lt {ℓ} :
    {A : Type ℓ} (xs : List A) (i : ℕ) (a : A) → get_elem? xs i ≡ some a → i < length xs
get_elem?_lt [] i a e = cc
get_elem?_lt (x ∷ xs) zero a e = omega arith
get_elem?_lt (x ∷ xs) (suc i) a e = omega (arith, get_elem?_lt xs i a e)

module _ {K S : Type 0} (exec : K → S → Outcome K S) (weight : K → ℕ) where
  -- No step answers `reset`, and what a step appends weighs less than the step.
  pub record IsLinear : Type 0 where
    pub no_reset : (k : K) (s : S) → (exec k s).action ≢ reset
    pub lighter : (k : K) (s : S) → total weight (exec k s).appended < weight k

  ahead-next :
      IsLinear
      → (m : Lsm K) (k : K) (s : S) → get_elem? m.steps m.index ≡ some k
      → total weight (drop (m.index + 1) (m.steps ++ (exec k s).appended)) < ahead weight m
  ahead-next lin m k s e =
      let room = get_elem?_lt m.steps m.index k e in
      let behind = drop-append_le (m.index + 1) m.steps (exec k s).appended (omega arith) in
      rw behind (
        omega (
          arith,
          total-append weight (drop (m.index + 1) m.steps) (exec k s).appended,
          rw (← add-one) at (total-drop-suc weight m.steps m.index k e),
          lin.lighter k s,
        ))

  run_loop-ne-none :
      IsLinear
      → (fuel : ℕ) (m : Lsm K) (s : S) → ahead weight m < fuel
      → run_loop exec fuel m s ≢ none
  unfolding run_loop
  run_loop-ne-none lin zero m s h = elim h [ ]
  run_loop-ne-none lin (suc fuel) m s h = elim (Option-cases (get_elem? m.steps m.index)) [
    | inl e ↦ ground (arith, e)
    | inr (k, e) ↦
        let m' = append_steps m (exec k s).appended in
        let deeper =
          run_loop-ne-none lin fuel (record m' { index = m.index + 1 }) (exec k s).state in
        ground (arith, e, ahead-next lin m k s e, deeper, lin.no_reset k s)
  ]

  -- `Run` returns, whatever the stream's state, once the fuel exceeds the weight of the steps ahead.
  pub run_total :
      IsLinear
      → (fuel : ℕ) (m : Lsm K) (s : S) → ahead weight m < fuel
      → (r : Ran K S) × (run exec fuel m s ≡ some r)
  unfolding run
  run_total lin fuel m s h = elim (Option-cases (run exec fuel m s)) [
    | inl e ↦ absurd (ground (arith, run_loop-ne-none lin fuel m s h))
    | inr found ↦ found
  ]

  -- What every step keeps of the stream's state, `Run` keeps.
  module _ (good : S → Bool)
      (step : (k : K) (s : S) → good s ≡ true → good (exec k s).state ≡ true) where
    run_loop_keeps :
        (fuel : ℕ) (m : Lsm K) (s : S) (r : Ran K S)
        → good s ≡ true
        → run_loop exec fuel m s ≡ some r
        → good r.state ≡ true
    unfolding run_loop
    run_loop_keeps zero m s r g h = cc
    run_loop_keeps (suc fuel) m s r g h = elim (Option-cases (get_elem? m.steps m.index)) [
      | inl e ↦ ground (arith, e, g, h)
      | inr (k, e) ↦
          let o = exec k s in
          let m' = append_steps m o.appended in
          let kept = step k s g in
          ground (
            arith,
            e,
            h,
            kept,
            run_loop_keeps fuel (record m' { index = m'.index + 1 }) o.state r kept,
            run_loop_keeps fuel (record m' { index = 0 }) o.state r kept,
          )
    ]

    pub run_keeps :
        (fuel : ℕ) (m : Lsm K) (s : S) (r : Ran K S)
        → good s ≡ true
        → run exec fuel m s ≡ some r
        → good r.state ≡ true
    unfolding run
    run_keeps fuel m s r g h = ground (arith, h, g, run_loop_keeps fuel m s r g)
