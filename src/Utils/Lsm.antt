-- ===== src/Utils/Lsm.antt =====
-- analyzer/utils/lsm.go. A step is a closure over the stream that owns the machine; here it has a
-- name `K`, and `exec` runs it on the stream's state `S`. What a step appends by `AppendSteps` comes
-- back in its outcome. `Run` loops while steps answer `next` or `reset`, so it takes fuel.
pub mod Total
pub mod Steps
use open_gfw_next.Base.{
  ℕ, zero, suc, ◌+◌, Bool, true, false, Option, none, some, List, [], ◌++◌, leb, if◌then◌else◌,
  length, get_elem?,
}

-- LSMAction
pub data LsmAction : Type 0 where
  pause next reset cancel : LsmAction

-- LinearStateMachine
pub record Lsm (K : Type 0) : Type 0 where
  pub steps : List K
  pub index : ℕ
  pub cancelled : Bool

-- what one step does: the stream it leaves, the steps it appends, and its answer
pub record Outcome (K S : Type 0) : Type 0 where
  pub state : S
  pub appended : List K
  pub action : LsmAction

-- what `Run` leaves and returns
pub record Ran (K S : Type 0) : Type 0 where
  pub machine : Lsm K
  pub state : S
  pub cancelled : Bool
  pub done : Bool

module _ {K : Type 0} where
  -- NewLinearStateMachine
  abbrev pub new : List K → Lsm K
  new steps = record { steps = steps; index = 0; cancelled = false }

  -- AppendSteps
  abbrev pub append_steps : Lsm K → List K → Lsm K
  append_steps m more = record m { steps = m.steps ++ more }

  -- Reset
  abbrev pub restart : Lsm K → Lsm K
  restart m = record m { index = 0; cancelled = false }

abbrev stop : {K S : Type 0} → Lsm K → S → Bool → Bool → Option (Ran K S)
stop m s c d = some (record { machine = m; state = s; cancelled = c; done = d })

module _ {K S : Type 0} (exec : K → S → Outcome K S) where
  -- the loop of `Run`; `none` means that the fuel ran out
  unfoldable pub run_loop : ℕ → Lsm K → S → Option (Ran K S)
  run_loop zero m s = none
  run_loop (suc fuel) m s = elim (get_elem? m.steps m.index) [
    | none ↦ stop m s false true
    | some k ↦
        let o = exec k s in
        let m' = append_steps m o.appended in
        elim o.action [
          | pause ↦ stop m' o.state false false
          | next ↦ run_loop fuel (record m' { index = m'.index + 1 }) o.state
          | reset ↦ run_loop fuel (record m' { index = 0 }) o.state
          | cancel ↦ stop (record m' { cancelled = true }) o.state true true
        ]
  ]

  -- Run
  unfoldable pub run : ℕ → Lsm K → S → Option (Ran K S)
  run fuel m s =
      let looped = run_loop fuel m s in
      if leb (length m.steps) m.index then stop m s m.cancelled true else looped
