-- ===== src/Ruleset/Compile/Faults.antt =====
-- The errors of CompileExprRules of ruleset/expr.go.
use open_gfw_next.Base.{
  ◌≡◌, ◌⊎◌, ◌∙◌, refl, ap, Bool, false, ◌||◌, not, Option, none, some, List, [], ◌∷◌, Bytes, arith,
  Option-cases, Bool-cases, inl, inr,
}
use open_gfw_next.Engine.{Action, maybe, allow, block, drop_action, modify}
use open_gfw_next.Utils.Strings.{is_empty, same_text}
use open_gfw_next.Ruleset.{normalize_severity, severities, is_among, action_string_to_action}
use open_gfw_next.Ruleset.Compile.{
  ExprRule, Program, ok, err, CompileError, no_action_or_log, invalid_severity, invalid_action,
  invalid_expression, patch_failed, init_failed, unknown_identifier, unknown_modifier,
  modifier_failed, is_local, parse_action, resolve, resolve_all, instantiate, compile_rule,
}
use open_gfw_next.Ruleset.Compile.Laws.{Means, graded, parse_action-Means, Result-cases}

normalize_severity-none :
    (s : Bytes) → normalize_severity s ≡ none → is_among (graded s) severities ≡ false
unfolding normalize_severity
normalize_severity-none s h = ground (arith, h)

-- an action that a text spells is the one that is read
spelled : (s : Bytes) (a : Action) → Means s (some a) → action_string_to_action s ≡ some a
unfolding Means action_string_to_action same_text
spelled s maybe h = absurd h
spelled s allow h = rw h refl
spelled s block h = rw h refl
spelled s drop_action h = rw h refl
spelled s modify h = rw h refl

pub parse_action-spelled : (s : Bytes) (a : Option Action) → Means s a → parse_action s ≡ ok a
unfolding parse_action Means
parse_action-spelled [] none h = refl
parse_action-spelled (c ∷ s) none h = absurd (ground (arith, h))
parse_action-spelled [] (some a) h = absurd (ground (arith, spelled [] a h))
parse_action-spelled (c ∷ s) (some a) h = ground (arith, spelled (c ∷ s) a h)

parse_action-error : (s : Bytes) (e : CompileError) → parse_action s ≡ err e → e ≡ invalid_action
unfolding parse_action
parse_action-error s e h = ground (arith, h)

module _ (is_index : Bytes → Bool) (init : Bytes → Option Bool) (known : Bytes → Bool) where
  -- a name stands for a function that is not ready, or for nothing, and the error says which
  abbrev pub IsUnready : {P : Type 0} → Program P → Bytes → CompileError → Type 0
  IsUnready p n e =
      (is_local is_index init known p n ≡ false)
      × ((init n ≡ some false) × (e ≡ init_failed n)
          ⊎ (init n ≡ none) × (known n ≡ false) × (e ≡ unknown_identifier n))

  -- so for one of some names
  pub NameFault : {P : Type 0} → Program P → List Bytes → CompileError → Type 0
  NameFault p [] e = ⊥
  NameFault p (n ∷ ns) e = IsUnready p n e ⊎ NameFault p ns e

  resolve-IsUnready :
      {P : Type 0} (p : Program P) (n : Bytes) (deps : List Bytes) (e : CompileError)
      → is_local is_index init known p n ≡ false
      → resolve is_index init known n deps ≡ err e
      → IsUnready p n e
  unfolding resolve
  resolve-IsUnready p n deps e l h = elim (Option-cases (init n)) [
    | inl x ↦ (l, inr (x, ground (arith, h, x), ground (arith, h, x)))
    | inr (started, x) ↦
        let not_ready : started ≡ false = ground (arith, h, x) in
        (l, inl (x ∙ ap some not_ready, ground (arith, h, x)))
  ]

  resolve_ready :
      {P : Type 0} (p : Program P) (n : Bytes) (deps : List Bytes) (d : List Bytes)
      (e : CompileError)
      → IsUnready p n e
      → ¬ (resolve is_index init known n deps ≡ ok d)
  unfolding resolve
  resolve_ready p n deps d e (l, inl (x, _)) h = absurd (ground (arith, h, x))
  resolve_ready p n deps d e (l, inr (x, k, _)) h = absurd (ground (arith, h, x, k))

  resolve_all-NameFault :
      {P : Type 0} (p : Program P) (ns : List Bytes) (deps : List Bytes) (e : CompileError)
      → resolve_all is_index init known p ns deps ≡ err e
      → NameFault p ns e
  unfolding resolve_all NameFault
  resolve_all-NameFault p [] deps e h = absurd (ground (arith, h))
  resolve_all-NameFault p (n ∷ ns) deps e h = elim (Bool-cases (is_local is_index init known p n)) [
    | inl l ↦ inr (resolve_all-NameFault p ns deps e (ground (arith, h, l)))
    | inr l ↦ elim (Result-cases (resolve is_index init known n deps)) [
      | inl (x, y) ↦ inl (resolve-IsUnready p n deps e l (ground (arith, h, l, y)))
      | inr (d, y) ↦ inr (resolve_all-NameFault p ns d e (ground (arith, h, l, y)))
    ]
  ]

  pub resolve_all_ready :
      {P : Type 0} (p : Program P) (ns : List Bytes) (deps d : List Bytes) (e : CompileError)
      → resolve_all is_index init known p ns deps ≡ ok d
      → ¬ (NameFault p ns e)
  unfolding resolve_all NameFault
  resolve_all_ready p [] deps d e h f = f
  resolve_all_ready p (n ∷ ns) deps d e h f = elim (Bool-cases (is_local is_index init known p n)) [
    | inl l ↦ elim f [
      | inl u ↦ absurd (ground (arith, l, u.0))
      | inr f' ↦ resolve_all_ready p ns deps d e (ground (arith, h, l)) f'
    ]
    | inr l ↦ elim (Result-cases (resolve is_index init known n deps)) [
      | inl (x, y) ↦ absurd (ground (arith, h, l, y))
      | inr (d', y) ↦ elim f [
        | inl u ↦ resolve_ready p n deps d' e u y
        | inr f' ↦ resolve_all_ready p ns d' d e (ground (arith, h, l, y)) f'
      ]
    ]
  ]

module _ {P M A : Type 0} (compile : Bytes → Option (Program P)) (is_index : Bytes → Bool)
    (init : Bytes → Option Bool) (known : Bytes → Bool)
    (new_modifier : Bytes → Option (A → Option M)) where
  -- a fault of a source rule, and the error that names it
  pub data Fault (r : ExprRule A) (e : CompileError) : Type 0 where
    no_effect : r.action ≡ [] → r.log ≡ false → e ≡ no_action_or_log → Fault r e
    bad_severity :
        is_among (graded r.severity) severities ≡ false → e ≡ invalid_severity → Fault r e
    bad_action : ((a : Option Action) → ¬ (Means r.action a)) → e ≡ invalid_action → Fault r e
    bad_expression : compile r.expr ≡ none → e ≡ invalid_expression → Fault r e
    bad_patch :
        (p : Program P) → compile r.expr ≡ some p → p.patched ≡ false → e ≡ patch_failed → Fault r e
    bad_name :
        (p : Program P)
        → compile r.expr ≡ some p
        → NameFault is_index init known p p.identifiers e
        → Fault r e
    no_modifier :
        Means r.action (some modify)
        → new_modifier r.modifier_name ≡ none
        → e ≡ unknown_modifier
        → Fault r e
    bad_modifier :
        Means r.action (some modify)
        → (make : A → Option M) → new_modifier r.modifier_name ≡ some make
        → make r.modifier_args ≡ none
        → e ≡ modifier_failed
        → Fault r e

  instantiate-Fault :
      (r : ExprRule A) (a : Option Action) (e : CompileError)
      → Means r.action a
      → instantiate new_modifier r a ≡ err e
      → Fault r e
  unfolding instantiate
  instantiate-Fault r none e m h = absurd (ground (arith, h))
  instantiate-Fault r (some maybe) e m h = absurd (ground (arith, h))
  instantiate-Fault r (some allow) e m h = absurd (ground (arith, h))
  instantiate-Fault r (some block) e m h = absurd (ground (arith, h))
  instantiate-Fault r (some drop_action) e m h = absurd (ground (arith, h))
  instantiate-Fault r (some modify) e m h = elim (Option-cases (new_modifier r.modifier_name)) [
    | inl x ↦ no_modifier m x (ground (arith, h, x))
    | inr (make, x) ↦ elim (Option-cases (make r.modifier_args)) [
      | inl y ↦ bad_modifier m make x y (ground (arith, h, x, y))
      | inr (n, y) ↦ absurd (ground (arith, h, x, y))
    ]
  ]

  parse_action_fault :
      (r : ExprRule A) (x : CompileError)
      → parse_action r.action ≡ err x
      → (a : Option Action) → ¬ (Means r.action a)
  parse_action_fault r x h a m = absurd (ground (arith, h, parse_action-spelled r.action a m))

  pub compile_rule-Fault :
      (r : ExprRule A) (deps : List Bytes) (e : CompileError)
      → compile_rule compile is_index init known new_modifier r deps ≡ err e
      → Fault r e
  unfolding compile_rule
  compile_rule-Fault r deps e h = elim (Bool-cases (not (is_empty r.action) || r.log)) [
    | inr e0 ↦ no_effect (ground (arith, e0)) (ground (arith, e0)) (ground (arith, h, e0))
    | inl e0 ↦ elim (Option-cases (normalize_severity r.severity)) [
      | inl x ↦ bad_severity (normalize_severity-none r.severity x) (ground (arith, h, e0, x))
      | inr (sev, e1) ↦ elim (Result-cases (parse_action r.action)) [
        | inl (y, x) ↦
            bad_action (parse_action_fault r y x)
              (ground (arith, h, e0, e1, x, parse_action-error r.action y x))
        | inr (a, e2) ↦ elim (Option-cases (compile r.expr)) [
          | inl x ↦ bad_expression x (ground (arith, h, e0, e1, e2, x))
          | inr (p, e3) ↦ elim (Bool-cases p.patched) [
            | inr x ↦ bad_patch p e3 x (ground (arith, h, e0, e1, e2, e3, x))
            | inl e4 ↦ elim (Result-cases (resolve_all is_index init known p p.identifiers deps)) [
              | inl (y, x) ↦ bad_name p e3 (
                  resolve_all-NameFault is_index init known p p.identifiers deps e
                    (ground (arith, h, e0, e1, e2, e3, e4, x)))
              | inr (d, e5) ↦ elim (Result-cases (instantiate new_modifier r a)) [
                | inl (y, x) ↦
                    instantiate-Fault r a e (parse_action-Means r.action a e2)
                      (ground (arith, h, e0, e1, e2, e3, e4, e5, x))
                | inr (m, x) ↦ absurd (ground (arith, h, e0, e1, e2, e3, e4, e5, x))
              ]
            ]
          ]
        ]
      ]
    ]
  ]
