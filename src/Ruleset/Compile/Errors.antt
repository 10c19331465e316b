-- ===== src/Ruleset/Compile/Errors.antt =====
-- When CompileExprRules of ruleset/expr.go fails, and with which error.
use open_gfw_next.Base.{
  ◌≡◌, ◌∙◌, sym, refl, ap, subst, Bool, Option, some, List, [], ◌∷◌, ◌++◌, Bytes, arith, inl, inr,
}
use open_gfw_next.Engine.{modify}
use open_gfw_next.Ruleset.{Rule}
use open_gfw_next.Ruleset.Compile.{
  ExprRule, Program, Result, ok, err, CompileError, instantiate, compile_rule, compile_rules,
}
use open_gfw_next.Ruleset.Compile.Laws.{
  Means, parse_action-Means, normalize_severity-named, normalize_severity-graded, Result-cases,
}
use open_gfw_next.Ruleset.Compile.Sound.{Parts, compile_rule-Parts}
use open_gfw_next.Ruleset.Compile.Faults.{
  parse_action-spelled, NameFault, resolve_all_ready, Fault, no_effect, bad_severity, bad_action,
  bad_expression, bad_patch, bad_name, no_modifier, bad_modifier, compile_rule-Fault,
}

module _ {P M A : Type 0} (compile : Bytes → Option (Program P)) (is_index : Bytes → Bool)
    (init : Bytes → Option Bool) (known : Bytes → Bool)
    (new_modifier : Bytes → Option (A → Option M)) where
  -- no fault of a source rule
  abbrev pub IsFaultless : ExprRule A → Type 0
  IsFaultless r = (e : CompileError) → ¬ (Fault compile is_index init known new_modifier r e)

  abbrev pub AllFaultless : List (ExprRule A) → Type 0
  AllFaultless [] = Unit
  AllFaultless (r ∷ rs) = IsFaultless r × AllFaultless rs

  -- the first rule that has a fault, and that the error names one of its faults
  pub record FirstFault (rs : List (ExprRule A)) (e : CompileError) : Type 0 where
    pub before : List (ExprRule A)
    pub bad : ExprRule A
    pub after : List (ExprRule A)
    pub split : rs ≡ before ++ (bad ∷ after)
    pub faultless : AllFaultless before
    pub fault : Fault compile is_index init known new_modifier bad e

  -- what a result says of the source rules
  abbrev pub Judges : List (ExprRule A) → Result (List (Rule P M) × List Bytes) → Type 0
  Judges rs (ok _) = AllFaultless rs
  Judges rs (err e) = FirstFault rs e

  modifier_fits :
      (r : ExprRule A) (deps d : List Bytes) (c : Rule P M)
      → Parts compile is_index init known new_modifier r deps c d
      → Means r.action (some modify)
      → instantiate new_modifier r (some modify) ≡ ok c.mod_instance
  modifier_fits r deps d c parts m =
      let same : c.action ≡ some modify =
        ground (arith, parse_action-spelled r.action (some modify) m, parts.action_ok) in
      ap (λ a. instantiate new_modifier r a) (sym same) ∙ parts.modifier_ok

  Parts-IsFaultless :
      (r : ExprRule A) (deps d : List Bytes) (c : Rule P M)
      → Parts compile is_index init known new_modifier r deps c d
      → IsFaultless r
  unfolding instantiate
  Parts-IsFaultless r deps d c parts e (no_effect a l _) =
      absurd (ground (arith, a, l, parts.has_effect))
  Parts-IsFaultless r deps d c parts e (bad_severity s _) =
      let named = normalize_severity-named r.severity c.severity parts.severity_ok in
      let same = normalize_severity-graded r.severity c.severity parts.severity_ok in
      absurd (ground (arith, s, rw same at named))
  Parts-IsFaultless r deps d c parts e (bad_action f _) =
      f c.action (parse_action-Means r.action c.action parts.action_ok)
  Parts-IsFaultless r deps d c parts e (bad_expression x _) =
      absurd (ground (arith, x, parts.expr_ok))
  Parts-IsFaultless r deps d c parts e (bad_patch p x y _) =
      absurd (ground (arith, x, y, parts.expr_ok, parts.patch_ok))
  Parts-IsFaultless r deps d c parts e (bad_name p x f) =
      let q = parts.program in
      let same : p ≡ q = ground (arith, x, parts.expr_ok) in
      resolve_all_ready is_index init known q q.identifiers deps d e parts.resolve_ok
        (subst (λ (z : Program P). NameFault is_index init known z z.identifiers e) same f)
  Parts-IsFaultless r deps d c parts e (no_modifier m x _) =
      absurd (ground (arith, x, modifier_fits r deps d c parts m))
  Parts-IsFaultless r deps d c parts e (bad_modifier m make x y _) =
      absurd (ground (arith, x, y, modifier_fits r deps d c parts m))

  judge :
      (rs : List (ExprRule A)) (x y : Result (List (Rule P M) × List Bytes))
      → x ≡ y
      → Judges rs y
      → Judges rs x
  judge rs x y h j = subst (λ z. Judges rs z) (sym h) j

  judged :
      (rs : List (ExprRule A)) (deps : List Bytes)
      → Judges rs (compile_rules compile is_index init known new_modifier rs deps)
  unfolding compile_rules
  judged [] deps = tt
  judged (r ∷ rs) deps =
      elim (Result-cases (compile_rule compile is_index init known new_modifier r deps)) [
        | inl (e, x) ↦ judge (r ∷ rs) _ (err e) (ground (arith, x)) (record {
          before = [];
          bad = r;
          after = rs;
          split = refl;
          faultless = tt;
          fault = compile_rule-Fault compile is_index init known new_modifier r deps e x;
        })
        | inr ((c, d), x) ↦
            let parts = compile_rule-Parts compile is_index init known new_modifier r deps c d x in
            let here = Parts-IsFaultless r deps d c parts in
            let rest = judged rs d in
            elim (Result-cases (compile_rules compile is_index init known new_modifier rs d)) [
              | inl (e, y) ↦
                  let found : FirstFault rs e = judge rs (err e) _ (sym y) rest in
                  judge (r ∷ rs) _ (err e) (ground (arith, x, y)) (record {
                    before = r ∷ found.before;
                    bad = found.bad;
                    after = found.after;
                    split = ap (λ zs. r ∷ zs) found.split;
                    faultless = (here, found.faultless);
                    fault = found.fault;
                  })
              | inr (z, y) ↦
                  let others : AllFaultless rs = judge rs (ok z) _ (sym y) rest in
                  judge (r ∷ rs) _ (ok (c ∷ z.0, z.1)) (ground (arith, x, y)) (here, others)
            ]
      ]

  -- CompileExprRules succeeds only if no source rule has a fault. If it fails, its error names a fault
  -- of the first rule that has one: neither an action nor the log flag, a severity that is none of the
  -- six, an action's text that spells no action, an expression that does not compile or cannot be
  -- patched, an identifier that stands for nothing or for a function that is not ready, or, where the
  -- action is to modify, an unknown modifier or arguments that the modifier refuses.
  pub compile_rules-Judges :
      (rs : List (ExprRule A))
      → Judges rs (compile_rules compile is_index init known new_modifier rs [])
  compile_rules-Judges rs = judged rs []
