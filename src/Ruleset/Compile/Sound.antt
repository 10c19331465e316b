-- ===== src/Ruleset/Compile/Sound.antt =====
-- CompileExprRules of ruleset/expr.go on a whole list of rules.
use open_gfw_next.Base.{
  none, ◌≡◌, subst, Bool, true, ◌||◌, not, Option, some, List, [], ◌∷◌, Bytes, arith, Option-cases,
  inl, inr,
}
use open_gfw_next.Engine.{Action, maybe, allow, block, drop_action, modify}
use open_gfw_next.Utils.Strings.{is_empty}
use open_gfw_next.Ruleset.{Rule, normalize_severity, is_among}
use open_gfw_next.Ruleset.Compile.{
  ExprRule, Program, Result, ok, parse_action, resolve_all, instantiate, compile_rule,
  compile_rules,
}
use open_gfw_next.Ruleset.Compile.Laws.{
  IsCompiled, normalize_severity-named, parse_action-some, instantiate-some, Result-cases, Means,
  graded, parse_action-Means, normalize_severity-graded, all_names, all_names_nil, all_names_mono,
  resolved-later, is_resolved, resolve_all-Resolves,
}

ok_pair :
    {A : Type 0} (cs : List A) (d : List Bytes) (cs' : List A) (d' : List Bytes)
    → ◌≡◌ {A = Result (List A × List Bytes)} (ok (cs, d)) (ok (cs', d'))
    → ◌≡◌ {A = List A × List Bytes} (cs, d) (cs', d')
ok_pair cs d cs' d' h = ground (arith, h)

module _ {P M A : Type 0} (compile : Bytes → Option (Program P)) (is_index : Bytes → Bool)
    (init : Bytes → Option Bool) (known : Bytes → Bool)
    (new_modifier : Bytes → Option (A → Option M)) where
  -- what a successful round is made of
  pub record Parts (r : ExprRule A) (deps : List Bytes) (cr : Rule P M) (deps' : List Bytes)
      : Type 0 where
    pub program : Program P
    pub severity_ok : normalize_severity r.severity ≡ some cr.severity
    pub action_ok : parse_action r.action ≡ ok cr.action
    pub has_effect : (not (is_empty r.action) || r.log) ≡ true
    pub expr_ok : compile r.expr ≡ some program
    pub patch_ok : program.patched ≡ true
    pub resolve_ok : resolve_all is_index init known program program.identifiers deps ≡ ok deps'
    pub modifier_ok : instantiate new_modifier r cr.action ≡ ok cr.mod_instance
    pub log_ok : cr.log ≡ r.log
    pub name_ok : cr.name ≡ r.name
    pub program_ok : cr.program ≡ program.program

  pub compile_rule-Parts :
      (r : ExprRule A) (deps : List Bytes) (cr : Rule P M) (deps' : List Bytes)
      → compile_rule compile is_index init known new_modifier r deps ≡ ok (cr, deps')
      → Parts r deps cr deps'
  unfolding compile_rule
  compile_rule-Parts r deps cr deps' h = elim (Option-cases (normalize_severity r.severity)) [
    | inl e ↦ absurd (ground (arith, h, e))
    | inr (sev, e1) ↦ elim (Result-cases (parse_action r.action)) [
      | inl (_, e) ↦ absurd (ground (arith, h, e, e1))
      | inr (a, e2) ↦ elim (Option-cases (compile r.expr)) [
        | inl e ↦ absurd (ground (arith, h, e, e1, e2))
        | inr (p, e3) ↦ elim (Result-cases (resolve_all is_index init known p p.identifiers deps)) [
          | inl (_, e) ↦ absurd (ground (arith, h, e, e1, e2, e3))
          | inr (d, e4) ↦ elim (Result-cases (instantiate new_modifier r a)) [
            | inl (_, e) ↦ absurd (ground (arith, h, e, e1, e2, e3, e4))
            | inr (m, e5) ↦ record {
              program = p;
              severity_ok = ground (arith, h, e1, e2, e3, e4, e5);
              action_ok = ground (arith, h, e1, e2, e3, e4, e5);
              has_effect = ground (arith, h, e1, e2, e3, e4, e5);
              expr_ok = e3;
              patch_ok = ground (arith, h, e1, e2, e3);
              resolve_ok = ground (arith, h, e1, e2, e3, e4, e5);
              modifier_ok = ground (arith, h, e1, e2, e3, e4, e5);
              log_ok = ground (arith, h, e1, e2, e3, e4, e5);
              name_ok = ground (arith, h, e1, e2, e3, e4, e5);
              program_ok = ground (arith, h, e1, e2, e3, e4, e5);
            }
          ]
        ]
      ]
    ]
  ]

  -- the modifier instance is what the named modifier makes of the arguments, or there is none to make
  pub Carries : ExprRule A → Option Action → Option M → Type 0
  Carries r (some modify) m =
      (make : A → Option M) × (new_modifier r.modifier_name ≡ some make)
      × (make r.modifier_args ≡ m)
  Carries r _ m = m ≡ none

  instantiate-Carries :
      (r : ExprRule A) (a : Option Action) (m : Option M)
      → instantiate new_modifier r a ≡ ok m
      → Carries r a m
  unfolding instantiate Carries
  instantiate-Carries r none m h = ground (arith, h)
  instantiate-Carries r (some maybe) m h = ground (arith, h)
  instantiate-Carries r (some allow) m h = ground (arith, h)
  instantiate-Carries r (some block) m h = ground (arith, h)
  instantiate-Carries r (some drop_action) m h = ground (arith, h)
  instantiate-Carries r (some modify) m h = elim (Option-cases (new_modifier r.modifier_name)) [
    | inl e ↦ absurd (ground (arith, h, e))
    | inr (make, e) ↦ elim (Option-cases (make r.modifier_args)) [
      | inl x ↦ absurd (ground (arith, h, e, x))
      | inr (n, x) ↦ (make, e, ground (arith, h, e, x))
    ]
  ]

  -- A rule that comes of a source rule: name, log, action, severity and modifier are those of the
  -- source, its program is the compiled expression, and every name in the expression stands for a
  -- builtin, a variable, a ready function or an analyzer of `deps`.
  pub record IsSound (deps : List Bytes) (r : ExprRule A) (cr : Rule P M) : Type 0 where
    pub compiled : IsCompiled cr
    pub same_name : cr.name ≡ r.name
    pub same_log : cr.log ≡ r.log
    pub same_action : Means r.action cr.action
    pub same_severity : cr.severity ≡ graded r.severity
    pub same_modifier : Carries r cr.action cr.mod_instance
    pub program : Program P
    pub expr_ok : compile r.expr ≡ some program
    pub program_ok : cr.program ≡ program.program
    pub resolved :
        all_names (is_resolved is_index init known program deps) program.identifiers ≡ true

  abbrev pub AllSound : List Bytes → List (ExprRule A) → List (Rule P M) → Type 0
  AllSound deps [] [] = Unit
  AllSound deps [] (c ∷ cs) = ⊥
  AllSound deps (r ∷ rs) [] = ⊥
  AllSound deps (r ∷ rs) (c ∷ cs) = IsSound deps r c × AllSound deps rs cs

  Parts-IsSound :
      (r : ExprRule A) (deps : List Bytes) (cr : Rule P M) (deps' last : List Bytes)
      → ((n : Bytes) → is_among n deps' ≡ true → is_among n last ≡ true)
      → Parts r deps cr deps'
      → IsSound last r cr
  Parts-IsSound r deps cr deps' last keeps parts =
      let p = parts.program in
      let rs =
        resolve_all-Resolves is_index init known p p.identifiers deps deps' parts.resolve_ok in
      record {
        compiled = record {
          has_effect = ground (
            arith,
            parse_action-some r.action cr.action parts.action_ok,
            parts.has_effect,
            parts.log_ok,
          );
          named_severity = normalize_severity-named r.severity cr.severity parts.severity_ok;
          has_modifier =
              instantiate-some new_modifier r cr.action cr.mod_instance parts.modifier_ok;
        };
        same_name = parts.name_ok;
        same_log = parts.log_ok;
        same_action = parse_action-Means r.action cr.action parts.action_ok;
        same_severity = normalize_severity-graded r.severity cr.severity parts.severity_ok;
        same_modifier = instantiate-Carries r cr.action cr.mod_instance parts.modifier_ok;
        program = p;
        expr_ok = parts.expr_ok;
        program_ok = parts.program_ok;
        resolved =
            all_names_mono (is_resolved is_index init known p deps')
              (is_resolved is_index init known p last) p.identifiers
              (λ n. resolved-later is_index init known p n deps' last (keeps n)) rs.all_resolved;
      }

  record Compiles (rs : List (ExprRule A)) (deps : List Bytes) (crs : List (Rule P M))
      (deps' : List Bytes) : Type 0 where
    sound : AllSound deps' rs crs
    stays_known : all_names known deps ≡ true → all_names known deps' ≡ true
    keeps : (n : Bytes) → is_among n deps ≡ true → is_among n deps' ≡ true

  compile_rules-Compiles :
      (rs : List (ExprRule A)) (deps : List Bytes) (crs : List (Rule P M)) (deps' : List Bytes)
      → compile_rules compile is_index init known new_modifier rs deps ≡ ok (crs, deps')
      → Compiles rs deps crs deps'
  unfolding compile_rules
  compile_rules-Compiles [] deps crs deps' h =
      subst (λ x. Compiles [] deps x.0 x.1) (ok_pair [] deps crs deps' h)
        (record { sound = tt; stays_known = λ k. k; keeps = λ n k. k })
  compile_rules-Compiles (r ∷ rs) deps crs deps' h =
      elim (Result-cases (compile_rule compile is_index init known new_modifier r deps)) [
        | inl (_, e) ↦ absurd (ground (arith, h, e))
        | inr ((c, d), e1) ↦
            elim (Result-cases (compile_rules compile is_index init known new_modifier rs d)) [
              | inl (_, e) ↦ absurd (ground (arith, h, e, e1))
              | inr ((cs, d'), e2) ↦
                  let rest = compile_rules-Compiles rs d cs d' e2 in
                  let parts = compile_rule-Parts r deps c d e1 in
                  let p = parts.program in
                  let now =
                    resolve_all-Resolves is_index init known p p.identifiers deps d
                      parts.resolve_ok in
                  subst (λ x. Compiles (r ∷ rs) deps x.0 x.1)
                    (ok_pair (c ∷ cs) d' crs deps' (ground (arith, h, e1, e2)))
                    (record {
                      sound = (Parts-IsSound r deps c d d' rest.keeps parts, rest.sound);
                      stays_known = λ k. rest.stays_known (now.stays_known k);
                      keeps = λ n k. rest.keeps n (now.keeps n k);
                    })
            ]
      ]

  -- When CompileExprRules succeeds, its rules are the source rules, in order: each has the name and the
  -- log flag of its source, the action that the source's text spells or none if that is empty, the
  -- severity of the source or `info`, the modifier that the source names, made of its arguments, if
  -- the action is to modify, and the compiled expression. It has an action or logs, and one of the six
  -- severities; every identifier of its expression is a builtin, a local variable, a ready function or
  -- one of the analyzers that the ruleset asks for; and it asks only for analyzers that it was given.
  pub compile_rules_sound :
      (rs : List (ExprRule A)) (crs : List (Rule P M)) (deps : List Bytes)
      → compile_rules compile is_index init known new_modifier rs [] ≡ ok (crs, deps)
      → AllSound deps rs crs × (all_names known deps ≡ true)
  compile_rules_sound rs crs deps h =
      let c = compile_rules-Compiles rs [] crs deps h in
      (c.sound, c.stays_known (all_names_nil known))
