-- ===== src/Ruleset/Compile.antt =====
-- ruleset/expr.go: CompileExprRules. The expression compiler, with the identifiers and variables that
-- idVisitor collects and the error of idPatcher, is the parameter `compile`; `is_index` is
-- builtin.Index, `init` says of a name in the function map whether its InitFunc succeeds or is
-- absent, `known` is the map of the analyzers and `new_modifier` that of the modifiers. The errors'
-- texts are left out; a map's keys are visited in the order of a list.
pub mod Laws
pub mod Sound
pub mod Faults
pub mod Errors
use open_gfw_next.Base.{
  Bool, true, false, not, ◌||◌, Option, none, some, List, [], ◌∷◌, Bytes, if◌then◌else◌,
}
use open_gfw_next.Engine.{Action, modify}
use open_gfw_next.Utils.Strings.{is_empty}
use open_gfw_next.Ruleset.{
  Rule, is_among, normalize_severity, action_string_to_action, is_builtin_analyzer,
}

-- ExprRule; `A` is the type of a modifier's arguments
pub record ExprRule (A : Type 0) : Type 0 where
  pub name : Bytes
  pub action : Bytes
  pub log : Bool
  pub severity : Bytes
  pub modifier_name : Bytes
  pub modifier_args : A
  pub expr : Bytes

-- what `expr.Compile` and the visitors give
pub record Program (P : Type 0) : Type 0 where
  pub program : P
  pub identifiers : List Bytes
  pub variables : List Bytes
  pub patched : Bool

-- the errors of CompileExprRules
pub data CompileError : Type 0 where
  no_action_or_log invalid_severity invalid_action invalid_expression patch_failed : CompileError
  init_failed : Bytes → CompileError
  unknown_identifier : Bytes → CompileError
  unknown_modifier modifier_failed : CompileError

pub data Result (A : Type 0) : Type 0 where
  ok : A → Result A
  err : CompileError → Result A

infixl 5 ◌>>=◌
abbrev pub ◌>>=◌ : {A B : Type 0} → Result A → (A → Result B) → Result B
ok a >>= f = f a
err e >>= f = err e

abbrev pub guard : Bool → CompileError → Result Bool
guard true e = ok true
guard false e = err e

abbrev pub or_error : {A : Type 0} → CompileError → Option A → Result A
or_error e none = err e
or_error e (some a) = ok a

-- `action` of a compiled rule: nil for the empty text
unfoldable pub parse_action : Bytes → Result (Option Action)
unfolding action_string_to_action
parse_action s =
    if is_empty s
    then ok none
    else (or_error invalid_action (action_string_to_action s) >>= λ a. ok (some a))

-- depAnMap[name] = a
unfoldable pub put_name : Bytes → List Bytes → List Bytes
put_name name deps = if is_among name deps then deps else name ∷ deps

module _ (is_index : Bytes → Bool) (init : Bytes → Option Bool) (known : Bytes → Bool) where
  abbrev pub is_local : {P : Type 0} → Program P → Bytes → Bool
  is_local p name = is_builtin_analyzer name || is_among name p.variables || is_index name

  -- a name that is no builtin: a function, or an analyzer to depend on
  unfoldable pub resolve : Bytes → List Bytes → Result (List Bytes)
  unfolding put_name
  resolve name deps = elim (init name) [
    | some started ↦ if started then ok deps else err (init_failed name)
    | none ↦ if known name then ok (put_name name deps) else err (unknown_identifier name)
  ]

  -- the loop over the identifiers of a rule
  unfoldable pub resolve_all :
      {P : Type 0} → Program P → List Bytes → List Bytes → Result (List Bytes)
  unfolding resolve
  resolve_all p [] deps = ok deps
  resolve_all p (name ∷ names) deps =
      (if is_local p name then ok deps else resolve name deps) >>= λ deps'.
      resolve_all p names deps'

module _ {M A : Type 0} (new_modifier : Bytes → Option (A → Option M)) where
  -- the instance of a rule whose action is to modify
  unfoldable pub instantiate : ExprRule A → Option Action → Result (Option M)
  instantiate r (some modify) = or_error unknown_modifier (new_modifier r.modifier_name) >>= λ make.
      or_error modifier_failed (make r.modifier_args) >>= λ m. ok (some m)
  instantiate r _ = ok none

module _ {P M A : Type 0} (compile : Bytes → Option (Program P)) (is_index : Bytes → Bool)
    (init : Bytes → Option Bool) (known : Bytes → Bool)
    (new_modifier : Bytes → Option (A → Option M)) where
  -- one round of the loop over the rules
  unfoldable pub compile_rule : ExprRule A → List Bytes → Result (Rule P M × List Bytes)
  unfolding normalize_severity parse_action resolve_all instantiate
  compile_rule r deps = guard (not (is_empty r.action) || r.log) no_action_or_log >>= λ _.
      or_error invalid_severity (normalize_severity r.severity) >>= λ severity.
      parse_action r.action >>= λ action. or_error invalid_expression (compile r.expr) >>= λ p.
      guard p.patched patch_failed >>= λ _.
      resolve_all is_index init known p p.identifiers deps >>= λ deps'.
      instantiate new_modifier r action >>= λ m. ok (
        record {
          name = r.name;
          action = action;
          log = r.log;
          severity = severity;
          mod_instance = m;
          program = p.program;
        },
        deps',
      )

  -- CompileExprRules: the rules, and the names of the analyzers they need
  unfoldable pub compile_rules :
      List (ExprRule A) → List Bytes → Result (List (Rule P M) × List Bytes)
  unfolding compile_rule
  compile_rules [] deps = ok ([], deps)
  compile_rules (r ∷ rs) deps =
      compile_rule r deps >>= λ c. compile_rules rs c.1 >>= λ rest. ok (c.0 ∷ rest.0, rest.1)
