-- ===== src/Ruleset/Compile/Laws.antt =====
-- What CompileExprRules of ruleset/expr.go promises of the rules it returns.
use open_gfw_next.Base.{
  ◌≡◌, ◌≢◌, ◌⊎◌, refl, Bool, true, false, ◌&&◌, ◌||◌, not, Option, none, some, List, [], ◌∷◌, Bytes,
  arith, if◌then◌else◌, inl, inr,
}
use open_gfw_next.Engine.{Action, maybe, allow, block, drop_action, modify}
use open_gfw_next.Utils.Strings.{codes, is_empty, to_lower, trim_space}
use open_gfw_next.Utils.Strings.Laws.{same_text_refl, same_text_iff}
use open_gfw_next.Ruleset.{
  Rule, is_among, severities, normalize_severity, action_string_to_action, is_builtin_analyzer,
}
use open_gfw_next.Ruleset.Matching.{acts}
use open_gfw_next.Ruleset.Compile.{
  ExprRule, Program, Result, ok, err, CompileError, parse_action, resolve, resolve_all, instantiate,
}

-- A compiled rule has an action or logs, its severity is one of the six, and if it modifies it has
-- a modifier to do so.
pub record IsCompiled {P M : Type 0} (r : Rule P M) : Type 0 where
  pub has_effect : (acts r || r.log) ≡ true
  pub named_severity : is_among r.severity severities ≡ true
  pub has_modifier : r.action ≡ some modify → r.mod_instance ≢ none

info_named : is_among (codes "info") severities ≡ true
unfolding is_among
info_named = refl

pub normalize_severity-named :
    (s t : Bytes) → normalize_severity s ≡ some t → is_among t severities ≡ true
unfolding normalize_severity
normalize_severity-named s t h = ground (arith, h, info_named)

-- the action that a text spells, in whatever case; the empty text spells none
unfoldable pub Means : Bytes → Option Action → Type 0
Means s none = s ≡ []
Means s (some maybe) = ⊥
Means s (some allow) = to_lower s ≡ codes "allow"
Means s (some block) = to_lower s ≡ codes "block"
Means s (some drop_action) = to_lower s ≡ codes "drop"
Means s (some modify) = to_lower s ≡ codes "modify"

action_string-Means :
    (s : Bytes) (a : Action) → action_string_to_action s ≡ some a → Means s (some a)
unfolding action_string_to_action Means
action_string-Means s maybe h = ground (arith, h)
action_string-Means s allow h = ground (arith, h, same_text_iff (to_lower s) (codes "allow"))
action_string-Means s block h = ground (arith, h, same_text_iff (to_lower s) (codes "block"))
action_string-Means s drop_action h = ground (arith, h, same_text_iff (to_lower s) (codes "drop"))
action_string-Means s modify h = ground (arith, h, same_text_iff (to_lower s) (codes "modify"))

pub parse_action-Means : (s : Bytes) (a : Option Action) → parse_action s ≡ ok a → Means s a
unfolding parse_action Means
parse_action-Means [] none h = refl
parse_action-Means [] (some a) h = absurd (ground (arith, h))
parse_action-Means (c ∷ s) none h = absurd (ground (arith, h))
parse_action-Means (c ∷ s) (some a) h = action_string-Means (c ∷ s) a (ground (arith, h))

-- a severity without the spaces around it and in small letters, `info` if nothing is left
abbrev pub graded : Bytes → Bytes
graded s = elim (to_lower (trim_space s)) [ [] ↦ codes "info" | c ∷ t ↦ c ∷ t ]

pub normalize_severity-graded : (s t : Bytes) → normalize_severity s ≡ some t → t ≡ graded s
unfolding normalize_severity
normalize_severity-graded s t h = ground (arith, h)

pub parse_action-some :
    (s : Bytes) (a : Option Action)
    → parse_action s ≡ ok a
    → (elim a [ none ↦ false | some b ↦ true ]) ≡ not (is_empty s)
unfolding parse_action
parse_action-some s a h = ground (arith, h)

pub instantiate-some :
    {M A : Type 0} (new_modifier : Bytes → Option (A → Option M)) (r : ExprRule A)
    (a : Option Action) (m : Option M)
    → instantiate new_modifier r a ≡ ok m
    → a ≡ some modify
    → m ≢ none
unfolding instantiate
instantiate-some new_modifier r a m h e = ground (arith, h, e)

pub Result-cases :
    {A : Type 0} (m : Result A) → ((e : CompileError) × (m ≡ err e)) ⊎ ((a : A) × (m ≡ ok a))
Result-cases (ok a) = inr (a, refl)
Result-cases (err e) = inl (e, refl)

-- Is every name of the list one of those with `p`?
pub all_names : (Bytes → Bool) → List Bytes → Bool
all_names p [] = true
all_names p (n ∷ ns) = p n && all_names p ns

pub all_names_nil : (p : Bytes → Bool) → all_names p [] ≡ true
unfolding all_names
all_names_nil p = refl

pub all_names_mono :
    (p q : Bytes → Bool) (ns : List Bytes)
    → ((n : Bytes) → p n ≡ true → q n ≡ true)
    → all_names p ns ≡ true
    → all_names q ns ≡ true
unfolding all_names
all_names_mono p q [] f h = refl
all_names_mono p q (n ∷ ns) f h = ground (arith, h, f n, all_names_mono p q ns f)

module _ (is_index : Bytes → Bool) (init : Bytes → Option Bool) (known : Bytes → Bool) where
  abbrev pub starts : Option Bool → Bool
  starts none = false
  starts (some b) = b

  -- a name that stands for something: a builtin, a function that is ready, or one of `deps`
  abbrev pub is_resolved : {P : Type 0} → Program P → List Bytes → Bytes → Bool
  is_resolved p deps name =
      is_builtin_analyzer name
      || is_among name p.variables
      || is_index name
      || starts (init name)
      || is_among name deps

  resolve-known :
      (name : Bytes) (deps deps' : List Bytes)
      → resolve is_index init known name deps ≡ ok deps'
      → all_names known deps ≡ true
      → all_names known deps' ≡ true
  unfolding resolve all_names
  resolve-known name deps deps' h k = ground (arith, h, k)

  resolve-keeps :
      (name n : Bytes) (deps deps' : List Bytes)
      → resolve is_index init known name deps ≡ ok deps'
      → is_among n deps ≡ true
      → is_among n deps' ≡ true
  unfolding resolve is_among
  resolve-keeps name n deps deps' h k = ground (arith, h, k)

  resolve-resolves :
      {P : Type 0} (p : Program P) (name : Bytes) (deps deps' : List Bytes)
      → resolve is_index init known name deps ≡ ok deps'
      → is_resolved p deps' name ≡ true
  unfolding resolve is_among
  resolve-resolves p name deps deps' h = ground (arith, h, same_text_refl name)

  -- one round of the loop over the identifiers
  abbrev step : {P : Type 0} → Program P → Bytes → List Bytes → Result (List Bytes)
  step p name deps =
      if is_builtin_analyzer name || is_among name p.variables || is_index name
      then ok deps
      else resolve is_index init known name deps

  -- what a successful loop has made of the names to depend on
  pub record Resolves {P : Type 0} (p : Program P) (names deps deps' : List Bytes) : Type 0 where
    pub stays_known : all_names known deps ≡ true → all_names known deps' ≡ true
    pub all_resolved : all_names (is_resolved p deps') names ≡ true
    pub keeps : (n : Bytes) → is_among n deps ≡ true → is_among n deps' ≡ true

  pub resolved-later :
      {P : Type 0} (p : Program P) (n : Bytes) (deps deps' : List Bytes)
      → (is_among n deps ≡ true → is_among n deps' ≡ true)
      → is_resolved p deps n ≡ true
      → is_resolved p deps' n ≡ true
  resolved-later p n deps deps' keeps h = ground (arith, h, keeps)

  step-resolves :
      {P : Type 0} (p : Program P) (n : Bytes) (deps deps' : List Bytes)
      → step p n deps ≡ ok deps'
      → is_resolved p deps' n ≡ true
  step-resolves p n deps deps' h = ground (arith, h, resolve-resolves p n deps deps')

  pub resolve_all-Resolves :
      {P : Type 0} (p : Program P) (names deps deps' : List Bytes)
      → resolve_all is_index init known p names deps ≡ ok deps'
      → Resolves p names deps deps'
  unfolding resolve_all all_names
  resolve_all-Resolves p [] deps deps' h = record {
    stays_known = λ k. ground (arith, h, k);
    all_resolved = refl;
    keeps = λ n k. ground (arith, h, k);
  }
  resolve_all-Resolves p (n ∷ ns) deps deps' h = elim (Result-cases (step p n deps)) [
    | inl (e, x) ↦ absurd (ground (arith, h, x))
    | inr (d, x) ↦
        let rest = resolve_all-Resolves p ns d deps' (ground (arith, h, x)) in
        record {
          stays_known = λ k. rest.stays_known (ground (arith, x, k, resolve-known n deps d));
          all_resolved = ground (
            arith,
            rest.all_resolved,
            resolved-later p n d deps' (rest.keeps n) (step-resolves p n deps d x),
          );
          keeps = λ m k. rest.keeps m (ground (arith, x, k, resolve-keeps n m deps d));
        }
  ]
