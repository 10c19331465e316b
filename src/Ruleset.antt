-- ===== src/Ruleset.antt =====
-- ruleset/expr.go: matching a stream against compiled rules. `P` is the type of compiled programs,
-- `E` that of the environment that streamInfoToExprEnv builds and `M` that of modifier instances; the
-- virtual machine is the parameter `run`. The calls of the Logger come back with the result.
pub mod Matching
pub mod Compile
pub mod Fingerprints
use open_gfw_next.Base.{
  Bool, true, false, ◌||◌, Option, none, some, String, List, [], ◌∷◌, ◌++◌, Bytes, if◌then◌else◌,
}
use open_gfw_next.Engine.{Action, maybe, allow, block, drop_action, modify}
use open_gfw_next.Utils.Strings.{codes, same_text, is_empty, to_lower, trim_space}

-- compiledExprRule
pub record Rule (P M : Type 0) : Type 0 where
  pub name : Bytes
  pub action : Option Action
  pub log : Bool
  pub severity : Bytes
  pub mod_instance : Option M
  pub program : P

-- what `vm.Run` returns: an error, a Boolean, or another value
pub data Value : Type 0 where
  failed : Value
  boolean : Bool → Value
  other_value : Value

-- the calls of Logger.MatchError and Logger.Log
pub data Call : Type 0 where
  match_error : Bytes → Call
  logged : Bytes → Bytes → Call

-- MatchResult
pub record MatchResult (M : Type 0) : Type 0 where
  pub action : Action
  pub mod_instance : Option M

module _ {P E M : Type 0} (run : P → E → Value) where
  abbrev calls_of : Rule P M → Value → List Call
  calls_of r failed = match_error r.name ∷ []
  calls_of r other_value = []
  calls_of r (boolean false) = []
  calls_of r (boolean true) = if r.log then logged r.name r.severity ∷ [] else []

  abbrev result_of : Rule P M → Value → Option (MatchResult M)
  result_of r (boolean true) = elim (r.action) [
    | none ↦ none
    | some a ↦ some (record { action = a; mod_instance = r.mod_instance })
  ]
  result_of r _ = none

  -- one round of the loop: the calls, and the result if the round returns
  unfoldable pub match_rule : E → Rule P M → List Call × Option (MatchResult M)
  match_rule env r = let v = run r.program env in (calls_of r v, result_of r v)

  -- Match
  unfoldable pub match_rules : E → List (Rule P M) → List Call × MatchResult M
  unfolding match_rule
  match_rules env [] = ([], record { action = maybe; mod_instance = none })
  match_rules env (r ∷ rs) =
      let (calls, result) = match_rule env r in
      let rest = match_rules env rs in
      elim result [ none ↦ (calls ++ rest.0, rest.1) | some m ↦ (calls, m) ]

-- the severities that have a name
abbrev pub severities : List Bytes
severities =
    codes "debug"
    ∷ (codes "info" ∷ (codes "low" ∷ (codes "medium" ∷ (codes "high" ∷ (codes "critical" ∷ [])))))

unfoldable pub is_among : Bytes → List Bytes → Bool
unfolding same_text
is_among s [] = false
is_among s (t ∷ ts) = same_text s t || is_among s ts

-- normalizeSeverity; `none` is the error
unfoldable pub normalize_severity : Bytes → Option Bytes
unfolding is_among to_lower trim_space
normalize_severity severity =
    let s = to_lower (trim_space severity) in
    if is_empty s then some (codes "info") else if is_among s severities then some s else none

-- actionStringToAction
unfoldable pub action_string_to_action : Bytes → Option Action
unfolding same_text to_lower
action_string_to_action action =
    let s = to_lower action in
    if same_text s (codes "allow")
    then some allow
    else if same_text s (codes "block")
    then some block
    else if same_text s (codes "drop")
    then some drop_action
    else if same_text s (codes "modify")
    then some modify
    else none

-- isBuiltInAnalyzer
unfoldable pub is_builtin_analyzer : Bytes → Bool
unfolding is_among
is_builtin_analyzer name =
    is_among name
      (codes "id" ∷ (codes "proto" ∷ (codes "ip" ∷ (codes "port" ∷ (codes "meta" ∷ [])))))
