-- ===== src/Ruleset/Matching.antt =====
-- What `Match` of ruleset/expr.go returns and logs, by the first rule that decides.
use open_gfw_next.Base.{
  ◌≡◌, refl, Bool, true, false, ◌&&◌, Option, none, some, List, [], ◌∷◌, arith, if◌then◌else◌,
}
use open_gfw_next.Engine.{maybe}
use open_gfw_next.Ruleset.{
  Rule, Value, failed, boolean, Call, match_error, logged, MatchResult, match_rules,
}

abbrev holds : Value → Bool
holds (boolean b) = b
holds _ = false

abbrev is_error : Value → Bool
is_error failed = true
is_error _ = false

abbrev pub acts : {P M : Type 0} → Rule P M → Bool
acts r = elim (r.action) [ none ↦ false | some a ↦ true ]

module _ {P E M : Type 0} (run : P → E → Value) (env : E) where
  -- a rule that ends the match: its expression is true, and it has an action
  abbrev pub decides : Rule P M → Bool
  decides r = holds (run r.program env) && acts r

  -- the rules that are run: the first that decides, and those before it
  pub reached : List (Rule P M) → List (Rule P M)
  reached [] = []
  reached (r ∷ rs) = let rest = reached rs in if decides r then r ∷ [] else r ∷ rest

  pub first_deciding : List (Rule P M) → Option (Rule P M)
  first_deciding [] = none
  first_deciding (r ∷ rs) = let rest = first_deciding rs in if decides r then some r else rest

  -- the calls for the rules that are run: an error, or a true rule that logs
  pub calls_for : List (Rule P M) → List Call
  calls_for [] = []
  calls_for (r ∷ rs) =
      let rest = calls_for rs in
      let v = run r.program env in
      if is_error v
      then match_error r.name ∷ rest
      else if holds v && r.log
      then logged r.name r.severity ∷ rest
      else rest

  abbrev pub verdict : Option (Rule P M) → MatchResult M
  verdict none = record { action = maybe; mod_instance = none }
  verdict (some r) = elim (r.action) [
    | none ↦ record { action = maybe; mod_instance = none }
    | some a ↦ record { action = a; mod_instance = r.mod_instance }
  ]

  -- `Match` takes action and modifier of the first rule that is true and has an action, and `maybe`
  -- if there is none. It runs the rules up to that one: each that fails is reported and passed over,
  -- each that is true and logs is logged, in their order, and nothing else is.
  pub match_rules-first :
      (rs : List (Rule P M))
      → match_rules run env rs ≡ (calls_for (reached rs), verdict (first_deciding rs))
  unfolding match_rules calls_for reached first_deciding
  match_rules-first [] = refl
  match_rules-first (r ∷ rs) = ground (arith, match_rules-first rs)

  -- the rules with an action
  pub acting : List (Rule P M) → List (Rule P M)
  acting [] = []
  acting (r ∷ rs) = let rest = acting rs in if acts r then r ∷ rest else rest

  -- Rules that only log have no influence on what `Match` returns.
  pub match_rules-acting :
      (rs : List (Rule P M)) → (match_rules run env rs).1 ≡ (match_rules run env (acting rs)).1
  unfolding match_rules acting
  match_rules-acting [] = refl
  match_rules-acting (r ∷ rs) = ground (arith, match_rules-acting rs)
