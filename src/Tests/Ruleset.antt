-- ===== src/Tests/Ruleset.antt =====
-- Rules at concrete inputs. A program is its answer.
use open_gfw_next.Base.{
  String, ◌≡◌, refl, Bool, true, false, not, ◌&&◌, Option, none, some, List, [], ◌∷◌, Bytes,
}
use open_gfw_next.Utils.ByteBuffer.{is_prefix}
use open_gfw_next.Engine.{Action, allow, block}
use open_gfw_next.Utils.Strings.{codes, same_text, is_empty}
use open_gfw_next.Ruleset.{
  is_builtin_analyzer, Rule, Value, failed, boolean, match_error, logged, match_rules,
}
use open_gfw_next.Ruleset.Matching.{
  calls_for, reached, verdict, first_deciding, acting, match_rules-first, match_rules-acting,
}
use open_gfw_next.Ruleset.Compile.{ExprRule, Program, ok, err, unknown_identifier, compile_rules}
use open_gfw_next.Ruleset.Compile.Laws.{all_names}
use open_gfw_next.Ruleset.Compile.Errors.{Judges, compile_rules-Judges}
use open_gfw_next.Ruleset.Compile.Sound.{AllSound, compile_rules_sound}
use open_gfw_next.Ruleset.Fingerprints.{
  Matchers, add_lists, match_keywords, normalize_domain_keyword, normalize_domain_keyword_name,
}
use open_gfw_next.Ruleset.Fingerprints.Laws.{occurs, match_keywords-occurs}

abbrev answer : Value → Bool → Value
answer v env = v

abbrev rule : String → Option Action → Bool → Value → Rule Value Bool
rule name action log v = record {
  name = codes name;
  action = action;
  log = log;
  severity = codes "info";
  mod_instance = none;
  program = v;
}

abbrev four_rules : List (Rule Value Bool)
four_rules =
    rule "a" (some allow) false failed
    ∷ (rule "b" none true (boolean true)
        ∷ (rule "c" (some block) true (boolean true)
            ∷ (rule "d" (some allow) true (boolean true) ∷ [])))

-- the run at these rules
four_rules_run : match_rules answer true four_rules ≡ (
  match_error (codes "a")
      ∷ (logged (codes "b") (codes "info") ∷ (logged (codes "c") (codes "info") ∷ [])),
  record { action = block; mod_instance = none },
)
unfolding match_rules
four_rules_run = refl

match_rules-first_example : match_rules answer true four_rules ≡ (
  calls_for answer true (reached answer true four_rules),
  verdict answer true (first_deciding answer true four_rules),
)
match_rules-first_example = match_rules-first answer true four_rules

match_rules-acting_example :
    (match_rules answer true four_rules).1
    ≡ (match_rules answer true (acting answer true four_rules)).1
match_rules-acting_example = match_rules-acting answer true four_rules

-- an expression is one identifier
abbrev compile_name : Bytes → Option (Program Bytes)
compile_name s = some (record { program = s; identifiers = s ∷ []; variables = []; patched = true })

abbrev no_index : Bytes → Bool
no_index s = false

abbrev no_function : Bytes → Option Bool
no_function s = none

abbrev tls_known : Bytes → Bool
tls_known s = same_text s (codes "tls")

abbrev no_modifier : Bytes → Option (Bool → Option Bool)
no_modifier s = none

abbrev source : String → String → ExprRule Bool
source action expr = record {
  name = codes "r";
  action = codes action;
  log = true;
  severity = codes " High";
  modifier_name = [];
  modifier_args = true;
  expr = codes expr;
}

abbrev compiled : Rule Bytes Bool
compiled = record {
  name = codes "r";
  action = some block;
  log = true;
  severity = codes "high";
  mod_instance = none;
  program = codes "tls";
}

compiled_run :
    compile_rules compile_name no_index no_function tls_known no_modifier
      (source "Block" "tls" ∷ [])
      []
    ≡ ok (compiled ∷ [], codes "tls" ∷ [])
unfolding compile_rules is_builtin_analyzer
compiled_run = refl

compile_rules_sound_example :
    AllSound compile_name no_index no_function tls_known no_modifier
      (codes "tls" ∷ [])
      (source "Block" "tls" ∷ [])
      (compiled ∷ [])
    × (all_names tls_known (codes "tls" ∷ []) ≡ true)
compile_rules_sound_example =
    compile_rules_sound compile_name no_index no_function tls_known no_modifier
      (source "Block" "tls" ∷ []) (compiled ∷ []) (codes "tls" ∷ []) compiled_run

compile_rules-Judges_example :
    Judges compile_name no_index no_function tls_known no_modifier
      (source "Block" "tls" ∷ (source "allow" "ssh" ∷ (source "no" "tls" ∷ [])))
      (compile_rules compile_name no_index no_function tls_known no_modifier
        (source "Block" "tls" ∷ (source "allow" "ssh" ∷ (source "no" "tls" ∷ [])))
        [])
compile_rules-Judges_example =
    compile_rules-Judges compile_name no_index no_function tls_known no_modifier
      (source "Block" "tls" ∷ (source "allow" "ssh" ∷ (source "no" "tls" ∷ [])))

failed_run :
    compile_rules compile_name no_index no_function tls_known no_modifier
      (source "Block" "tls" ∷ (source "allow" "ssh" ∷ (source "no" "tls" ∷ [])))
      []
    ≡ err (unknown_identifier (codes "ssh"))
unfolding compile_rules is_builtin_analyzer
failed_run = refl

abbrev lists : Matchers
lists = (codes "Ads", codes ".track. " ∷ []) ∷ []

keyword_run :
    match_keywords (add_lists lists []) (some (codes "x.TRACKER.net")) (some (codes "ads")) ≡ true
unfolding match_keywords add_lists is_prefix
keyword_run = refl

match_keywords-occurs_example :
    match_keywords (add_lists lists []) (some (codes "x.TRACKER.net")) (some (codes "ads")) ≡ (
      not (is_empty (normalize_domain_keyword (codes "x.TRACKER.net")))
      && occurs
          (normalize_domain_keyword (codes "x.TRACKER.net"))
          (normalize_domain_keyword_name (codes "ads"))
          lists)
match_keywords-occurs_example = match_keywords-occurs lists (codes "x.TRACKER.net") (codes "ads")
