-- ===== src/Cmd/Response/Severity.antt =====
-- The severities of cmd/response.go and those of ruleset/expr.go.
use open_gfw_next.Base.{
  ◌≡◌, Option, none, some, List, [], ◌∷◌, ◌+◌, Bytes, ℕ, arith, Bool, true, false, not, ◌&&◌,
  if◌then◌else◌, ◌==◌,
}
use open_gfw_next.Utils.Strings.{same_text, is_empty, to_lower, trim_space}
use open_gfw_next.Ruleset.{is_among, severities, normalize_severity}
use open_gfw_next.Cmd.Response.{severity_rank}

abbrev pub is_none : {A : Type 0} → Option A → Bool
is_none none = true
is_none (some _) = false

-- the place of a text in a list, from 1, and 0 for one that is not in it
pub place : Bytes → List Bytes → ℕ
place s [] = 0
place s (t ∷ ts) =
    let rest = place s ts in if same_text s t then 1 else if rest == 0 then 0 else rest + 1

-- The rank of a severity is its place among those that a rule may have, up to case and surrounding
-- spaces; and CompileExprRules refuses exactly the severities that are not blank and have no rank.
pub severity_rank-place :
    (s : Bytes)
    → (severity_rank s ≡ place (to_lower (trim_space s)) severities)
      × (is_none (normalize_severity s)
          ≡ (not (is_empty (to_lower (trim_space s))) && severity_rank s == 0))
unfolding severity_rank normalize_severity is_among place
severity_rank-place s = (ground arith, ground arith)
