-- ===== src/Ruleset/Fingerprints/Laws.antt =====
-- The matchers of ruleset/expr.go, as tests on their configuration.
use open_gfw_next.Base.{
  ◌≡◌, refl, ◌∙◌, Bool, false, ◌&&◌, ◌||◌, not, Option, none, some, List, [], ◌∷◌, ◌++◌, Bytes,
  arith,
}
use open_gfw_next.Utils.Strings.{is_empty, same_text, contains}
use open_gfw_next.Utils.Strings.Laws.{same_text_iff}
use open_gfw_next.Ruleset.{is_among}
use open_gfw_next.Ruleset.Fingerprints.{
  normalize_fingerprint_hash, fingerprint_entries_to_map, match_fingerprint,
  normalize_domain_keyword_name, normalize_domain_keyword, Matchers, keywords_of, add_keyword,
  add_keywords, add_lists, contains_any, match_keywords,
}

-- Is a hash that is not blank in the list, up to case and the spaces around it?
pub has_hash : Bytes → List Bytes → Bool
has_hash h [] = false
has_hash h (e ∷ es) =
    not (is_empty h) && same_text h (normalize_fingerprint_hash e) || has_hash h es

is_among-map :
    (h : Bytes) (es : List Bytes) → is_among h (fingerprint_entries_to_map es) ≡ has_hash h es
unfolding has_hash fingerprint_entries_to_map is_among
is_among-map h [] = refl
is_among-map h (e ∷ es) =
    ground (arith, is_among-map h es, same_text_iff h (normalize_fingerprint_hash e))

has_hash_nil : (es : List Bytes) → has_hash [] es ≡ false
unfolding has_hash
has_hash_nil [] = refl
has_hash_nil (e ∷ es) = ground (arith, has_hash_nil es)

-- A fingerprint matches exactly if it is a string that is not blank, and an entry of the set has the
-- same hash up to case and surrounding spaces.
pub match_fingerprint-has_hash :
    (es : List Bytes) (value : Option Bytes)
    → match_fingerprint (fingerprint_entries_to_map es) value
      ≡ (elim value [ none ↦ false | some v ↦ has_hash (normalize_fingerprint_hash v) es ])
unfolding match_fingerprint
match_fingerprint-has_hash es none = is_among-map [] es ∙ has_hash_nil es
match_fingerprint-has_hash es (some v) = is_among-map (normalize_fingerprint_hash v) es

-- Does a keyword that is not blank occur in the text, up to case, spaces and dots around it?
pub occurs_in : Bytes → List Bytes → Bool
occurs_in v [] = false
occurs_in v (k ∷ ks) =
    not (is_empty (normalize_domain_keyword k)) && contains v (normalize_domain_keyword k)
    || occurs_in v ks

-- the same, in the lists of the configuration with this name
pub occurs : Bytes → Bytes → Matchers → Bool
occurs v name [] = false
occurs v name (e ∷ config) =
    let key = normalize_domain_keyword_name e.0 in
    not (is_empty key) && same_text key name && occurs_in v e.1 || occurs v name config

contains_any-append :
    (v : Bytes) (ks : List Bytes) (k : Bytes)
    → contains_any v (ks ++ (k ∷ [])) ≡ (contains_any v ks || contains v k)
unfolding contains_any
contains_any-append v [] k = ground arith
contains_any-append v (j ∷ ks) k = ground (arith, contains_any-append v ks k)

abbrev found : Bytes → Bytes → Matchers → Bool
found v n m = contains_any v (keywords_of n m)

found-add_keyword :
    (v n name k : Bytes) (m : Matchers)
    → found v n (add_keyword name k m) ≡ (found v n m || same_text name n && contains v k)
unfolding add_keyword keywords_of contains_any
found-add_keyword v n name k [] = ground arith
found-add_keyword v n name k (e ∷ m) = ground (
  arith,
  found-add_keyword v n name k m,
  contains_any-append v e.1 k,
  same_text_iff e.0 name,
  same_text_iff e.0 n,
  same_text_iff name n,
)

found-add_keywords :
    (v n name : Bytes) (ks : List Bytes) (m : Matchers)
    → found v n (add_keywords name ks m) ≡ (found v n m || same_text name n && occurs_in v ks)
unfolding add_keywords occurs_in
found-add_keywords v n name [] m = ground arith
found-add_keywords v n name (k ∷ ks) m =
    let key = normalize_domain_keyword k in
    ground (
      arith,
      found-add_keywords v n name ks m,
      found-add_keyword v n name key m,
      found-add_keywords v n name ks (add_keyword name key m),
    )

found-add_lists :
    (v n : Bytes) (config m : Matchers)
    → found v n (add_lists config m) ≡ (found v n m || occurs v n config)
unfolding add_lists occurs
found-add_lists v n [] m = ground arith
found-add_lists v n (e ∷ config) m =
    let name = normalize_domain_keyword_name e.0 in
    ground (
      arith,
      found-add_lists v n config m,
      found-add_keywords v n name e.1 m,
      found-add_lists v n config (add_keywords name e.1 m),
    )

nothing_found : (v n : Bytes) → found v n [] ≡ false
unfolding keywords_of contains_any
nothing_found v n = refl

-- On two strings, `domain_keyword` holds exactly if the text is not blank, and a keyword
-- that is not blank of a list with that name occurs in the text; names and keywords are compared
-- without case and surrounding spaces, and texts and keywords without surrounding dots too.
pub match_keywords-occurs :
    (config : Matchers) (value list : Bytes)
    → match_keywords (add_lists config []) (some value) (some list) ≡ (
        let v = normalize_domain_keyword value in
        not (is_empty v) && occurs v (normalize_domain_keyword_name list) config)
unfolding match_keywords
match_keywords-occurs config value list = ground (
  arith,
  nothing_found (normalize_domain_keyword value) (normalize_domain_keyword_name list),
  found-add_lists (normalize_domain_keyword value) (normalize_domain_keyword_name list) config [],
)
