-- ===== src/Ruleset/Fingerprints.antt =====
-- ruleset/expr.go: the matchers of fingerprints and of domain keywords. An argument of a function in
-- a rule's expression is `some` text, or `none` for a value that is no string. Of the entries of a
-- fingerprint set only the hashes are ever looked at.
pub mod Laws
use open_gfw_next.Base.{
  ℕ, Bool, true, false, not, ◌&&◌, ◌||◌, Option, none, some, List, [], ◌∷◌, ◌++◌, Bytes,
  if◌then◌else◌,
}
use open_gfw_next.Utils.Strings.{is_empty, to_lower, trim_space, trim_byte, contains, same_text}
use open_gfw_next.Ruleset.{is_among}

-- normalizeFingerprintHash
unfoldable pub normalize_fingerprint_hash : Bytes → Bytes
unfolding to_lower trim_space
normalize_fingerprint_hash hash = to_lower (trim_space hash)

-- normalizeFingerprintHashValue
unfoldable pub normalize_fingerprint_hash_value : Option Bytes → Bytes
unfolding normalize_fingerprint_hash
normalize_fingerprint_hash_value none = []
normalize_fingerprint_hash_value (some hash) = normalize_fingerprint_hash hash

-- fingerprintEntriesToMap, on the entries' hashes
unfoldable pub fingerprint_entries_to_map : List Bytes → List Bytes
unfolding normalize_fingerprint_hash
fingerprint_entries_to_map [] = []
fingerprint_entries_to_map (hash ∷ hashes) =
    let rest = fingerprint_entries_to_map hashes in
    let h = normalize_fingerprint_hash hash in if is_empty h then rest else h ∷ rest

-- matchJA3, matchJA4, matchQUICJA3 and matchQUICJA4, each on its own map
unfoldable pub match_fingerprint : List Bytes → Option Bytes → Bool
unfolding is_among normalize_fingerprint_hash_value
match_fingerprint hashes value = is_among (normalize_fingerprint_hash_value value) hashes

-- normalizeDomainKeywordName and normalizeDomainKeyword
unfoldable pub normalize_domain_keyword_name : Bytes → Bytes
unfolding to_lower trim_space
normalize_domain_keyword_name s = to_lower (trim_space s)

unfoldable pub normalize_domain_keyword : Bytes → Bytes
unfolding to_lower trim_space trim_byte
normalize_domain_keyword s = trim_byte 46 (to_lower (trim_space s))

-- domainKeywordMatchers: the keywords of each list
abbrev pub Matchers : Type 0
Matchers = List (Bytes × List Bytes)

-- m[name], empty for a missing name
unfoldable pub keywords_of : Bytes → Matchers → List Bytes
unfolding same_text
keywords_of name [] = []
keywords_of name (e ∷ es) =
    let rest = keywords_of name es in if same_text e.0 name then e.1 else rest

-- m[name] = append(m[name], keyword)
unfoldable pub add_keyword : Bytes → Bytes → Matchers → Matchers
unfolding same_text
add_keyword name keyword [] = (name, keyword ∷ []) ∷ []
add_keyword name keyword (e ∷ es) =
    let rest = add_keyword name keyword es in
    if same_text e.0 name then (e.0, e.1 ++ (keyword ∷ [])) ∷ es else e ∷ rest

-- the loop over the keywords of one list
unfoldable pub add_keywords : Bytes → List Bytes → Matchers → Matchers
unfolding add_keyword normalize_domain_keyword
add_keywords name [] m = m
add_keywords name (keyword ∷ ks) m =
    let k = normalize_domain_keyword keyword in
    add_keywords name ks (if is_empty k then m else add_keyword name k m)

-- newDomainKeywordMatchers, on the entries of the configuration in some order
unfoldable pub add_lists : Matchers → Matchers → Matchers
unfolding add_keywords normalize_domain_keyword_name
add_lists [] m = m
add_lists (e ∷ config) m =
    let name = normalize_domain_keyword_name e.0 in
    add_lists config (if is_empty name then m else add_keywords name e.1 m)

-- does a text contain a keyword?
unfoldable pub contains_any : Bytes → List Bytes → Bool
unfolding contains
contains_any s [] = false
contains_any s (k ∷ ks) = contains s k || contains_any s ks

-- match
unfoldable pub match_keywords : Matchers → Option Bytes → Option Bytes → Bool
unfolding normalize_domain_keyword normalize_domain_keyword_name keywords_of contains_any
match_keywords m none list = false
match_keywords m (some value) none = false
match_keywords m (some value) (some list) =
    let v = normalize_domain_keyword value in
    not (is_empty v) && contains_any v (keywords_of (normalize_domain_keyword_name list) m)
