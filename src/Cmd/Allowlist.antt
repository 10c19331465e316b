-- ===== src/Cmd/Allowlist.antt =====
-- cmd/allowlist.go. A set of texts is the list of its members, a map of texts an association list. The
-- functions of package net are parameters. matchDomain ranges over a map, in no order that Go
-- determines; here it is the order of the list.
pub mod Domains
pub mod Rules
pub mod Addresses
pub mod Listed
pub mod Made
use open_gfw_next.Base.{
  ℕ, ◌-◌, Bool, true, false, ◌&&◌, ◌||◌, Option, none, some, List, [], ◌∷◌, ◌++◌, Bytes,
  if◌then◌else◌, length, take, drop,
}
use open_gfw_next.Utils.Strings.{
  codes, is_empty, same_text, to_lower, trim_space, has_prefix, has_suffix, contains,
}
use open_gfw_next.Ruleset.{is_among}
use open_gfw_next.Analyzer.Values.{
  Value, Entries, Maps, Values, text, prop_map, prop_maps, values, string_map, no_maps, a_map,
  no_values, a_value, entry_of, get_combined,
}
use open_gfw_next.Cmd.Identity.{make_string_set, normalize_mac}

-- package net: ParseMAC with String of its result, ParseIP, IP.String, ParseCIDR, IPNet.Contains and
-- IPNet.String
pub record Net (Ip Cidr : Type 0) : Type 0 where
  pub parse_mac : Bytes → Option Bytes
  pub parse_ip : Bytes → Option Ip
  pub ip_string : Ip → Bytes
  pub parse_cidr : Bytes → Option Cidr
  pub holds : Cidr → Ip → Bool
  pub cidr_string : Cidr → Bytes

-- cliConfigAllowlist
pub record Config : Type 0 where
  pub enabled : Bool
  pub vm_ids : List Bytes
  pub vm_names : List Bytes
  pub macs : List Bytes
  pub ips : List Bytes
  pub cidrs : List Bytes
  pub rules : List Bytes
  pub domains : List Bytes
  pub log_suppressed : Option Bool
  pub webhook_suppressed : Bool

-- allowlist
pub record Allowlist (Cidr : Type 0) : Type 0 where
  pub vm_ids : List Bytes
  pub vm_names : List Bytes
  pub macs : List Bytes
  pub ips : List Bytes
  pub cidrs : List Cidr
  pub rules : List Bytes
  pub domains : List Bytes
  pub log_suppressed : Bool
  pub webhook_suppressed : Bool

-- the fields of alertEvent that the code reads; `none` for a map is nil, for the props a value of
-- another type
pub record Event : Type 0 where
  pub rule : Bytes
  pub ip : Option (List (Bytes × Bytes))
  pub meta : Option (List (Bytes × Bytes))
  pub props : Option (List (Bytes × Entries))

-- allowlistMatch
pub record Match : Type 0 where
  pub reason : Bytes
  pub value : Bytes

-- m[key] of a map[string]string, which is "" for a missing key and in a nil map
unfoldable pub text_in : Bytes → List (Bytes × Bytes) → Bytes
unfolding same_text
text_in key [] = []
text_in key ((k, v) ∷ m) = let later = text_in key m in if same_text k key then v else later

unfoldable pub text_of : Bytes → Option (List (Bytes × Bytes)) → Bytes
unfolding text_in
text_of key none = []
text_of key (some m) = text_in key m

-- TrimSuffix and TrimPrefix
unfoldable pub trim_suffix : Bytes → Bytes → Bytes
unfolding has_suffix
trim_suffix s suffix = if has_suffix s suffix then take (length s - length suffix) s else s

unfoldable pub trim_prefix : Bytes → Bytes → Bytes
unfolding has_prefix
trim_prefix s prefix = if has_prefix s prefix then drop (length prefix) s else s

-- normalizeDomain
unfoldable pub normalize_domain : Bytes → Bytes
unfolding to_lower trim_space trim_suffix trim_prefix
normalize_domain value =
    trim_prefix (trim_suffix (to_lower (trim_space value)) (codes ".")) (codes "*.")

-- the loop over the domains of the configuration
unfoldable pub add_domains : List Bytes → List Bytes
unfolding normalize_domain
add_domains [] = []
add_domains (raw ∷ rest) =
    let later = add_domains rest in
    let domain = normalize_domain raw in if is_empty domain then later else domain ∷ later

-- the loop of matchDomain over the allowed domains
unfoldable pub find_parent : Bytes → List Bytes → Option Bytes
unfolding has_suffix
find_parent domain [] = none
find_parent domain (allowed ∷ ds) =
    let later = find_parent domain ds in
    if has_suffix domain (codes "." ++ allowed) then some allowed else later

-- matchDomain, with `none` for ""; the members of the set are not empty
unfoldable pub match_domain : List Bytes → Bytes → Option Bytes
unfolding normalize_domain is_among find_parent
match_domain domains raw =
    let domain = normalize_domain raw in
    if is_empty domain
    then none
    else if is_among domain domains
    then some domain
    else find_parent domain domains

-- the function addDomain of eventDomains
unfoldable pub add_domain : Option Value → List Bytes
unfolding normalize_domain
add_domain (some (text t)) =
    let domain = normalize_domain t in if is_empty domain then [] else domain ∷ []
add_domain _ = []

-- the two loops of addQuestionDomains
unfoldable pub map_domains : Maps → List Bytes
unfolding add_domain entry_of
map_domains no_maps = []
map_domains (a_map q qs) = add_domain (entry_of (codes "name") q) ++ map_domains qs

unfoldable pub question_domain : Value → List Bytes
unfolding add_domain entry_of
question_domain (prop_map q) = add_domain (entry_of (codes "name") q)
question_domain (string_map q) = add_domain (entry_of (codes "name") q)
question_domain _ = []

unfoldable pub value_domains : Values → List Bytes
unfolding question_domain
value_domains no_values = []
value_domains (a_value q qs) = question_domain q ++ value_domains qs

unfoldable pub add_question_domains : Option Value → List Bytes
unfolding map_domains value_domains
add_question_domains (some (prop_maps qs)) = map_domains qs
add_question_domains (some (values qs)) = value_domains qs
add_question_domains _ = []

-- eventDomains
unfoldable pub event_domains : Event → List Bytes
unfolding add_domain add_question_domains get_combined
event_domains e = elim e.props [
  | none ↦ []
  | some props ↦
      add_domain (get_combined props (codes "tls") (codes "req.sni"))
      ++ (add_domain (get_combined props (codes "quic") (codes "req.sni"))
          ++ (add_question_domains (get_combined props (codes "dns") (codes "questions"))
              ++ add_question_domains (get_combined props (codes "dns") (codes "req.questions"))))
]
