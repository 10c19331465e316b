-- ===== src/Cmd/Allowlist/Rules.antt =====
-- cmd/allowlist.go: newAllowlist and Match.
use open_gfw_next.Base.{
  Bool, true, false, Option, none, some, List, [], ◌∷◌, ◌++◌, Bytes, if◌then◌else◌,
}
use open_gfw_next.Utils.Strings.{codes, is_empty, trim_space, contains}
use open_gfw_next.Ruleset.{is_among}
use open_gfw_next.Cmd.Identity.{make_string_set, normalize_mac}
use open_gfw_next.Cmd.Allowlist.{
  Net, Config, Allowlist, Event, Match, text_of, add_domains, match_domain, event_domains,
}

unfoldable pub some_text : Bytes → Bytes → List Bytes → Option Match
unfolding is_among
some_text reason value set =
    if is_empty value
    then none
    else if is_among value set
    then some (record { reason = reason; value = value })
    else none

-- the check of the rule
unfoldable pub rule_match : List Bytes → Bytes → Option Match
unfolding is_among
rule_match rules rule =
    if is_among rule rules then some (record { reason = codes "rule"; value = rule }) else none

-- the first check that answers
unfoldable pub or_else : Option Match → Option Match → Option Match
or_else none later = later
or_else (some m) later = some m

abbrev pub option_list : {A : Type 0} → Option A → List A
option_list none = []
option_list (some x) = x ∷ []

abbrev pub with_default : Option Bool → Bool
with_default none = true
with_default (some b) = b

module _ {Ip Cidr : Type 0} (net : Net Ip Cidr) where
  -- the loop over the MACs; `none` is an error
  unfoldable pub add_macs : List Bytes → Option (List Bytes)
  unfolding trim_space normalize_mac
  add_macs [] = some []
  add_macs (raw ∷ rest) =
      let later = add_macs rest in
      let mac = normalize_mac net.parse_mac raw in
      if is_empty (trim_space raw) then later else elim (net.parse_mac mac) [
        | none ↦ none
        | some m ↦ elim later [ none ↦ none | some macs ↦ some (mac ∷ macs) ]
      ]

  -- an address or a network of the configuration, in front of the others
  unfoldable pub add_ip : Bytes → Option (List Bytes × List Cidr) → Option (List Bytes × List Cidr)
  unfolding contains
  add_ip raw none = none
  add_ip raw (some (ips, cidrs)) =
      let network : Option (List Bytes × List Cidr) = elim (net.parse_cidr raw) [
        | none ↦ none
        | some n ↦ some (ips, n ∷ cidrs)
      ] in
      let address : Option (List Bytes × List Cidr) = elim (net.parse_ip raw) [
        | none ↦ none
        | some i ↦ some (net.ip_string i ∷ ips, cidrs)
      ] in
      if contains raw (codes "/") then network else address

  -- the loop over the IPs
  unfoldable pub add_ips : List Bytes → Option (List Bytes × List Cidr)
  unfolding trim_space add_ip
  add_ips [] = some ([], [])
  add_ips (raw ∷ rest) =
      let later = add_ips rest in
      let s = trim_space raw in if is_empty s then later else add_ip s later

  -- the loop over the CIDRs
  unfoldable pub add_cidrs : List Bytes → Option (List Cidr)
  unfolding trim_space
  add_cidrs [] = some []
  add_cidrs (raw ∷ rest) =
      let later = add_cidrs rest in
      let s = trim_space raw in
      if is_empty s then later else elim (net.parse_cidr s) [
        | none ↦ none
        | some n ↦ elim later [ none ↦ none | some ns ↦ some (n ∷ ns) ]
      ]

  -- newAllowlist of a configuration that is enabled
  unfoldable pub compile :
      Config
      → Option (List Bytes)
      → Option (List Bytes × List Cidr)
      → Option (List Cidr)
      → Option (Allowlist Cidr)
  unfolding make_string_set add_domains
  compile config (some macs) (some (ips, networks)) (some cidrs) = some (record {
    vm_ids = make_string_set config.vm_ids;
    vm_names = make_string_set config.vm_names;
    macs = macs;
    ips = ips;
    cidrs = networks ++ cidrs;
    rules = make_string_set config.rules;
    domains = add_domains config.domains;
    log_suppressed = with_default config.log_suppressed;
    webhook_suppressed = config.webhook_suppressed;
  })
  compile config _ _ _ = none

  -- newAllowlist: `none` is an error, `some none` is the nil of a configuration that is not enabled
  unfoldable pub new_allowlist : Config → Option (Option (Allowlist Cidr))
  unfolding compile add_macs add_ips add_cidrs
  new_allowlist config =
      let made : Option (Option (Allowlist Cidr)) =
        elim (compile config (add_macs config.macs) (add_ips config.ips) (add_cidrs config.cidrs)) [
          | none ↦ none
          | some a ↦ some (some a)
        ] in
      if config.enabled then made else some none

  -- net.ParseIP of the texts under some keys
  unfoldable pub ips_under : List Bytes → Option (List (Bytes × Bytes)) → List Ip
  unfolding text_of
  ips_under keys none = []
  ips_under [] (some m) = []
  ips_under (key ∷ keys) (some m) =
      option_list (net.parse_ip (text_of key (some m))) ++ ips_under keys (some m)

  -- eventIPs
  unfoldable pub event_ips : Event → List Ip
  unfolding ips_under
  event_ips e =
      ips_under (codes "src" ∷ (codes "dst" ∷ [])) e.ip ++ ips_under (codes "vm.ip" ∷ []) e.meta

  -- the loop over the MAC fields of an event
  unfoldable pub match_macs : Allowlist Cidr → Event → List Bytes → Option Match
  unfolding text_of normalize_mac some_text or_else
  match_macs a e [] = none
  match_macs a e (field ∷ fields) =
      or_else (some_text field (normalize_mac net.parse_mac (text_of field e.meta)) a.macs)
        (match_macs a e fields)

  -- the loop over the networks
  unfoldable pub match_cidrs : List Cidr → Ip → Option Match
  match_cidrs [] ip = none
  match_cidrs (n ∷ ns) ip =
      let later = match_cidrs ns ip in
      if net.holds n ip
      then some (record { reason = codes "cidr"; value = net.cidr_string n })
      else later

  -- the loop over the addresses of an event
  unfoldable pub match_ips : Allowlist Cidr → List Ip → Option Match
  unfolding is_among or_else match_cidrs
  match_ips a [] = none
  match_ips a (ip ∷ ips) =
      let later = or_else (match_cidrs a.cidrs ip) (match_ips a ips) in
      if is_among (net.ip_string ip) a.ips
      then some (record { reason = codes "ip"; value = net.ip_string ip })
      else later

  -- the loop over the domains of an event
  unfoldable pub match_domains : Allowlist Cidr → List Bytes → Option Match
  unfolding match_domain
  match_domains a [] = none
  match_domains a (d ∷ ds) =
      let later = match_domains a ds in
      elim (match_domain a.domains d) [
        | none ↦ later
        | some matched ↦ some (record { reason = codes "domain"; value = matched })
      ]

  -- Match of an allowlist that is not nil
  unfoldable pub match_event : Allowlist Cidr → Event → Option Match
  unfolding text_of or_else rule_match some_text match_macs match_ips match_domains event_ips
      event_domains
  match_event a e = or_else (some_text (codes "vm.id") (text_of (codes "vm.id") e.meta) a.vm_ids) (
      or_else (some_text (codes "vm.name") (text_of (codes "vm.name") e.meta) a.vm_names) (
        or_else (match_macs a e (codes "vm.mac" ∷ (codes "l2.src" ∷ (codes "l2.dst" ∷ [])))) (
          or_else (match_ips a (event_ips e))
            (or_else (rule_match a.rules e.rule) (match_domains a (event_domains e))))))

  -- Match
  unfoldable pub match_allowlist : Option (Allowlist Cidr) → Event → Option Match
  unfolding match_event
  match_allowlist none e = none
  match_allowlist (some a) e = match_event a e

-- LogSuppressed and WebhookSuppressed
abbrev pub is_log_suppressed : {Cidr : Type 0} → Option (Allowlist Cidr) → Bool
is_log_suppressed none = false
is_log_suppressed (some a) = a.log_suppressed

abbrev pub is_webhook_suppressed : {Cidr : Type 0} → Option (Allowlist Cidr) → Bool
is_webhook_suppressed none = false
is_webhook_suppressed (some a) = a.webhook_suppressed
