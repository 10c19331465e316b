-- ===== src/Cmd/Allowlist/Listed.antt =====
-- cmd/allowlist.go: an event against the configuration that an allowlist was made of.
use open_gfw_next.Base.{
  is_some, ◌≡◌, refl, ap, ◌∙◌, Bool, true, false, not, ◌&&◌, ◌||◌, Option, none, some, List, [],
  ◌∷◌, Bytes, arith, if◌then◌else◌,
}
use open_gfw_next.Utils.Strings.{codes, is_empty}
use open_gfw_next.Ruleset.{is_among}
use open_gfw_next.Cmd.Identity.{make_string_set, normalize_mac}
use open_gfw_next.Cmd.Allowlist.{
  Net, Config, Allowlist, Event, Match, text_of, normalize_domain, add_domains, match_domain,
  event_domains,
}
use open_gfw_next.Cmd.Allowlist.Domains.{
  names, covers_domain, is_among-make_string_set, match_domain-add_domains,
}
use open_gfw_next.Cmd.Allowlist.Addresses.{covers_mac, covers_ip, covers_cidr, holds_any}
use open_gfw_next.Cmd.Allowlist.Rules.{
  some_text, or_else, rule_match, event_ips, match_macs, match_cidrs, match_ips, match_domains,
  match_event,
}

is_some-or_else : (a b : Option Match) → is_some (or_else a b) ≡ (is_some a || is_some b)
unfolding or_else
is_some-or_else none b = refl
is_some-or_else (some m) b = refl

is_some-if : (b : Bool) (m : Match) → is_some (if b then some m else none) ≡ b
is_some-if true m = refl
is_some-if false m = refl

is_some-domain :
    (o : Option Bytes) (later : Option Match)
    → is_some (elim o [
      | none ↦ later
      | some matched ↦ some (record { reason = codes "domain"; value = matched })
    ])
      ≡ (is_some o || is_some later)
is_some-domain none later = refl
is_some-domain (some d) later = refl

five :
    {a b c d e f : Bool} (m1 m2 m3 m4 m5 m6 : Option Match)
    → is_some m1 ≡ a
    → is_some m2 ≡ b
    → is_some m3 ≡ c
    → is_some m4 ≡ d
    → is_some m5 ≡ e
    → is_some m6 ≡ f
    → is_some (or_else m1 (or_else m2 (or_else m3 (or_else m4 (or_else m5 m6)))))
      ≡ (a || (b || (c || (d || (e || f)))))
five m1 m2 m3 m4 m5 m6 p1 p2 p3 p4 p5 p6 = ground (
  arith,
  is_some-or_else m1 (or_else m2 (or_else m3 (or_else m4 (or_else m5 m6)))),
  is_some-or_else m2 (or_else m3 (or_else m4 (or_else m5 m6))),
  is_some-or_else m3 (or_else m4 (or_else m5 m6)),
  is_some-or_else m4 (or_else m5 m6),
  is_some-or_else m5 m6,
)

is_some-some_text :
    (reason v : Bytes) (set : List Bytes)
    → is_some (some_text reason v set) ≡ (not (is_empty v) && is_among v set)
unfolding some_text
is_some-some_text reason v set = ground arith

module _ {Ip Cidr : Type 0} (net : Net Ip Cidr) where
  -- the three fields of an event with hardware addresses
  unfoldable pub any_mac : Config → Event → List Bytes → Bool
  any_mac config e [] = false
  any_mac config e (field ∷ fields) =
      let mac = normalize_mac net.parse_mac (text_of field e.meta) in
      (not (is_empty mac) && covers_mac net config.macs mac) || any_mac config e fields

  unfoldable pub any_ip : Config → List Ip → Bool
  any_ip config [] = false
  any_ip config (ip ∷ ips) =
      (covers_ip net config.ips ip || covers_cidr net config.cidrs ip) || any_ip config ips

  unfoldable pub any_domain : Config → List Bytes → Bool
  any_domain config [] = false
  any_domain config (d ∷ ds) =
      (not (is_empty (normalize_domain d)) && covers_domain config.domains (normalize_domain d))
      || any_domain config ds

  unfoldable pub has_name : List Bytes → Bytes → Bool
  has_name raws v = not (is_empty v) && names raws v

  -- Is the event's machine, one of its addresses, its rule or one of its domains in the configuration?
  unfoldable pub is_listed : Config → Event → Bool
  unfolding any_mac any_ip any_domain has_name
  is_listed config e =
      has_name config.vm_ids (text_of (codes "vm.id") e.meta)
      || (has_name config.vm_names (text_of (codes "vm.name") e.meta)
          || (any_mac config e (codes "vm.mac" ∷ (codes "l2.src" ∷ (codes "l2.dst" ∷ [])))
              || (any_ip config (event_ips net e)
                  || (names config.rules e.rule || any_domain config (event_domains e)))))

  -- what an allowlist has in common with the configuration that it was made of
  pub record IsMade (config : Config) (a : Allowlist Cidr) : Type 0 where
    pub ids : a.vm_ids ≡ make_string_set config.vm_ids
    pub vms : a.vm_names ≡ make_string_set config.vm_names
    pub rule_names : a.rules ≡ make_string_set config.rules
    pub domain_names : a.domains ≡ add_domains config.domains
    pub macs_covered : (v : Bytes) → is_among v a.macs ≡ covers_mac net config.macs v
    pub ips_covered :
        (ip : Ip)
        → (is_among (net.ip_string ip) a.ips || holds_any net a.cidrs ip)
          ≡ (covers_ip net config.ips ip || covers_cidr net config.cidrs ip)

  text_listed :
      (reason v : Bytes) (set raws : List Bytes)
      → set ≡ make_string_set raws
      → is_some (some_text reason v set) ≡ has_name raws v
  unfolding has_name
  text_listed reason v set raws e =
      is_some-some_text reason v set
      ∙ ap (λ s. not (is_empty v) && is_among v s) e
      ∙ ap (λ b. not (is_empty v) && b) (is_among-make_string_set raws v)

  match_macs-any_mac :
      (config : Config) (a : Allowlist Cidr) (e : Event) (fields : List Bytes)
      → IsMade config a
      → is_some (match_macs net a e fields) ≡ any_mac config e fields
  unfolding match_macs any_mac
  match_macs-any_mac config a e [] made = refl
  match_macs-any_mac config a e (field ∷ fields) made =
      let mac = normalize_mac net.parse_mac (text_of field e.meta) in
      is_some-or_else (some_text field mac a.macs) (match_macs net a e fields)
      ∙ ap (λ b. b || is_some (match_macs net a e fields))
          (is_some-some_text field mac a.macs
            ∙ ap (λ b. not (is_empty mac) && b) (made.macs_covered mac))
      ∙ ap (λ b. (not (is_empty mac) && covers_mac net config.macs mac) || b)
          (match_macs-any_mac config a e fields made)

  match_cidrs-holds_any :
      (ns : List Cidr) (ip : Ip) → is_some (match_cidrs net ns ip) ≡ holds_any net ns ip
  unfolding match_cidrs holds_any
  match_cidrs-holds_any [] ip = refl
  match_cidrs-holds_any (n ∷ ns) ip = ground (arith, match_cidrs-holds_any ns ip)

  match_ips-any_ip :
      (config : Config) (a : Allowlist Cidr) (ips : List Ip)
      → IsMade config a
      → is_some (match_ips net a ips) ≡ any_ip config ips
  unfolding match_ips any_ip
  match_ips-any_ip config a [] made = refl
  match_ips-any_ip config a (ip ∷ ips) made = ground (
    arith,
    match_ips-any_ip config a ips made,
    is_some-or_else (match_cidrs net a.cidrs ip) (match_ips net a ips),
    match_cidrs-holds_any a.cidrs ip,
    made.ips_covered ip,
  )

  match_domains-any_domain :
      (config : Config) (a : Allowlist Cidr) (ds : List Bytes)
      → IsMade config a
      → is_some (match_domains net a ds) ≡ any_domain config ds
  unfolding match_domains any_domain
  match_domains-any_domain config a [] made = refl
  match_domains-any_domain config a (d ∷ ds) made =
      is_some-domain (match_domain a.domains d) (match_domains net a ds)
      ∙ ap (λ b. b || is_some (match_domains net a ds))
          (ap (λ s. is_some (match_domain s d)) made.domain_names
            ∙ match_domain-add_domains config.domains d)
      ∙ ap
          (λ b.
            (not (is_empty (normalize_domain d))
              && covers_domain config.domains (normalize_domain d))
            || b)
          (match_domains-any_domain config a ds made)

  rule_listed :
      (config : Config) (a : Allowlist Cidr) (e : Event)
      → IsMade config a
      → is_some (rule_match a.rules e.rule) ≡ names config.rules e.rule
  unfolding rule_match
  rule_listed config a e made =
      is_some-if (is_among e.rule a.rules) (record { reason = codes "rule"; value = e.rule })
      ∙ ap (is_among e.rule) made.rule_names
      ∙ is_among-make_string_set config.rules e.rule

  pub match_event-is_listed :
      (config : Config) (a : Allowlist Cidr) (e : Event)
      → IsMade config a
      → is_some (match_event net a e) ≡ is_listed config e
  unfolding match_event is_listed
  match_event-is_listed config a e made =
      five _ _ _ _ _ _
        (text_listed (codes "vm.id") (text_of (codes "vm.id") e.meta) a.vm_ids config.vm_ids
          made.ids)
        (text_listed (codes "vm.name") (text_of (codes "vm.name") e.meta) a.vm_names config.vm_names
          made.vms)
        (match_macs-any_mac config a e (codes "vm.mac" ∷ (codes "l2.src" ∷ (codes "l2.dst" ∷ [])))
          made)
        (match_ips-any_ip config a (event_ips net e) made) (rule_listed config a e made)
        (match_domains-any_domain config a (event_domains e) made)
