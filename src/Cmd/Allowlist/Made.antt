-- ===== src/Cmd/Allowlist/Made.antt =====
-- cmd/allowlist.go: newAllowlist, and Match on what it makes.
use open_gfw_next.Base.{
  is_some, subst, ◌≡◌, refl, ap, ◌∙◌, ◌||◌, Option, none, some, List, ◌++◌, Bytes, arith,
  Option-cases, inl, inr,
}
use open_gfw_next.Ruleset.{is_among}
use open_gfw_next.Cmd.Identity.{make_string_set}
use open_gfw_next.Cmd.Allowlist.{Net, Config, Allowlist, Event, add_domains}
use open_gfw_next.Cmd.Allowlist.Addresses.{
  covers_ip, covers_cidr, holds_any, holds_any-append, has_ip, add_macs-covers_mac,
  add_ips-covers_ip, add_cidrs-covers_cidr,
}
use open_gfw_next.Cmd.Allowlist.Rules.{
  with_default, add_macs, add_ips, add_cidrs, compile, new_allowlist, match_event,
}
use open_gfw_next.Cmd.Allowlist.Listed.{is_listed, IsMade, match_event-is_listed}

module _ {Ip Cidr : Type 0} (net : Net Ip Cidr) where
  -- the allowlist that `compile` makes
  abbrev allowlist_of : Config → List Bytes → List Bytes → List Cidr → List Cidr → Allowlist Cidr
  allowlist_of config ms ips networks ns = record {
    vm_ids = make_string_set config.vm_ids;
    vm_names = make_string_set config.vm_names;
    macs = ms;
    ips = ips;
    cidrs = networks ++ ns;
    rules = make_string_set config.rules;
    domains = add_domains config.domains;
    log_suppressed = with_default config.log_suppressed;
    webhook_suppressed = config.webhook_suppressed;
  }

  together :
      (config : Config) (p : List Bytes × List Cidr) (ns : List Cidr) (ip : Ip)
      → has_ip net p ip ≡ covers_ip net config.ips ip
      → holds_any net ns ip ≡ covers_cidr net config.cidrs ip
      → (is_among (net.ip_string ip) p.0 || holds_any net (p.1 ++ ns) ip)
        ≡ (covers_ip net config.ips ip || covers_cidr net config.cidrs ip)
  unfolding has_ip
  together config p ns ip i c = ground (arith, i, c, holds_any-append net p.1 ns ip)

  IsMade-parts :
      (config : Config) (a : Allowlist Cidr) (ms : List Bytes) (p : List Bytes × List Cidr)
      (ns : List Cidr)
      → add_macs net config.macs ≡ some ms
      → add_ips net config.ips ≡ some p
      → add_cidrs net config.cidrs ≡ some ns
      → compile net config (some ms) (some p) (some ns) ≡ some a
      → IsMade net config a
  unfolding compile
  IsMade-parts config a ms p ns m i c e =
      let same : allowlist_of config ms p.0 p.1 ns ≡ a = cc in
      let made : IsMade net config (allowlist_of config ms p.0 p.1 ns) = record {
        ids = refl;
        vms = refl;
        rule_names = refl;
        domain_names = refl;
        macs_covered = λ v. add_macs-covers_mac net config.macs ms v m;
        ips_covered = λ ip.
            together config p ns ip (add_ips-covers_ip net config.ips p ip i)
              (add_cidrs-covers_cidr net config.cidrs ns ip c);
      } in
      subst (IsMade net config) same made

  compiled :
      (config : Config) (m : Option (List Bytes)) (i : Option (List Bytes × List Cidr))
      (c : Option (List Cidr)) (a : Allowlist Cidr)
      → compile net config m i c ≡ some a
      → (ms : List Bytes) × (p : List Bytes × List Cidr) × (ns : List Cidr) × (m ≡ some ms)
        × (i ≡ some p)
        × (c ≡ some ns)
  unfolding compile
  compiled config none i c a e = cc
  compiled config (some ms) none c a e = cc
  compiled config (some ms) (some p) none a e = cc
  compiled config (some ms) (some p) (some ns) a e = (ms, p, ns, refl, refl, refl)

  compile-IsMade :
      (config : Config) (a : Allowlist Cidr)
      → compile net config
          (add_macs net config.macs)
          (add_ips net config.ips)
          (add_cidrs net config.cidrs)
        ≡ some a
      → IsMade net config a
  compile-IsMade config a e =
      let (ms, p, ns, m, i, c) = compiled config _ _ _ a e in
      IsMade-parts config a ms p ns m i c (rw (← m, ← i, ← c) e)

  -- An allowlist that is made of a configuration matches an event exactly if the configuration lists
  -- it: its machine by identifier, name or hardware address, one of its IP addresses, directly or by
  -- a network, its rule, or one of its domains or a domain above it.
  pub match_event-new_allowlist :
      (config : Config) (a : Allowlist Cidr) (e : Event)
      → new_allowlist net config ≡ some (some a)
      → is_some (match_event net a e) ≡ is_listed net config e
  unfolding new_allowlist
  match_event-new_allowlist config a e made =
      elim (Option-cases (
        compile net config (add_macs net config.macs) (add_ips net config.ips)
          (add_cidrs net config.cidrs))) [
            | inl bad ↦ absurd (ground (arith, bad, made))
            | inr (b, c) ↦
                let same : b ≡ a = ground (arith, c, made) in
                match_event-is_listed net config a e (compile-IsMade config a (c ∙ ap some same))
          ]
