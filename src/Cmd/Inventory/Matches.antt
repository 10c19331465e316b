-- ===== src/Cmd/Inventory/Matches.antt =====
-- cmd/identity.go: Match of a compiled entry, as a test on the entry as it is configured.
use open_gfw_next.Base.{
  is_some, ◌≡◌, refl, ap, ◌∙◌, Bool, true, false, not, ◌&&◌, ◌||◌, Option, none, some, List, [],
  ◌∷◌, Bytes, arith, if◌then◌else◌,
}
use open_gfw_next.Utils.Strings.{codes, is_empty, same_text, trim_space, contains}
use open_gfw_next.Ruleset.{is_among}
use open_gfw_next.Cmd.Identity.{make_string_set, normalize_mac}
use open_gfw_next.Cmd.Allowlist.{Net, text_of}
use open_gfw_next.Cmd.Allowlist.Domains.{names, is_among-make_string_set}
use open_gfw_next.Cmd.Allowlist.Addresses.{is_ip_of, covers_ip}
use open_gfw_next.Cmd.Inventory.{
  Entry, StreamInfo, Found, Meta, normalize_strings, normalize_vlan, is_none_of, compile_ips,
  compile_entry, constraints_match, holds_some, match_ip, match_addresses, match_entry,
}

-- Are all the entries blank?
unfoldable pub all_blank : List Bytes → Bool
all_blank [] = true
all_blank (raw ∷ rest) = is_empty (trim_space raw) && all_blank rest

is_none_of-make_string_set : (vs : List Bytes) → is_none_of (make_string_set vs) ≡ all_blank vs
unfolding make_string_set all_blank
is_none_of-make_string_set [] = refl
is_none_of-make_string_set (raw ∷ rest) = ground (arith, is_none_of-make_string_set rest)

module _ {Ip Cidr : Type 0} (net : Net Ip Cidr) where
  -- the addresses and the networks together
  has_ip : List Bytes × List Cidr → Ip → Bool
  has_ip p ip = is_among (net.ip_string ip) p.0 || holds_some net p.1 ip

  ip_step :
      (b slash : Bool) (n : Option Cidr) (i : Option Ip) (p : List Bytes × List Cidr) (ip : Ip)
      → has_ip
          (if b
            then p
            else if slash
            then (elim n [ none ↦ p | some m ↦ (p.0, m ∷ p.1) ])
            else (elim i [ none ↦ p | some a ↦ (net.ip_string a ∷ p.0, p.1) ]))
          ip
        ≡ ((not b
              && (if slash then (elim n [ none ↦ false | some m ↦ net.holds m ip ]) else (elim i [
                | none ↦ false
                | some a ↦ same_text (net.ip_string ip) (net.ip_string a)
              ])))
            || has_ip p ip)
  unfolding has_ip is_among holds_some
  ip_step true slash n i p ip = refl
  ip_step false true none i p ip = refl
  ip_step false true (some m) i p ip = ground arith
  ip_step false false n none p ip = refl
  ip_step false false n (some a) p ip = ground arith

  compile_ips-covers_ip :
      (raws : List Bytes) (ip : Ip) → has_ip (compile_ips net raws) ip ≡ covers_ip net raws ip
  unfolding compile_ips covers_ip is_ip_of has_ip is_among holds_some
  compile_ips-covers_ip [] ip = refl
  compile_ips-covers_ip (raw ∷ rest) ip =
      let s = trim_space raw in
      ip_step (is_empty s) (contains s (codes "/")) (net.parse_cidr s) (net.parse_ip s)
        (compile_ips net rest) ip
      ∙ ap (λ b. (not (is_empty s) && is_ip_of net s ip) || b) (compile_ips-covers_ip rest ip)

both :
    {a b c d a' b' c' d' : Bool}
    → a ≡ a'
    → b ≡ b'
    → c ≡ c'
    → d ≡ d'
    → (a || b) && (c || d) ≡ (a' || b') && (c' || d')
both p q r s = cc

ladder :
    {w' a' b' c' d' : Bool} (w a b c d : Bool) (m1 m2 m3 m4 : Found)
    → w ≡ w'
    → a ≡ a'
    → b ≡ b'
    → c ≡ c'
    → d ≡ d'
    → is_some (
        if w
        then (if a
            then some m1
            else if b
            then some m2
            else if c
            then some m3
            else if d
            then some m4
            else none)
        else none)
      ≡ (w' && (a' || (b' || (c' || d'))))
ladder w a b c d m1 m2 m3 m4 p q r s t = ground arith

module _ {Ip Cidr : Type 0} (net : Net Ip Cidr) (atoi_text : Bytes → Option Bytes) where
  -- Is a stream with these interface and VLAN within the bounds of the entry, if it has some?
  unfoldable pub is_within : Entry → Option Meta → Bool
  is_within e meta =
      let vlans = normalize_strings e.vlans (normalize_vlan atoi_text) in
      (all_blank e.interfaces || names e.interfaces (text_of (codes "capture.interface") meta))
      && (all_blank vlans
          || names vlans (normalize_vlan atoi_text (text_of (codes "vlan.id") meta)))

  -- Does the entry have one of the stream's addresses?
  unfoldable pub has_mac : Entry → Bytes → Bool
  has_mac e mac =
      names (normalize_strings e.macs (normalize_mac net.parse_mac))
        (normalize_mac net.parse_mac mac)

  unfoldable pub has_address : Entry → Option Ip → Bool
  has_address e none = false
  has_address e (some ip) = covers_ip net e.ips ip

  unfoldable pub applies : Entry → StreamInfo Ip → Bool
  unfolding is_within has_mac has_address
  applies e info =
      is_within e info.meta
      && (has_mac e (text_of (codes "l2.src") info.meta)
          || (has_mac e (text_of (codes "l2.dst") info.meta)
              || (has_address e info.src_ip || has_address e info.dst_ip)))

  constraints_match-is_within :
      (e : Entry) (meta : Option Meta)
      → constraints_match net atoi_text (compile_entry net atoi_text e) meta ≡ is_within e meta
  unfolding constraints_match compile_entry is_within
  constraints_match-is_within e meta =
      let vlans = normalize_strings e.vlans (normalize_vlan atoi_text) in
      let vlan = normalize_vlan atoi_text (text_of (codes "vlan.id") meta) in
      let on = text_of (codes "capture.interface") meta in
      both (is_none_of-make_string_set e.interfaces) (is_among-make_string_set e.interfaces on)
        (is_none_of-make_string_set vlans) (is_among-make_string_set vlans vlan)

  match_ip-has_address :
      (e : Entry) (ip : Option Ip)
      → match_ip net (compile_entry net atoi_text e) ip ≡ has_address e ip
  unfolding match_ip compile_entry has_address has_ip
  match_ip-has_address e none = refl
  match_ip-has_address e (some ip) = compile_ips-covers_ip net e.ips ip

  -- A compiled entry matches a stream exactly if the entry applies to it: the stream is within the
  -- entry's interfaces and VLANs, if it has some, and one of its hardware or IP addresses is the entry's.
  pub match_entry-applies :
      (e : Entry) (info : StreamInfo Ip)
      → is_some (match_entry net atoi_text (compile_entry net atoi_text e) info) ≡ applies e info
  unfolding match_entry match_addresses applies has_mac compile_entry
  match_entry-applies e info =
      let macs = normalize_strings e.macs (normalize_mac net.parse_mac) in
      let c = compile_entry net atoi_text e in
      ladder _ _ _ _ _ _ _ _ _ (constraints_match-is_within e info.meta)
        (is_among-make_string_set macs
          (normalize_mac net.parse_mac (text_of (codes "l2.src") info.meta)))
        (is_among-make_string_set macs
          (normalize_mac net.parse_mac (text_of (codes "l2.dst") info.meta)))
        (match_ip-has_address e info.src_ip) (match_ip-has_address e info.dst_ip)
