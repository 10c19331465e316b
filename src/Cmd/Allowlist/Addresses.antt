-- ===== src/Cmd/Allowlist/Addresses.antt =====
-- cmd/allowlist.go: what the loops of newAllowlist make of the addresses of a configuration.
use open_gfw_next.Base.{
  ◌≡◌, refl, ap, ◌∙◌, Bool, true, false, not, ◌&&◌, ◌||◌, Option, none, some, List, [], ◌∷◌, ◌++◌,
  Bytes, arith, if◌then◌else◌, Bool-cases, Option-cases, inl, inr,
}
use open_gfw_next.Utils.Strings.{codes, is_empty, same_text, trim_space, contains}
use open_gfw_next.Ruleset.{is_among}
use open_gfw_next.Cmd.Identity.{normalize_mac}
use open_gfw_next.Cmd.Allowlist.{Net}
use open_gfw_next.Cmd.Allowlist.Rules.{add_macs, add_ip, add_ips, add_cidrs}

module _ {Ip Cidr : Type 0} (net : Net Ip Cidr) where
  -- Is the normalized address that of an entry that is not blank?
  unfoldable pub covers_mac : List Bytes → Bytes → Bool
  covers_mac [] mac = false
  covers_mac (raw ∷ rest) mac =
      (not (is_empty (trim_space raw)) && same_text mac (normalize_mac net.parse_mac raw))
      || covers_mac rest mac

  -- Is the address that of an entry, or in the network of an entry that has a slash?
  unfoldable pub is_ip_of : Bytes → Ip → Bool
  is_ip_of s ip =
      let network : Bool = elim (net.parse_cidr s) [ none ↦ false | some n ↦ net.holds n ip ] in
      let address : Bool = elim (net.parse_ip s) [
        | none ↦ false
        | some i ↦ same_text (net.ip_string ip) (net.ip_string i)
      ] in
      if contains s (codes "/") then network else address

  unfoldable pub covers_ip : List Bytes → Ip → Bool
  unfolding is_ip_of
  covers_ip [] ip = false
  covers_ip (raw ∷ rest) ip =
      (not (is_empty (trim_space raw)) && is_ip_of (trim_space raw) ip) || covers_ip rest ip

  unfoldable pub is_in : Bytes → Ip → Bool
  is_in s ip = elim (net.parse_cidr s) [ none ↦ false | some n ↦ net.holds n ip ]

  unfoldable pub covers_cidr : List Bytes → Ip → Bool
  unfolding is_in
  covers_cidr [] ip = false
  covers_cidr (raw ∷ rest) ip =
      (not (is_empty (trim_space raw)) && is_in (trim_space raw) ip) || covers_cidr rest ip

  unfoldable pub holds_any : List Cidr → Ip → Bool
  holds_any [] ip = false
  holds_any (n ∷ ns) ip = net.holds n ip || holds_any ns ip

  pub holds_any-append :
      (ns ms : List Cidr) (ip : Ip) → holds_any (ns ++ ms) ip ≡ (holds_any ns ip || holds_any ms ip)
  unfolding holds_any
  holds_any-append [] ms ip = refl
  holds_any-append (n ∷ ns) ms ip = ground (arith, holds_any-append ns ms ip)

  mac_step :
      (b c : Bool) (o : Option Bytes) (later : Option (List Bytes)) (mac v : Bytes)
      (macs : List Bytes)
      → (if b then later else elim o [
        | none ↦ none
        | some m ↦ elim later [ none ↦ none | some ms ↦ some (mac ∷ ms) ]
      ])
        ≡ some macs
      → ((ms : List Bytes) → later ≡ some ms → is_among v ms ≡ c)
      → is_among v macs ≡ ((not b && same_text v mac) || c)
  unfolding is_among
  mac_step true c o later mac v macs e h = h macs e
  mac_step false c none later mac v macs e h = cc
  mac_step false c (some m) none mac v macs e h = cc
  mac_step false c (some m) (some ms) mac v macs e h = ground (arith, e, h ms refl)

  pub add_macs-covers_mac :
      (raws macs : List Bytes) (v : Bytes)
      → add_macs net raws ≡ some macs
      → is_among v macs ≡ covers_mac raws v
  unfolding add_macs covers_mac is_among
  add_macs-covers_mac [] macs v e = ground (arith, e)
  add_macs-covers_mac (raw ∷ rest) macs v e =
      mac_step (is_empty (trim_space raw)) (covers_mac rest v)
        (net.parse_mac (normalize_mac net.parse_mac raw)) (add_macs net rest)
        (normalize_mac net.parse_mac raw) v macs e (λ ms. add_macs-covers_mac rest ms v)

  cidr_step :
      (b c : Bool) (o : Option Cidr) (later : Option (List Cidr)) (ip : Ip) (ns : List Cidr)
      → (if b then later else elim o [
        | none ↦ none
        | some n ↦ elim later [ none ↦ none | some ms ↦ some (n ∷ ms) ]
      ])
        ≡ some ns
      → ((ms : List Cidr) → later ≡ some ms → holds_any ms ip ≡ c)
      → holds_any ns ip ≡ ((not b && (elim o [ none ↦ false | some n ↦ net.holds n ip ])) || c)
  unfolding holds_any
  cidr_step true c o later ip ns e h = h ns e
  cidr_step false c none later ip ns e h = cc
  cidr_step false c (some n) none ip ns e h = cc
  cidr_step false c (some n) (some ms) ip ns e h = ground (arith, e, h ms refl)

  pub add_cidrs-covers_cidr :
      (raws : List Bytes) (ns : List Cidr) (ip : Ip)
      → add_cidrs net raws ≡ some ns
      → holds_any ns ip ≡ covers_cidr raws ip
  unfolding add_cidrs covers_cidr is_in holds_any
  add_cidrs-covers_cidr [] ns ip e = ground (arith, e)
  add_cidrs-covers_cidr (raw ∷ rest) ns ip e =
      cidr_step (is_empty (trim_space raw)) (covers_cidr rest ip) (net.parse_cidr (trim_space raw))
        (add_cidrs net rest) ip ns e (λ ms. add_cidrs-covers_cidr rest ms ip)

  -- the addresses and the networks together
  unfoldable pub has_ip : List Bytes × List Cidr → Ip → Bool
  has_ip p ip = is_among (net.ip_string ip) p.0 || holds_any p.1 ip

  add_ip-is_ip_of :
      (s : Bytes) (later : List Bytes × List Cidr) (p : List Bytes × List Cidr) (ip : Ip)
      → add_ip net s (some later) ≡ some p
      → has_ip p ip ≡ (is_ip_of s ip || has_ip later ip)
  unfolding add_ip is_ip_of has_ip is_among holds_any
  add_ip-is_ip_of s later p ip e = elim (Bool-cases (contains s (codes "/"))) [
    | inl slash ↦ elim (Option-cases (net.parse_cidr s)) [
      | inl bad ↦ ground (arith, slash, bad, e)
      | inr (n, ok) ↦ ground (arith, slash, ok, e)
    ]
    | inr plain ↦ elim (Option-cases (net.parse_ip s)) [
      | inl bad ↦ ground (arith, plain, bad, e)
      | inr (i, ok) ↦ ground (arith, plain, ok, e)
    ]
  ]

  add_ip-none : (s : Bytes) (p : List Bytes × List Cidr) → add_ip net s none ≡ some p → ⊥
  unfolding add_ip
  add_ip-none s p e = cc

  ip_step :
      (b c : Bool) (s : Bytes) (later : Option (List Bytes × List Cidr)) (ip : Ip)
      (p : List Bytes × List Cidr)
      → (if b then later else add_ip net s later) ≡ some p
      → ((q : List Bytes × List Cidr) → later ≡ some q → has_ip q ip ≡ c)
      → has_ip p ip ≡ ((not b && is_ip_of s ip) || c)
  ip_step true c s later ip p e h = h p e
  ip_step false c s none ip p e h = absurd (add_ip-none s p e)
  ip_step false c s (some q) ip p e h =
      add_ip-is_ip_of s q p ip e ∙ ap (λ x. is_ip_of s ip || x) (h q refl)

  pub add_ips-covers_ip :
      (raws : List Bytes) (p : List Bytes × List Cidr) (ip : Ip)
      → add_ips net raws ≡ some p
      → has_ip p ip ≡ covers_ip raws ip
  unfolding add_ips covers_ip has_ip is_among holds_any
  add_ips-covers_ip [] p ip e = ground (arith, e)
  add_ips-covers_ip (raw ∷ rest) p ip e =
      ip_step (is_empty (trim_space raw)) (covers_ip rest ip) (trim_space raw) (add_ips net rest) ip
        p e (λ q. add_ips-covers_ip rest q ip)
