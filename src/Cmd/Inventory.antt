-- ===== src/Cmd/Inventory.antt =====
-- cmd/identity.go: the entries of the inventory and what they say of a stream. A map with several
-- settings of a key is an association list in which the first one counts; Go's order over the labels
-- does not matter, since their keys differ. strconv.Atoi followed by Itoa is `atoi_text`.
pub mod Matches
pub mod Facts
pub mod Libvirt
use open_gfw_next.Base.{
  ℕ, Bool, true, false, not, ◌&&◌, ◌||◌, Option, none, some, List, [], ◌∷◌, ◌++◌, Bytes, map,
  if◌then◌else◌,
}
use open_gfw_next.Utils.Strings.{codes, is_empty, same_text, trim_space, has_prefix, contains}
use open_gfw_next.Ruleset.{is_among}
use open_gfw_next.Cmd.Identity.{make_string_set, normalize_mac}
use open_gfw_next.Cmd.Allowlist.{Net, text_of}

abbrev pub Meta : Type 0
Meta = List (Bytes × Bytes)

-- identityEntry
pub record Entry : Type 0 where
  pub id : Bytes
  pub name : Bytes
  pub tenant : Bytes
  pub macs : List Bytes
  pub ips : List Bytes
  pub interfaces : List Bytes
  pub vlans : List Bytes
  pub labels : Meta
  pub source : Bytes

-- compiledIdentityEntry; the sets have each member once or more
pub record Compiled (Cidr : Type 0) : Type 0 where
  pub entry : Entry
  pub macs : List Bytes
  pub ips : List Bytes
  pub ip_nets : List Cidr
  pub interfaces : List Bytes
  pub vlans : List Bytes

-- the fields of ruleset.StreamInfo that the code reads; a nil address is `none`
pub record StreamInfo (Ip : Type 0) : Type 0 where
  pub src_ip : Option Ip
  pub dst_ip : Option Ip
  pub meta : Option Meta

-- what Match returns where it matches: the source and the value
pub record Found : Type 0 where
  pub source : Bytes
  pub value : Bytes

-- normalizeStrings
unfoldable pub normalize_strings : List Bytes → (Bytes → Bytes) → List Bytes
normalize_strings [] normalize = []
normalize_strings (value ∷ values) normalize =
    let rest = normalize_strings values normalize in
    let v = normalize value in if is_empty v then rest else v ∷ rest

-- normalizeVLAN
unfoldable pub normalize_vlan : (Bytes → Option Bytes) → Bytes → Bytes
unfolding trim_space
normalize_vlan atoi_text value =
    let v = trim_space value in
    if is_empty v then [] else elim (atoi_text v) [ none ↦ v | some n ↦ n ]

-- has the set one member only?
abbrev all_same : Bytes → List Bytes → Bool
all_same v [] = true
all_same v (w ∷ ws) = same_text v w && all_same v ws

-- singleSetValue
unfoldable pub single_set_value : List Bytes → Option Bytes
unfolding same_text
single_set_value [] = none
single_set_value (v ∷ vs) = if all_same v vs then some v else none

-- the label of an entry, where its key is not blank
unfoldable pub label_entries : Meta → Meta
unfolding trim_space
label_entries [] = []
label_entries ((k, v) ∷ labels) =
    let rest = label_entries labels in
    if is_empty (trim_space k) then rest else (codes "vm.label." ++ k, v) ∷ rest

-- an entry without a source is of the inventory
abbrev pub with_source : Entry → Entry
with_source e = if is_empty e.source then record e { source = codes "inventory" } else e

abbrev pub is_none_of : List Bytes → Bool
is_none_of [] = true
is_none_of (v ∷ vs) = false

abbrev unless_empty : Bytes → Bytes → Meta
unless_empty key value = if is_empty value then [] else (key, value) ∷ []

module _ {Ip Cidr : Type 0} (net : Net Ip Cidr) where
  -- the loop over the IPs, which passes over what does not parse
  unfoldable pub compile_ips : List Bytes → List Bytes × List Cidr
  unfolding trim_space contains
  compile_ips [] = ([], [])
  compile_ips (raw ∷ rest) =
      let (ips, nets) = compile_ips rest in
      let s = trim_space raw in
      let network : List Bytes × List Cidr = elim (net.parse_cidr s) [
        | none ↦ (ips, nets)
        | some n ↦ (ips, n ∷ nets)
      ] in
      let address : List Bytes × List Cidr = elim (net.parse_ip s) [
        | none ↦ (ips, nets)
        | some i ↦ (net.ip_string i ∷ ips, nets)
      ] in
      if is_empty s then (ips, nets) else if contains s (codes "/") then network else address

  unfoldable pub holds_some : List Cidr → Ip → Bool
  holds_some [] ip = false
  holds_some (n ∷ ns) ip = net.holds n ip || holds_some ns ip

  -- matchIP
  unfoldable pub match_ip : Compiled Cidr → Option Ip → Bool
  unfolding is_among holds_some
  match_ip e none = false
  match_ip e (some ip) = is_among (net.ip_string ip) e.ips || holds_some e.ip_nets ip

  abbrev ip_text : Option Ip → Bytes
  ip_text none = codes "<nil>"
  ip_text (some ip) = net.ip_string ip

  -- the checks of the addresses, behind the constraints
  unfoldable pub match_addresses : Compiled Cidr → StreamInfo Ip → Option Found
  unfolding text_of is_among normalize_mac match_ip
  match_addresses e info =
      let src_mac = normalize_mac net.parse_mac (text_of (codes "l2.src") info.meta) in
      let dst_mac = normalize_mac net.parse_mac (text_of (codes "l2.dst") info.meta) in
      if is_among src_mac e.macs
      then some (record { source = codes "l2.src"; value = src_mac })
      else if is_among dst_mac e.macs
      then some (record { source = codes "l2.dst"; value = dst_mac })
      else if match_ip e info.src_ip
      then some (record { source = codes "ip.src"; value = ip_text info.src_ip })
      else if match_ip e info.dst_ip
      then some (record { source = codes "ip.dst"; value = ip_text info.dst_ip })
      else none

-- Metadata, later settings first
unfoldable pub metadata : {Cidr : Type 0} → Compiled Cidr → Found → Meta
unfolding label_entries single_set_value has_prefix
metadata e found =
    let single : Meta = elim (single_set_value e.macs) [
      | none ↦ []
      | some mac ↦ (codes "vm.mac", mac) ∷ []
    ] in
    let own_mac = has_prefix found.source (codes "l2.") && not (is_empty found.value) in
    let own_ip = has_prefix found.source (codes "ip.") && not (is_empty found.value) in
    label_entries e.entry.labels
    ++ ((if own_ip then (codes "vm.ip", found.value) ∷ [] else [])
        ++ ((if own_mac then (codes "vm.mac", found.value) ∷ [] else single)
            ++ (unless_empty (codes "vm.tenant") e.entry.tenant
                ++ (unless_empty (codes "vm.name") e.entry.name
                    ++ (unless_empty (codes "vm.id") e.entry.id
                        ++ ((
                          codes "identity.source",
                          if is_empty e.entry.source then codes "inventory" else e.entry.source,
                        )
                            ∷ ((codes "identity.match", found.source)
                                ∷ ((codes "identity.value", found.value) ∷ []))))))))

module _ {Ip Cidr : Type 0} (net : Net Ip Cidr) (atoi_text : Bytes → Option Bytes) where
  -- compileIdentityEntry
  unfoldable pub compile_entry : Entry → Compiled Cidr
  unfolding make_string_set normalize_strings normalize_mac normalize_vlan compile_ips
  compile_entry entry = record {
    entry = entry;
    macs = make_string_set (normalize_strings entry.macs (normalize_mac net.parse_mac));
    ips = (compile_ips net entry.ips).0;
    ip_nets = (compile_ips net entry.ips).1;
    interfaces = make_string_set entry.interfaces;
    vlans = make_string_set (normalize_strings entry.vlans (normalize_vlan atoi_text));
  }

  -- constraintsMatch
  unfoldable pub constraints_match : Compiled Cidr → Option Meta → Bool
  unfolding text_of is_among normalize_vlan
  constraints_match e meta =
      (is_none_of e.interfaces || is_among (text_of (codes "capture.interface") meta) e.interfaces)
      && (is_none_of e.vlans
          || is_among (normalize_vlan atoi_text (text_of (codes "vlan.id") meta)) e.vlans)

  -- Match
  unfoldable pub match_entry : Compiled Cidr → StreamInfo Ip → Option Found
  unfolding constraints_match match_addresses
  match_entry e info =
      let found = match_addresses net e info in
      if constraints_match e info.meta then found else none

  -- Enrich, of an enricher that is not nil; `none` is a nil map
  unfoldable pub enrich : List (Compiled Cidr) → StreamInfo Ip → Option Meta
  unfolding match_entry metadata
  enrich [] info = none
  enrich (e ∷ es) info =
      let later = enrich es info in
      elim (match_entry e info) [ none ↦ later | some found ↦ some (metadata e found) ]

  -- mergeIdentityEntries
  unfoldable pub merge_entries : List (Compiled Cidr) → List Entry → List (Compiled Cidr)
  unfolding compile_entry
  merge_entries static dynamic = static ++ map compile_entry dynamic

  -- newIdentityEnricher, from the entries of the configuration and of the inventory, and whether
  -- libvirt is enabled; `none` is a nil enricher
  unfoldable pub new_enricher : List Entry → List Entry → Bool → Option (List (Compiled Cidr))
  unfolding compile_entry
  new_enricher configured inventory libvirt =
      let entries = configured ++ inventory in
      let compiled = map (λ e. compile_entry (with_source e)) entries in
      elim entries [ [] ↦ if libvirt then some [] else none | _ ∷ _ ↦ some compiled ]
