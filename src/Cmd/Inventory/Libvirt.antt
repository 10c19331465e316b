-- ===== src/Cmd/Inventory/Libvirt.antt =====
-- cmd/identity.go: the entries that libvirt knows. encoding/xml is the parameter `unmarshal`, and `run`
-- runs virsh with its arguments; `none` is an error of either.
use open_gfw_next.Base.{
  sym, subst, ◌≡◌, refl, ap, ◌∙◌, false, ◌||◌, Option, none, some, List, [], ◌∷◌, ◌++◌, Bytes,
  arith, if◌then◌else◌, Option-cases, inl, inr,
}
use open_gfw_next.Utils.Strings.{codes, is_empty, trim_space}
use open_gfw_next.Utils.Strings.Split.{split}
use open_gfw_next.Cmd.Identity.{normalize_mac}
use open_gfw_next.Cmd.Allowlist.{Net}
use open_gfw_next.Cmd.Inventory.{Entry, Compiled, merge_entries, is_none_of, normalize_strings}

-- libvirtDomainXML; the addresses are those of its interfaces
pub record Domain : Type 0 where
  pub name : Bytes
  pub uuid : Bytes
  pub addresses : List Bytes

-- libvirtInventoryProvider
pub record Provider : Type 0 where
  pub uri : Bytes
  pub run : List Bytes → Option Bytes

-- virsh
unfoldable pub virsh : Provider → List Bytes → Option Bytes
virsh p args = p.run ((if is_empty p.uri then [] else codes "--connect" ∷ (p.uri ∷ [])) ++ args)

-- the loop of domainNames over the lines
unfoldable pub names_of : List Bytes → List Bytes
unfolding trim_space
names_of [] = []
names_of (line ∷ lines) =
    let rest = names_of lines in
    let name = trim_space line in if is_empty name then rest else name ∷ rest

-- domainNames
unfoldable pub domain_names : Provider → Option (List Bytes)
unfolding virsh names_of split
domain_names p = elim (virsh p (codes "list" ∷ (codes "--all" ∷ (codes "--name" ∷ [])))) [
  | none ↦ none
  | some output ↦ some (names_of (split 10 output))
]

abbrev or_text : Bytes → Bytes → Bytes
or_text [] other = other
or_text (c ∷ s) other = c ∷ s

-- the entry of a domain; `none` where it has no name or no address
unfoldable pub entry_of_domain : (Bytes → Option Bytes) → Domain → Bytes → Option Entry
unfolding trim_space normalize_mac normalize_strings
entry_of_domain parse_mac domain fallback =
    let name = or_text (trim_space domain.name) fallback in
    let macs = normalize_strings domain.addresses (normalize_mac parse_mac) in
    if is_empty name || is_none_of macs
    then none
    else some (record {
      id = or_text (trim_space domain.uuid) name;
      name = name;
      tenant = [];
      macs = macs;
      ips = [];
      interfaces = [];
      vlans = [];
      labels = [];
      source = codes "libvirt";
    })

module _ (parse_mac : Bytes → Option Bytes) (unmarshal : Bytes → Option Domain) where
  -- parseLibvirtDomainXML: the outer `none` is an error
  unfoldable pub parse_libvirt_domain_xml : Bytes → Bytes → Option (Option Entry)
  unfolding entry_of_domain
  parse_libvirt_domain_xml raw fallback = elim (unmarshal raw) [
    | none ↦ none
    | some domain ↦ some (entry_of_domain parse_mac domain fallback)
  ]

  abbrev put_entry : Option Entry → Option (List Entry) → Option (List Entry)
  put_entry e none = none
  put_entry none (some es) = some es
  put_entry (some e) (some es) = some (e ∷ es)

  -- the loop of Load over the names
  unfoldable pub load_names : Provider → List Bytes → Option (List Entry)
  unfolding virsh parse_libvirt_domain_xml
  load_names p [] = some []
  load_names p (name ∷ names) =
      let later = load_names p names in
      elim (virsh p (codes "dumpxml" ∷ (name ∷ []))) [
        | none ↦ none
        | some raw ↦ elim (parse_libvirt_domain_xml raw name) [
          | none ↦ none
          | some e ↦ put_entry e later
        ]
      ]

  -- Load
  unfoldable pub load : Provider → Option (List Entry)
  unfolding domain_names load_names
  load p = elim (domain_names p) [ none ↦ none | some names ↦ load_names p names ]

-- refreshLibvirtInventory: the entries that the enricher keeps, with those in use where Load fails
unfoldable pub refresh :
    {Ip Cidr : Type 0}
    → Net Ip Cidr
    → (Bytes → Option Bytes)
    → List (Compiled Cidr)
    → List (Compiled Cidr)
    → Option (List Entry)
    → List (Compiled Cidr)
unfolding merge_entries
refresh net atoi_text static current none = current
refresh net atoi_text static current (some entries) = merge_entries net atoi_text static entries

-- an entry that libvirt gives: it has a name and an address
unfoldable pub IsNamed : Entry → Type 0
IsNamed e = (is_empty e.name ≡ false) × (is_none_of e.macs ≡ false) × (e.source ≡ codes "libvirt")

unfoldable pub AllNamed : List Entry → Type 0
AllNamed [] = Unit
AllNamed (e ∷ es) = (IsNamed e) × AllNamed es

abbrev name_or : Option Entry → Bytes
name_or none = []
name_or (some e) = e.name

abbrev macs_or : Option Entry → List Bytes
macs_or none = []
macs_or (some e) = e.macs

abbrev source_or : Option Entry → Bytes
source_or none = []
source_or (some e) = e.source

abbrev list_or : Option (List Entry) → List Entry
list_or none = []
list_or (some es) = es

IsNamed-made :
    (id name : Bytes) (macs : List Bytes) (e : Entry)
    → (if is_empty name || is_none_of macs
        then none
        else some (record {
          id = id;
          name = name;
          tenant = [];
          macs = macs;
          ips = [];
          interfaces = [];
          vlans = [];
          labels = [];
          source = codes "libvirt";
        }))
      ≡ some e
    → IsNamed e
unfolding IsNamed
IsNamed-made id [] macs e h = cc
IsNamed-made id (c ∷ name) [] e h = cc
IsNamed-made id (c ∷ name) (m ∷ macs) e h = (
  sym (ap (λ o. is_empty (name_or o)) h),
  sym (ap (λ o. is_none_of (macs_or o)) h),
  sym (ap source_or h),
)

entry_of_domain-IsNamed :
    (parse_mac : Bytes → Option Bytes) (d : Domain) (fallback : Bytes) (e : Entry)
    → entry_of_domain parse_mac d fallback ≡ some e
    → IsNamed e
unfolding entry_of_domain
entry_of_domain-IsNamed parse_mac d fallback e h =
    let name = or_text (trim_space d.name) fallback in
    IsNamed-made (or_text (trim_space d.uuid) name) name
      (normalize_strings d.addresses (normalize_mac parse_mac)) e h

module _ (parse_mac : Bytes → Option Bytes) (unmarshal : Bytes → Option Domain) where
  parse-IsNamed :
      (raw fallback : Bytes) (e : Entry)
      → parse_libvirt_domain_xml parse_mac unmarshal raw fallback ≡ some (some e)
      → IsNamed e
  unfolding parse_libvirt_domain_xml
  parse-IsNamed raw fallback e h = elim (Option-cases (unmarshal raw)) [
    | inl bad ↦ absurd (ground (arith, bad, h))
    | inr (d, ok) ↦ entry_of_domain-IsNamed parse_mac d fallback e (ground (arith, ok, h))
  ]

  put_entry-AllNamed :
      (o : Option Entry) (later : Option (List Entry)) (es : List Entry)
      → ((e : Entry) → o ≡ some e → IsNamed e)
      → ((ds : List Entry) → later ≡ some ds → AllNamed ds)
      → put_entry parse_mac unmarshal o later ≡ some es
      → AllNamed es
  unfolding AllNamed
  put_entry-AllNamed o none es one all h = cc
  put_entry-AllNamed none (some ds) es one all h = all es h
  put_entry-AllNamed (some e) (some ds) es one all h =
      subst (λ o. AllNamed (list_or o)) h (one e refl, all ds refl)

  load_names-AllNamed :
      (p : Provider) (names : List Bytes) (es : List Entry)
      → load_names parse_mac unmarshal p names ≡ some es
      → AllNamed es
  unfolding load_names AllNamed
  load_names-AllNamed p [] es h = subst (λ o. AllNamed (list_or o)) h tt
  load_names-AllNamed p (name ∷ names) es h =
      elim (Option-cases (virsh p (codes "dumpxml" ∷ (name ∷ [])))) [
        | inl bad ↦ absurd (ground (arith, bad, h))
        | inr (raw, ok) ↦
            elim (Option-cases (parse_libvirt_domain_xml parse_mac unmarshal raw name)) [
              | inl bad ↦ absurd (ground (arith, ok, bad, h))
              | inr (o, e) ↦
                  put_entry-AllNamed o (load_names parse_mac unmarshal p names) es
                    (λ d m. parse-IsNamed raw name d (e ∙ ap some m)) (load_names-AllNamed p names)
                    (ground (arith, ok, e, h))
            ]
      ]

  -- Every entry that `Load` gives has a name, a hardware address, and libvirt as its source.
  pub load-AllNamed :
      (p : Provider) (es : List Entry) → load parse_mac unmarshal p ≡ some es → AllNamed es
  unfolding load
  load-AllNamed p es h = elim (Option-cases (domain_names p)) [
    | inl bad ↦ absurd (ground (arith, bad, h))
    | inr (names, ok) ↦ load_names-AllNamed p names es (ground (arith, ok, h))
  ]
