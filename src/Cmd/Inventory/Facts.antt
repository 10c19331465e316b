-- ===== src/Cmd/Inventory/Facts.antt =====
-- cmd/identity.go: what Enrich says of a stream.
use open_gfw_next.Base.{
  is_some, ◌≡◌, refl, sym, ap, ◌∙◌, ◌⊎◌, Bool, true, false, not, ◌&&◌, ◌||◌, Option, none, some,
  List, [], ◌∷◌, ◌++◌, Bytes, arith, if◌then◌else◌, Option-cases, inl, inr, map,
}
use open_gfw_next.Utils.Strings.{codes, is_empty, same_text, has_prefix, trim_space}
use open_gfw_next.Utils.Strings.Laws.{same_text_refl}
use open_gfw_next.Cmd.Allowlist.{Net, text_in}
use open_gfw_next.Cmd.Inventory.{
  Entry, Compiled, StreamInfo, Found, Meta, compile_entry, match_entry, label_entries, metadata,
  enrich, unless_empty, single_set_value,
}
use open_gfw_next.Cmd.Inventory.Matches.{applies, match_entry-applies}

module _ {Ip Cidr : Type 0} (net : Net Ip Cidr) (atoi_text : Bytes → Option Bytes) where
  unfoldable pub any_applies : List Entry → StreamInfo Ip → Bool
  any_applies [] info = false
  any_applies (e ∷ es) info = applies net atoi_text e info || any_applies es info

  -- none applies, and nothing is said; or the first that applies is described
  pub Described : List Entry → StreamInfo Ip → Option Meta → Type 0
  Described es info o =
      ((any_applies es info ≡ false) × (o ≡ none))
      ⊎ ((before : List Entry) × (e : Entry) × (after : List Entry) × (found : Found) × (es
            ≡ before ++ (e ∷ after))
          × (any_applies before info ≡ false)
          × (match_entry net atoi_text (compile_entry net atoi_text e) info ≡ some found)
          × (o ≡ some (metadata (compile_entry net atoi_text e) found)))

  enrich-none :
      (c : Compiled Cidr) (cs : List (Compiled Cidr)) (info : StreamInfo Ip)
      → match_entry net atoi_text c info ≡ none
      → enrich net atoi_text (c ∷ cs) info ≡ enrich net atoi_text cs info
  unfolding enrich
  enrich-none c cs info e = rw (e, enrich) refl

  enrich-some :
      (c : Compiled Cidr) (cs : List (Compiled Cidr)) (info : StreamInfo Ip) (found : Found)
      → match_entry net atoi_text c info ≡ some found
      → enrich net atoi_text (c ∷ cs) info ≡ some (metadata c found)
  unfolding enrich
  enrich-some c cs info found e = rw (e, enrich) refl

  -- `Enrich` over the compiled entries says nothing of a stream to which none of them applies, and
  -- otherwise gives the description by the first entry that applies.
  pub enrich-Described :
      (es : List Entry) (info : StreamInfo Ip)
      → Described es info (enrich net atoi_text (map (compile_entry net atoi_text) es) info)
  unfolding Described any_applies enrich
  enrich-Described [] info = inl (refl, refl)
  enrich-Described (e ∷ es) info =
      let c = compile_entry net atoi_text e in
      let cs = map (compile_entry net atoi_text) es in
      let same = match_entry-applies net atoi_text e info in
      elim (Option-cases (match_entry net atoi_text c info)) [
        | inr (found, m) ↦ inr ([], e, es, found, refl, refl, m, enrich-some c cs info found m)
        | inl m ↦
            let off : applies net atoi_text e info ≡ false = sym same ∙ ap is_some m in
            elim (enrich-Described es info) [
              | inl (rest, o) ↦ inl (ground (arith, off, rest), enrich-none c cs info m ∙ o)
              | inr (before, d, after, found, split, first, m', o) ↦ inr (
                e ∷ before,
                d,
                after,
                found,
                ap (◌∷◌ e) split,
                ground (arith, off, first),
                m',
                enrich-none c cs info m ∙ o,
              )
            ]
      ]

skip_if :
    (key p v : Bytes) (b : Bool) (l m : Meta)
    → same_text p key ≡ false
    → text_in key (l ++ m) ≡ text_in key m
    → text_in key ((if b then l else (p, v) ∷ l) ++ m) ≡ text_in key m
unfolding text_in
skip_if key p v true l m h e = e
skip_if key p v false l m h e = ground (arith, h, e)

skip_labels :
    (key : Bytes) (labels m : Meta)
    → ((k : Bytes) → same_text (codes "vm.label." ++ k) key ≡ false)
    → text_in key (label_entries labels ++ m) ≡ text_in key m
unfolding label_entries
skip_labels key [] m h = refl
skip_labels key ((k, v) ∷ labels) m h =
    skip_if key (codes "vm.label." ++ k) v (is_empty (trim_space k)) (label_entries labels) m (h k)
      (skip_labels key labels m h)

-- what stands behind the labels
unfoldable pub own_entries : {Cidr : Type 0} → Compiled Cidr → Found → Meta
own_entries e found =
    (if has_prefix found.source (codes "ip.") && not (is_empty found.value)
      then (codes "vm.ip", found.value) ∷ []
      else [])
    ++ ((if has_prefix found.source (codes "l2.") && not (is_empty found.value)
          then (codes "vm.mac", found.value) ∷ []
          else (elim (single_set_value e.macs) [
            | none ↦ []
            | some mac ↦ (codes "vm.mac", mac) ∷ []
          ]))
        ++ (unless_empty (codes "vm.tenant") e.entry.tenant
            ++ (unless_empty (codes "vm.name") e.entry.name
                ++ (unless_empty (codes "vm.id") e.entry.id
                    ++ ((
                      codes "identity.source",
                      if is_empty e.entry.source then codes "inventory" else e.entry.source,
                    )
                        ∷ ((codes "identity.match", found.source)
                            ∷ ((codes "identity.value", found.value) ∷ [])))))))

skip_unless :
    (key k v : Bytes) (m : Meta)
    → same_text k key ≡ false
    → text_in key (unless_empty k v ++ m) ≡ text_in key m
unfolding text_in
skip_unless key k [] m h = refl
skip_unless key k (c ∷ v) m h = ground (arith, h)

found_unless :
    (key v : Bytes) (m : Meta) → text_in key m ≡ [] → text_in key (unless_empty key v ++ m) ≡ v
unfolding text_in
found_unless key [] m h = h
found_unless key (c ∷ v) m h = ground (arith, same_text_refl key)

skip_one :
    (key k v : Bytes) (b : Bool) (m : Meta)
    → same_text k key ≡ false
    → text_in key ((if b then (k, v) ∷ [] else []) ++ m) ≡ text_in key m
unfolding text_in
skip_one key k v true m h = ground (arith, h)
skip_one key k v false m h = refl

skip_mac :
    (key value : Bytes) (b : Bool) (single : Option Bytes) (m : Meta)
    → same_text (codes "vm.mac") key ≡ false
    → text_in key (
        (if b
          then (codes "vm.mac", value) ∷ []
          else (elim single [ none ↦ [] | some mac ↦ (codes "vm.mac", mac) ∷ [] ]))
        ++ m)
      ≡ text_in key m
unfolding text_in
skip_mac key value true single m h = ground (arith, h)
skip_mac key value false none m h = refl
skip_mac key value false (some mac) m h = ground (arith, h)

-- behind the labels and the two addresses
abbrev named : {Cidr : Type 0} → Compiled Cidr → Found → Meta
named e found =
    unless_empty (codes "vm.tenant") e.entry.tenant
    ++ (unless_empty (codes "vm.name") e.entry.name
        ++ (unless_empty (codes "vm.id") e.entry.id
            ++ ((
              codes "identity.source",
              if is_empty e.entry.source then codes "inventory" else e.entry.source,
            )
                ∷ ((codes "identity.match", found.source)
                    ∷ ((codes "identity.value", found.value) ∷ [])))))

metadata-named :
    {Cidr : Type 0} (e : Compiled Cidr) (found : Found) (key : Bytes)
    → ((k : Bytes) → same_text (codes "vm.label." ++ k) key ≡ false)
    → same_text (codes "vm.ip") key ≡ false
    → same_text (codes "vm.mac") key ≡ false
    → text_in key (metadata e found) ≡ text_in key (named e found)
unfolding own_entries metadata
metadata-named e found key h i j =
    skip_labels key e.entry.labels (own_entries e found) h
    ∙ skip_one key (codes "vm.ip") found.value
        (has_prefix found.source (codes "ip.") && not (is_empty found.value)) _ i
    ∙ skip_mac key found.value (has_prefix found.source (codes "l2.") && not (is_empty found.value))
        (single_set_value e.macs) (named e found) j

-- The description of a stream has the identifier, the name and the tenant of the entry, and how the
-- entry was found; no label of the entry takes their place.
pub metadata-entry :
    {Cidr : Type 0} (e : Compiled Cidr) (found : Found)
    → (text_in (codes "vm.id") (metadata e found) ≡ e.entry.id)
      × (text_in (codes "vm.name") (metadata e found) ≡ e.entry.name)
      × (text_in (codes "vm.tenant") (metadata e found) ≡ e.entry.tenant)
      × (text_in (codes "identity.match") (metadata e found) ≡ found.source)
      × (text_in (codes "identity.value") (metadata e found) ≡ found.value)
unfolding text_in same_text
metadata-entry e found = (
  metadata-named e found (codes "vm.id") (λ k. refl) refl refl
      ∙ (skip_unless (codes "vm.id") (codes "vm.tenant") e.entry.tenant _ refl)
      ∙ (skip_unless (codes "vm.id") (codes "vm.name") e.entry.name _ refl)
      ∙ found_unless (codes "vm.id") e.entry.id _ refl,
  metadata-named e found (codes "vm.name") (λ k. refl) refl refl
      ∙ (skip_unless (codes "vm.name") (codes "vm.tenant") e.entry.tenant _ refl)
      ∙ found_unless (codes "vm.name") e.entry.name _
          (skip_unless (codes "vm.name") (codes "vm.id") e.entry.id _ refl),
  metadata-named e found (codes "vm.tenant") (λ k. refl) refl refl
      ∙ found_unless (codes "vm.tenant") e.entry.tenant _ (
          (skip_unless (codes "vm.tenant") (codes "vm.name") e.entry.name _ refl)
          ∙ (skip_unless (codes "vm.tenant") (codes "vm.id") e.entry.id _ refl)),
  metadata-named e found (codes "identity.match") (λ k. refl) refl refl
      ∙ (skip_unless (codes "identity.match") (codes "vm.tenant") e.entry.tenant _ refl)
      ∙ (skip_unless (codes "identity.match") (codes "vm.name") e.entry.name _ refl)
      ∙ (skip_unless (codes "identity.match") (codes "vm.id") e.entry.id _ refl),
  metadata-named e found (codes "identity.value") (λ k. refl) refl refl
      ∙ (skip_unless (codes "identity.value") (codes "vm.tenant") e.entry.tenant _ refl)
      ∙ (skip_unless (codes "identity.value") (codes "vm.name") e.entry.name _ refl)
      ∙ (skip_unless (codes "identity.value") (codes "vm.id") e.entry.id _ refl),
)
