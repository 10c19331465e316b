-- ===== src/Engine/Props/Laws.antt =====
-- The update of a stream's properties in engine/utils.go, seen through look-ups.
use open_gfw_next.Base.{
  ◌≡◌, refl, Option, none, some, String, List, [], ◌∷◌, arith, str_eq, eq_iff, if◌then◌else◌,
}
use open_gfw_next.Engine.Props.{
  lookup, insert, delete_key, put_all, PropMap, CombinedPropMap, PropUpdate, no_update, merge,
  replace, delete, map_or_empty, process_prop_update, apply, UpdateType,
}

module _ {V : Type 0} where
  -- a map after an assignment, at any key
  pub lookup-insert :
      (set : String) (value : V) (cells : List (String × V)) (key : String)
      → lookup key (insert set value cells)
        ≡ (if str_eq set key then some value else lookup key cells)
  unfolding lookup insert
  lookup-insert set value [] key = refl
  lookup-insert set value (e ∷ es) key =
      ground (arith, eq_iff set key, eq_iff e.0 set, eq_iff e.0 key, lookup-insert set value es key)

  pub lookup-delete_key :
      (j k : String) (m : List (String × V))
      → lookup j (delete_key k m) ≡ (if str_eq k j then none else lookup j m)
  unfolding lookup delete_key
  lookup-delete_key j k [] = ground arith
  lookup-delete_key j k ((i, w) ∷ m) =
      ground (arith, eq_iff k j, eq_iff i k, eq_iff i j, lookup-delete_key j k m)

  abbrev pub or_else : Option V → Option V → Option V
  or_else (some v) o = some v
  or_else none o = o

  pub lookup-put_all :
      (j : String) (m us : List (String × V))
      → lookup j (put_all m us) ≡ or_else (lookup j us) (lookup j m)
  unfolding put_all lookup
  lookup-put_all j m [] = refl
  lookup-put_all j m ((k, v) ∷ us) =
      ground (arith, lookup-insert k v (put_all m us) j, lookup-put_all j m us)

module _ {V : Type 0} where
  -- the property `key` that analyzer `name` has set
  abbrev pub prop : CombinedPropMap V → String → String → Option V
  prop cpm name key = lookup key (map_or_empty (lookup name cpm))

  -- what an update leaves of a property that had the value `old`
  abbrev pub changed : Option (PropUpdate V) → String → Option V → Option V
  changed none key old = old
  changed (some u) key old = elim (u.kind) [
    | no_update ↦ old
    | merge ↦ or_else (lookup key u.m) old
    | replace ↦ lookup key u.m
    | delete ↦ none
  ]

  apply-prop :
      (kind : UpdateType) (m : PropMap V) (cpm : CombinedPropMap V) (name n key : String)
      → prop (apply kind m cpm name).0 n key ≡ (
          if str_eq name n
          then changed (some (record { kind = kind; m = m })) key (prop cpm n key)
          else prop cpm n key)
  unfolding apply lookup
  apply-prop no_update m cpm name n key = ground arith
  apply-prop merge m cpm name n key =
      let old = map_or_empty (lookup name cpm) in
      ground
        (arith, eq_iff name n, lookup-insert name (put_all old m) cpm n, lookup-put_all key old m)
  apply-prop replace m cpm name n key = ground (arith, lookup-insert name m cpm n)
  apply-prop delete m cpm name n key = ground (arith, lookup-delete_key n name cpm)

  -- An update changes the properties of its own analyzer and of no other: `merge` sets those that it
  -- carries and keeps the rest, `replace` leaves only those that it carries, `delete` leaves none, and
  -- no update or one of type `none` changes nothing.
  pub process_prop_update-prop :
      (cpm : CombinedPropMap V) (name n key : String) (u : Option (PropUpdate V))
      → prop (process_prop_update cpm name u).0 n key
        ≡ (if str_eq name n then changed u key (prop cpm n key) else prop cpm n key)
  unfolding process_prop_update
  process_prop_update-prop cpm name n key none = ground arith
  process_prop_update-prop cpm name n key (some u) = apply-prop u.kind u.m cpm name n key
