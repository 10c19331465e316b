-- ===== src/Engine/Props.antt =====
-- processPropUpdate of engine/utils.go, on the maps of analyzer/interface.go. A Go map is an
-- association list in which the first entry of a key counts; a nil map is the empty list. The maps
-- are values here: `replace` stores the analyzer's map itself, and the analyzers of the repository
-- build a new one for each update.
pub mod Laws
use open_gfw_next.Base.{
  Bool, true, false, Option, none, some, String, List, [], ◌∷◌, str_eq, if◌then◌else◌,
}

module _ {V : Type 0} where
  -- m[key], `none` for a missing key
  unfoldable pub lookup : (key : String) (of : List (String × V)) → Option V
  lookup key [] = none
  lookup key (e ∷ es) = if str_eq e.0 key then some e.1 else lookup key es

  -- m[key] = value
  pub insert : (key : String) (value : V) (into : List (String × V)) → List (String × V)
  insert key value [] = (key, value) ∷ []
  insert key value (e ∷ es) =
      let others = insert key value es in if str_eq e.0 key then (key, value) ∷ es else e ∷ others

  -- delete(m, k)
  pub delete_key : String → List (String × V) → List (String × V)
  delete_key k [] = []
  delete_key k ((j, w) ∷ m) =
      let rest = delete_key k m in if str_eq j k then rest else (j, w) ∷ rest

  -- for k, v := range us { m[k] = v }
  pub put_all : List (String × V) → List (String × V) → List (String × V)
  put_all m [] = m
  put_all m ((k, v) ∷ us) = insert k v (put_all m us)

-- PropMap and CombinedPropMap
abbrev pub PropMap : Type 0 → Type 0
PropMap V = List (String × V)

abbrev pub CombinedPropMap : Type 0 → Type 0
CombinedPropMap V = List (String × PropMap V)

-- PropUpdateType
pub data UpdateType : Type 0 where
  no_update merge replace delete : UpdateType

-- PropUpdate
pub record PropUpdate (V : Type 0) : Type 0 where
  pub kind : UpdateType
  pub m : PropMap V

module _ {V : Type 0} where
  abbrev pub map_or_empty : Option (PropMap V) → PropMap V
  map_or_empty none = []
  map_or_empty (some m) = m

  unfoldable pub apply :
      UpdateType → PropMap V → CombinedPropMap V → String → CombinedPropMap V × Bool
  apply no_update m cpm name = (cpm, false)
  apply merge m cpm name = (insert name (put_all (map_or_empty (lookup name cpm)) m) cpm, true)
  apply replace m cpm name = (insert name m cpm, true)
  apply delete m cpm name = (delete_key name cpm, true)

  -- processPropUpdate
  unfoldable pub process_prop_update :
      CombinedPropMap V → String → Option (PropUpdate V) → CombinedPropMap V × Bool
  unfolding apply
  process_prop_update cpm name none = (cpm, false)
  process_prop_update cpm name (some u) = apply u.kind u.m cpm name
