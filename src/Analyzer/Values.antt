-- ===== src/Analyzer/Values.antt =====
-- PropMap and CombinedPropMap of analyzer/interface.go with the values that a reader may find in them,
-- and their method Get. `none` is nil.
use open_gfw_next.Base.{Option, none, some, List, [], ◌∷◌, Bytes, if◌then◌else◌}
use open_gfw_next.Utils.Strings.{same_text}
use open_gfw_next.Utils.Strings.Split.{split}

mutual
  -- interface{}: a string, a PropMap, a []PropMap, a []interface{}, a map[string]interface{}, or a value of
  -- another type
  pub data Value : Type 0 where
    text : Bytes → Value
    prop_map : Entries → Value
    prop_maps : Maps → Value
    values : Values → Value
    string_map : Entries → Value
    other : Value

  -- a map: the first entry of a key counts
  pub data Entries : Type 0 where
    no_entries : Entries
    entry : Bytes → Value → Entries → Entries

  pub data Maps : Type 0 where
    no_maps : Maps
    a_map : Entries → Maps → Maps

  pub data Values : Type 0 where
    no_values : Values
    a_value : Value → Values → Values

-- m[key]
unfoldable pub entry_of : Bytes → Entries → Option Value
unfolding same_text
entry_of key no_entries = none
entry_of key (entry k v es) =
    let later = entry_of key es in if same_text k key then some v else later

abbrev pub get_key : Bytes → Option Value → Option Value
get_key k (some (prop_map es)) = entry_of k es
get_key k _ = none

-- the loop of PropMap.Get
unfoldable pub get_keys : List Bytes → Option Value → Option Value
unfolding entry_of
get_keys [] current = current
get_keys (k ∷ ks) current = get_keys ks (get_key k current)

-- PropMap.Get
unfoldable pub get_property : Entries → Bytes → Option Value
unfolding get_keys split
get_property m key = get_keys (split 46 key) (some (prop_map m))

-- CombinedPropMap.Get
unfoldable pub get_combined : List (Bytes × Entries) → Bytes → Bytes → Option Value
unfolding get_property same_text
get_combined [] an key = none
get_combined ((name, m) ∷ cm) an key =
    let later = get_combined cm an key in if same_text name an then get_property m key else later
