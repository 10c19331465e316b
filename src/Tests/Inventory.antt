-- ===== src/Tests/Inventory.antt =====
-- The inventory at concrete inputs.
use open_gfw_next.Base.{◌≡◌, refl, none, some, List, [], ◌∷◌, Bytes, map}
use open_gfw_next.Utils.Strings.{codes}
use open_gfw_next.Cmd.Allowlist.{text_in}
use open_gfw_next.Tests.Allowlist.{texts}
use open_gfw_next.Cmd.Inventory.{
  Entry, Compiled, StreamInfo, Found, compile_entry, match_entry, metadata, enrich,
}
use open_gfw_next.Cmd.Inventory.Facts.{Described, enrich-Described, metadata-entry}

abbrev vm : Bytes → List Bytes → Entry
vm id macs = record {
  id = id;
  name = [];
  tenant = [];
  macs = macs;
  ips = [];
  interfaces = [];
  vlans = [];
  labels = (codes "id", codes "other") ∷ [];
  source = [];
}

abbrev entries : List Entry
entries = vm (codes "a") (codes "M1" ∷ []) ∷ (vm (codes "b") (codes "m2" ∷ []) ∷ [])

abbrev from_second : StreamInfo Bytes
from_second = record {
  src_ip = none;
  dst_ip = none;
  meta = some ((codes "l2.src", codes "M2 ") ∷ []);
}

enrich-Described_example :
    Described texts
      (λ s. none)
      entries
      from_second
      (enrich texts (λ s. none) (map (compile_entry texts (λ s. none)) entries) from_second)
enrich-Described_example = enrich-Described texts (λ s. none) entries from_second

second_run :
    match_entry texts
      (λ s. none)
      (compile_entry texts (λ s. none) (vm (codes "b") (codes "m2" ∷ [])))
      from_second
    ≡ some (record { source = codes "l2.src"; value = codes "m2" })
unfolding match_entry compile_entry
second_run = refl

abbrev compiled : Compiled Bytes
compiled = compile_entry texts (λ s. none) (vm (codes "b") (codes "m2" ∷ []))

abbrev by_source : Found
by_source = record { source = codes "l2.src"; value = codes "m2" }

metadata-entry_example :
    (text_in (codes "vm.id") (metadata compiled by_source) ≡ codes "b")
    × (text_in (codes "vm.name") (metadata compiled by_source) ≡ [])
    × (text_in (codes "vm.tenant") (metadata compiled by_source) ≡ [])
    × (text_in (codes "identity.match") (metadata compiled by_source) ≡ codes "l2.src")
    × (text_in (codes "identity.value") (metadata compiled by_source) ≡ codes "m2")
unfolding compile_entry
metadata-entry_example = metadata-entry compiled by_source
