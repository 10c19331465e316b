-- ===== src/Tests/Manager.antt =====
-- The UDP stream manager with a cache of one entry.
use open_gfw_next.Base.{
  ℕ, ◌≡◌, ◌⊎◌, refl, Bool, true, false, Option, none, some, List, [], ◌∷◌, Bytes, arith, ◌==◌,
  if◌then◌else◌,
}
use open_gfw_next.Engine.{maybe}
use open_gfw_next.Engine.Props.{CombinedPropMap, PropUpdate}
use open_gfw_next.Engine.Tcp.{Entry}
use open_gfw_next.Engine.Udp.{Context, MatchResult}
use open_gfw_next.Engine.Udp.Manager.{Flow, Lru, Packet, Manager, handle_all}
use open_gfw_next.Engine.Udp.Manager.Streams.{packets_of, AllServed, handle_all_served}

abbrev look : Option (ℕ × ℕ) → ℕ → Option (ℕ × ℕ) × Option ℕ
look none k = (none, none)
look (some (l, v)) k = (some (l, v), if l == k then some v else none)

abbrev add : Option (ℕ × ℕ) → ℕ → ℕ → Option (ℕ × ℕ)
add c k v = some (k, v)

look_law :
    (c : Option (ℕ × ℕ)) (k l v : ℕ) → (look (look c k).0 l).1 ≡ some v → (look c l).1 ≡ some v
look_law none k l v h = h
look_law (some c) k l v h = h

add_law :
    (c : Option (ℕ × ℕ)) (k v l w : ℕ)
    → (look (add c k v) l).1 ≡ some w
    → (w ≡ v) ⊎ ((look c l).1 ≡ some w)
add_law c k v l w h = ground (arith, h)

abbrev one_entry : Lru (Option (ℕ × ℕ))
one_entry = record {
  empty = none;
  look = look;
  add = add;
  empty_law = λ k. refl;
  look_law = look_law;
  add_law = add_law;
}

abbrev feed : ℕ → Bool → Bytes → ℕ × Option (PropUpdate ℕ) × Bool
feed n rev payload = (n, none, false)

abbrev close : ℕ → Bool → ℕ × Option (PropUpdate ℕ)
close n limited = (n, none)

abbrev answer : CombinedPropMap ℕ → MatchResult
answer props = record { action = maybe; mod_instance = none }

abbrev entries : Packet → List (Entry ℕ)
entries p = record { name = "dns"; stream = 0; has_limit = false; quota = 0 } ∷ []

abbrev flow : ℕ → ℕ → Flow
flow a b = record { kind = 1; src = a ∷ []; dst = b ∷ [] }

-- a packet, its answer, and a packet of another flow with the same stream id
abbrev three : List Packet
three =
    record { stream_id = 7; ip_flow = flow 1 2; udp_flow = flow 53 99; payload = [] }
    ∷ (record { stream_id = 7; ip_flow = flow 2 1; udp_flow = flow 99 53; payload = [] }
        ∷ (record { stream_id = 7; ip_flow = flow 1 3; udp_flow = flow 53 99; payload = [] } ∷ []))

handle_all_served_example :
    (told : List (Packet × ℕ × Bool × Context)) × (after : Manager (Option (ℕ × ℕ)) ℕ ℕ)
    × (handle_all one_entry feed close answer entries (record { streams = none; heap = [] }) three
        ≡ some (told, after))
    × (packets_of told ≡ three)
    × AllServed one_entry feed close answer entries [] told after.heap
handle_all_served_example = handle_all_served one_entry feed close answer entries three

-- the second packet runs against the first stream, and the third gets a stream of its own
abbrev pointers :
    Option (List (Packet × ℕ × Bool × Context) × Manager (Option (ℕ × ℕ)) ℕ ℕ) → List (ℕ × Bool)
pointers none = []
pointers (some ([], m)) = []
pointers (some (x ∷ [], m)) = []
pointers (some (x ∷ (y ∷ []), m)) = []
pointers (some (x ∷ (y ∷ (z ∷ _)), m)) = (x.1, x.2) ∷ ((y.1, y.2) ∷ ((z.1, z.2) ∷ []))

three_run :
    pointers
      (handle_all one_entry feed close answer entries (record { streams = none; heap = [] }) three)
    ≡ (0, false) ∷ ((0, true) ∷ ((1, false) ∷ []))
unfolding handle_all
three_run = refl
