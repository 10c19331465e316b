-- ===== src/Engine/Udp/Manager.antt =====
-- engine/udp.go: the stream manager. Its LRU cache, of a library, is a record of operations with what
-- is relied on of them. The cache holds pointers into a heap of streams, so that a stream that the
-- cache has dropped is still there. `entries` are the analyzers that the factory gives a new stream.
pub mod Flows
pub mod Streams
use open_gfw_next.Base.{
  ℕ, zero, suc, ◌≡◌, ◌⊎◌, Bool, true, false, ◌&&◌, ◌||◌, Option, none, some, List, [], ◌∷◌, ◌++◌,
  Bytes, ◌==◌, if◌then◌else◌, length, get_elem?,
}
use open_gfw_next.Utils.Strings.{same_text}
use open_gfw_next.Engine.{accept}
use open_gfw_next.Engine.Props.{CombinedPropMap, PropUpdate}
use open_gfw_next.Engine.Tcp.{Entry}
use open_gfw_next.Engine.Udp.{
  Stream, Context, MatchResult, accepts, feed_stream, close_active_entries, new_stream,
}

-- gopacket.Flow: the type of its endpoints, and the two
pub record Flow : Type 0 where
  pub kind : ℕ
  pub src : Bytes
  pub dst : Bytes

abbrev pub reverse : Flow → Flow
reverse f = record { kind = f.kind; src = f.dst; dst = f.src }

-- == on flows
unfoldable pub same_flow : Flow → Flow → Bool
unfolding same_text
same_flow f g = f.kind == g.kind && same_text f.src g.src && same_text f.dst g.dst

-- lru.Cache, with 32-bit stream ids for keys and pointers for values
pub record Lru (C : Type 0) : Type 0 where
  pub empty : C
  pub look : C → ℕ → C × Option ℕ
  pub add : C → ℕ → ℕ → C
  pub empty_law : (k : ℕ) → (look empty k).1 ≡ none
  pub look_law : (c : C) (k l v : ℕ) → (look (look c k).0 l).1 ≡ some v → (look c l).1 ≡ some v
  pub add_law :
      (c : C) (k v l w : ℕ) → (look (add c k v) l).1 ≡ some w → (w ≡ v) ⊎ ((look c l).1 ≡ some w)

-- what MatchWithContext gets of a packet
pub record Packet : Type 0 where
  pub stream_id : ℕ
  pub ip_flow : Flow
  pub udp_flow : Flow
  pub payload : Bytes

-- udpStreamValue
pub record Value (V St : Type 0) : Type 0 where
  pub stream : Stream V St
  pub ip_flow : Flow
  pub udp_flow : Flow

-- Match: `ok` and `rev`
unfoldable pub match_flows : {V St : Type 0} → Value V St → Packet → Bool × Bool
unfolding same_flow
match_flows v p =
    let fwd = same_flow v.ip_flow p.ip_flow && same_flow v.udp_flow p.udp_flow in
    let rev =
      same_flow v.ip_flow (reverse p.ip_flow) && same_flow v.udp_flow (reverse p.udp_flow) in
    (fwd || rev, rev)

-- udpStreamManager with the heap
pub record Manager (C V St : Type 0) : Type 0 where
  pub streams : C
  pub heap : List (Value V St)

-- writing through a pointer
unfoldable pub store {ℓ} : {A : Type ℓ} → ℕ → A → List A → List A
store n a [] = []
store zero a (x ∷ xs) = a ∷ xs
store (suc n) a (x ∷ xs) = x ∷ store n a xs

-- what a packet leaves: the stream that it was given to, and the direction
pub record Handled (C V St : Type 0) : Type 0 where
  pub manager : Manager C V St
  pub context : Context
  pub pointer : ℕ
  pub rev : Bool

module _ {C V St : Type 0} (lru : Lru C)
    (feed : St → Bool → Bytes → St × Option (PropUpdate V) × Bool)
    (close : St → Bool → St × Option (PropUpdate V)) (match_rules : CombinedPropMap V → MatchResult)
    (entries : Packet → List (Entry St)) where
  -- the end of MatchWithContext: Accept, and Feed if it says so
  unfoldable pub dispatch :
      Manager C V St → ℕ → Value V St → Bool → Packet → Context → Handled C V St
  unfolding accepts feed_stream store
  dispatch m ptr v rev p uc =
      let (ok, seen) = accepts feed close match_rules v.stream uc in
      let (s, told) = feed_stream feed close match_rules v.stream rev p.payload seen in
      record {
        manager = record m {
          heap = store ptr (record v { stream = if ok then s else v.stream }) m.heap;
        };
        context = if ok then told else seen;
        pointer = ptr;
        rev = rev;
      }

  -- a new stream, put into the cache
  unfoldable pub start : Manager C V St → Packet → Context → Handled C V St
  unfolding dispatch
  start m p uc =
      let v : Value V St = record {
        stream = new_stream (entries p);
        ip_flow = p.ip_flow;
        udp_flow = p.udp_flow;
      } in
      let ptr = length m.heap in
      dispatch (record { streams = lru.add m.streams p.stream_id ptr; heap = m.heap ++ (v ∷ []) })
        ptr v false p uc

  -- the stream that the cache has under the id: used if the flows match, and else closed and replaced
  unfoldable pub resume : Manager C V St → ℕ → Value V St → Packet → Context → Handled C V St
  unfolding match_flows dispatch start close_active_entries store
  resume m ptr v p uc =
      let (ok, rev) = match_flows v p in
      let closed = record v { stream = close_active_entries feed close match_rules v.stream } in
      if ok
      then dispatch m ptr v rev p uc
      else start (record m { heap = store ptr closed m.heap }) p uc

  -- MatchWithContext; `none` is a pointer to nothing
  unfoldable pub match_with_context : Manager C V St → Packet → Context → Option (Handled C V St)
  unfolding start resume
  match_with_context m p uc =
      let (streams, found) = lru.look m.streams p.stream_id in
      let m' = record m { streams = streams } in
      elim found [
        | none ↦ some (start m' p uc)
        | some ptr ↦ elim (get_elem? m.heap ptr) [
          | none ↦ none
          | some v ↦ some (resume m' ptr v p uc)
        ]
      ]

  -- handleUDP of worker.go on each packet: the packets with the streams that they were given to, the
  -- directions and the answers
  unfoldable pub handle_all :
      Manager C V St → List Packet → Option (List (Packet × ℕ × Bool × Context) × Manager C V St)
  unfolding match_with_context
  handle_all m [] = some ([], m)
  handle_all m (p ∷ ps) =
      elim (match_with_context m p (record { verdict = accept; packet = none })) [
        | none ↦ none
        | some r ↦ elim (handle_all r.manager ps) [
          | none ↦ none
          | some (told, m') ↦ some ((p, r.pointer, r.rev, r.context) ∷ told, m')
        ]
      ]
