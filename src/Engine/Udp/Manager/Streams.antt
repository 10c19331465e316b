-- ===== src/Engine/Udp/Manager/Streams.antt =====
-- The stream manager of engine/udp.go over any list of packets.
use open_gfw_next.Base.{
  ◌⊎◌, ap, ℕ, ◌<◌, ◌≡◌, inl, inr, refl, ◌∙◌, Bool, false, Option, some, List, [], ◌∷◌, ◌++◌, Bytes,
  arith, length, length-append, get_elem?, Option-cases, Bool-cases,
}
use open_gfw_next.Engine.Props.{CombinedPropMap, PropUpdate}
use open_gfw_next.Engine.Tcp.{Entry}
use open_gfw_next.Engine.Udp.{Stream, Context, MatchResult, new_stream, close_active_entries}
use open_gfw_next.Engine.Udp.Verdicts.{packet, fresh}
use open_gfw_next.Engine.Udp.Manager.{
  Flow, Lru, Packet, Value, match_flows, Manager, store, Handled, dispatch, start, resume,
  match_with_context, handle_all,
}
use open_gfw_next.Engine.Udp.Manager.Flows.{
  directed, flows_at, flows_at_get, stream_at, stream_at_get, stream_at-store, get_elem?-ne-none,
  length-store, flows_at-store, flows_at-end, IsOwn, match_flows_sound,
}

abbrev pub packets_of : List (Packet × ℕ × Bool × Context) → List Packet
packets_of [] = []
packets_of ((p, i, rev, uc) ∷ told) = p ∷ packets_of told

module _ {C V St : Type 0} (lru : Lru C)
    (feed : St → Bool → Bytes → St × Option (PropUpdate V) × Bool)
    (close : St → Bool → St × Option (PropUpdate V)) (match_rules : CombinedPropMap V → MatchResult)
    (entries : Packet → List (Entry St)) where
  -- every pointer of the cache points into the heap
  abbrev pub IsValid : Manager C V St → Type 0
  IsValid m = (k ptr : ℕ) → (lru.look m.streams k).1 ≡ some ptr → ptr < length m.heap

  -- the stream that a packet finds behind its pointer: one of the heap, or a new one behind its end
  abbrev pub StartsAt : List (Value V St) → Packet → ℕ → Stream V St → Type 0
  StartsAt vs p i s = (stream_at vs i ≡ some s) ⊎ ((i ≡ length vs) × (s ≡ new_stream (entries p)))

  -- A packet that finds the heap `vs` and leaves `us` is given to a stream of its own flows, and the
  -- stream and the packet's context become what the stream makes of a packet in that direction.
  pub record IsServed (vs : List (Value V St)) (p : Packet) (i : ℕ) (rev : Bool) (uc : Context)
      (us : List (Value V St)) : Type 0 where
    pub own : IsOwn us p i rev
    pub before : Stream V St
    pub starts : StartsAt vs p i before
    pub fed : stream_at us i ≡ some (packet feed close match_rules before (rev, p.payload)).0
    pub answered : uc ≡ (packet feed close match_rules before (rev, p.payload)).1

  -- so for a list of packets
  abbrev pub AllServed :
      List (Value V St) → List (Packet × ℕ × Bool × Context) → List (Value V St) → Type 0
  AllServed vs [] ws = vs ≡ ws
  AllServed vs ((p, i, rev, uc) ∷ told) ws =
      (us : List (Value V St)) × IsServed vs p i rev uc us × AllServed us told ws

  -- what handling a packet leaves
  abbrev Step : List (Value V St) → Packet → Handled C V St → Type 0
  Step vs p r = IsServed vs p r.pointer r.rev r.context r.manager.heap × IsValid r.manager

  dispatch-Step :
      (vs : List (Value V St)) (m : Manager C V St) (ptr : ℕ) (v : Value V St) (rev : Bool)
      (p : Packet)
      → IsValid m
      → ptr < length m.heap
      → flows_at m.heap ptr ≡ some (v.ip_flow, v.udp_flow)
      → ◌≡◌ {A = Option (Flow × Flow)}
          (some (v.ip_flow, v.udp_flow))
          (some (directed rev p.ip_flow, directed rev p.udp_flow))
      → StartsAt vs p ptr v.stream
      → Step vs p (dispatch lru feed close match_rules entries m ptr v rev p fresh)
  unfolding dispatch packet
  dispatch-Step vs m ptr v rev p valid inside here own starts =
      let r = dispatch lru feed close match_rules entries m ptr v rev p fresh in
      let v' : Value V St = record v {
        stream = (packet feed close match_rules v.stream (rev, p.payload)).0;
      } in
      let same : r.manager.heap ≡ store ptr v' m.heap = ground arith in
      (
        record {
          own = rw same (flows_at-store ptr v' m.heap ptr here ∙ (here ∙ own));
          before = v.stream;
          starts = starts;
          fed = rw same (stream_at-store ptr v' m.heap inside);
          answered = ground arith;
        },
        λ k i e. ground (arith, same, valid k i e, length-store ptr v' m.heap),
      )

  start-Step :
      (vs : List (Value V St)) (m : Manager C V St) (p : Packet)
      → IsValid m
      → length m.heap ≡ length vs
      → Step vs p (start lru feed close match_rules entries m p fresh)
  unfolding start
  start-Step vs m p valid same =
      let v : Value V St = record {
        stream = new_stream (entries p);
        ip_flow = p.ip_flow;
        udp_flow = p.udp_flow;
      } in
      let ptr = length m.heap in
      let m' : Manager C V St = record {
        streams = lru.add m.streams p.stream_id ptr;
        heap = m.heap ++ (v ∷ []);
      } in
      let longer = length-append m.heap (v ∷ []) in
      let valid' : IsValid m' = λ k i e. elim (lru.add_law m.streams p.stream_id ptr k i e) [
        | inl x ↦ omega (arith, x, longer)
        | inr x ↦ omega (arith, valid k i x, longer)
      ] in
      dispatch-Step vs m' ptr v false p valid' (omega (arith, longer)) (flows_at-end m.heap v) refl
        (inr (same, refl))

  resume-Step :
      (m : Manager C V St) (ptr : ℕ) (v : Value V St) (p : Packet)
      → IsValid m
      → ptr < length m.heap
      → get_elem? m.heap ptr ≡ some v
      → Step m.heap p (resume lru feed close match_rules entries m ptr v p fresh)
  unfolding resume
  resume-Step m ptr v p valid inside here =
      let closed : Value V St = record v {
        stream = close_active_entries feed close match_rules v.stream;
      } in
      let m' = record m { heap = store ptr closed m.heap } in
      let as_long = length-store ptr closed m.heap in
      let valid' : IsValid m' = λ k i e. ground (arith, valid k i e, as_long) in
      elim (Bool-cases (match_flows v p).0) [
        | inl e ↦ rw e (
            dispatch-Step m.heap m ptr v (match_flows v p).1 p valid inside
              (flows_at_get m.heap ptr v here) (match_flows_sound v p e)
              (inl (stream_at_get m.heap ptr v here)))
        | inr e ↦ rw e (start-Step m.heap m' p valid' as_long)
      ]

  looked_up :
      (m : Manager C V St) (k : ℕ)
      → IsValid m
      → IsValid (record m { streams = (lru.look m.streams k).0 })
  looked_up m k valid l i e = valid l i (lru.look_law m.streams k l i e)

  match_with_context-Step :
      (m : Manager C V St) (p : Packet)
      → IsValid m
      → (r : Handled C V St) × (match_with_context lru feed close match_rules entries m p fresh
          ≡ some r)
        × Step m.heap p r
  unfolding match_with_context
  match_with_context-Step m p valid =
      let m' = record m { streams = (lru.look m.streams p.stream_id).0 } in
      let valid' = looked_up m p.stream_id valid in
      elim (Option-cases (lru.look m.streams p.stream_id).1) [
        | inl e ↦ (
          start lru feed close match_rules entries m' p fresh,
          rw (e, match_with_context) refl,
          start-Step m.heap m' p valid' refl,
        )
        | inr (ptr, e) ↦ elim (Option-cases (get_elem? m.heap ptr)) [
          | inl x ↦ absurd (get_elem?-ne-none m.heap ptr (valid p.stream_id ptr e) x)
          | inr (v, x) ↦ (
            resume lru feed close match_rules entries m' ptr v p fresh,
            rw (e, x, match_with_context) refl,
            resume-Step m' ptr v p valid' (valid p.stream_id ptr e) x,
          )
        ]
      ]

  -- what a list of packets leaves
  record Outcome (m : Manager C V St) (ps : List Packet) : Type 0 where
    told : List (Packet × ℕ × Bool × Context)
    after : Manager C V St
    ran : handle_all lru feed close match_rules entries m ps ≡ some (told, after)
    served : AllServed m.heap told after.heap
    in_order : packets_of told ≡ ps

  outcome : (m : Manager C V St) (ps : List Packet) → IsValid m → Outcome m ps
  unfolding handle_all
  outcome m [] valid = record { told = []; after = m; ran = refl; served = refl; in_order = refl }
  outcome m (p ∷ ps) valid =
      let (r, e, (served, valid')) = match_with_context-Step m p valid in
      let rest = outcome r.manager ps valid' in
      record {
        told = (p, r.pointer, r.rev, r.context) ∷ rest.told;
        after = rest.after;
        ran = rw (e, rest.ran, handle_all) refl;
        served = (r.manager.heap, served, rest.served);
        in_order = ap (λ qs. p ∷ qs) rest.in_order;
      }

  abbrev empty_manager : Manager C V St
  empty_manager = record { streams = lru.empty; heap = [] }

  -- A manager that starts empty handles every list of packets, whatever the cache drops and however
  -- stream ids collide, without following a pointer to nothing. Each packet in turn is given to a stream
  -- of its own flow, network and transport, which is a new one or one that was there, and it does with
  -- the stream, and is answered by it, as a packet in the direction in which it runs against the stream's
  -- flow.
  pub handle_all_served :
      (ps : List Packet)
      → (told : List (Packet × ℕ × Bool × Context)) × (after : Manager C V St) × (handle_all lru
            feed close match_rules entries empty_manager ps
          ≡ some (told, after))
        × (packets_of told ≡ ps)
        × AllServed [] told after.heap
  handle_all_served ps =
      let o = outcome empty_manager ps (λ k i e. absurd (ground (arith, e, lru.empty_law k))) in
      (o.told, o.after, o.ran, o.in_order, o.served)
