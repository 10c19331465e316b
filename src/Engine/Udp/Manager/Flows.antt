-- ===== src/Engine/Udp/Manager/Flows.antt =====
-- Which stream of engine/udp.go a packet is given to.
use open_gfw_next.Base.{
  ℕ, zero, suc, ◌<◌, ◌≡◌, ◌≢◌, inl, inr, refl, sym, ap, Bool, true, ◌&&◌, Option, none, some, List,
  [], ◌∷◌, ◌++◌, arith, if◌then◌else◌, length, get_elem?, Bool-cases,
}
use open_gfw_next.Utils.Strings.Laws.{same_text_iff}
use open_gfw_next.Engine.Udp.{Stream}
use open_gfw_next.Engine.Udp.Manager.{Flow, reverse, same_flow, Packet, Value, match_flows, store}

same_flow_sound : (f g : Flow) → same_flow f g ≡ true → f ≡ g
unfolding same_flow
same_flow_sound f g h =
    let k : f.kind ≡ g.kind = ground (arith, h) in
    let a = (same_text_iff f.src g.src).0 (ground (arith, h)) in
    let b = (same_text_iff f.dst g.dst).0 (ground (arith, h)) in cc

-- a flow, or its reverse for a packet that runs against the stream
abbrev pub directed : Bool → Flow → Flow
directed rev f = if rev then reverse f else f

module _ {V St : Type 0} where
  -- the flows of the stream behind a pointer
  pub flows_at : List (Value V St) → ℕ → Option (Flow × Flow)
  flows_at [] i = none
  flows_at (v ∷ vs) zero = some (v.ip_flow, v.udp_flow)
  flows_at (v ∷ vs) (suc i) = flows_at vs i

  pub flows_at_get :
      (vs : List (Value V St)) (i : ℕ) (v : Value V St)
      → get_elem? vs i ≡ some v
      → flows_at vs i ≡ some (v.ip_flow, v.udp_flow)
  unfolding flows_at
  flows_at_get [] i v h = cc
  flows_at_get (w ∷ vs) zero v h = ground (arith, h)
  flows_at_get (w ∷ vs) (suc i) v h = flows_at_get vs i v h

  -- the stream behind a pointer
  pub stream_at : List (Value V St) → ℕ → Option (Stream V St)
  stream_at [] i = none
  stream_at (v ∷ vs) zero = some v.stream
  stream_at (v ∷ vs) (suc i) = stream_at vs i

  pub stream_at_get :
      (vs : List (Value V St)) (i : ℕ) (v : Value V St)
      → get_elem? vs i ≡ some v
      → stream_at vs i ≡ some v.stream
  unfolding stream_at
  stream_at_get [] i v h = cc
  stream_at_get (w ∷ vs) zero v h = ground (arith, h)
  stream_at_get (w ∷ vs) (suc i) v h = stream_at_get vs i v h

  pub stream_at-store :
      (i : ℕ) (v : Value V St) (vs : List (Value V St))
      → i < length vs
      → stream_at (store i v vs) i ≡ some v.stream
  unfolding stream_at store
  stream_at-store i v [] h = absurd (omega arith)
  stream_at-store zero v (w ∷ vs) h = refl
  stream_at-store (suc i) v (w ∷ vs) h = stream_at-store i v vs (omega arith)

  pub get_elem?-ne-none : (vs : List (Value V St)) (i : ℕ) → i < length vs → get_elem? vs i ≢ none
  get_elem?-ne-none [] i h e = absurd (omega arith)
  get_elem?-ne-none (v ∷ vs) zero h e = cc
  get_elem?-ne-none (v ∷ vs) (suc i) h e = get_elem?-ne-none vs i (omega arith) e

  pub length-store :
      (i : ℕ) (v : Value V St) (vs : List (Value V St)) → length (store i v vs) ≡ length vs
  unfolding store
  length-store i v [] = refl
  length-store zero v (w ∷ vs) = refl
  length-store (suc i) v (w ∷ vs) = ap suc (length-store i v vs)

  pub flows_at-store :
      (i : ℕ) (v : Value V St) (vs : List (Value V St)) (j : ℕ)
      → flows_at vs i ≡ some (v.ip_flow, v.udp_flow)
      → flows_at (store i v vs) j ≡ flows_at vs j
  unfolding flows_at store
  flows_at-store i v [] j h = refl
  flows_at-store zero v (w ∷ vs) zero h = sym h
  flows_at-store zero v (w ∷ vs) (suc j) h = refl
  flows_at-store (suc i) v (w ∷ vs) zero h = refl
  flows_at-store (suc i) v (w ∷ vs) (suc j) h = flows_at-store i v vs j h

  pub flows_at-end :
      (vs : List (Value V St)) (v : Value V St)
      → flows_at (vs ++ (v ∷ [])) (length vs) ≡ some (v.ip_flow, v.udp_flow)
  unfolding flows_at
  flows_at-end [] v = refl
  flows_at-end (w ∷ vs) v = flows_at-end vs v

  -- the stream has the flows of the packet, in that direction
  abbrev pub IsOwn : List (Value V St) → Packet → ℕ → Bool → Type 0
  IsOwn vs p i rev = flows_at vs i ≡ some (directed rev p.ip_flow, directed rev p.udp_flow)

  pub match_flows_sound :
      (v : Value V St) (p : Packet)
      → (match_flows v p).0 ≡ true
      → ◌≡◌ {A = Option (Flow × Flow)}
          (some (v.ip_flow, v.udp_flow))
          (some (directed (match_flows v p).1 p.ip_flow, directed (match_flows v p).1 p.udp_flow))
  unfolding match_flows
  match_flows_sound v p h =
      elim (Bool-cases
        (same_flow v.ip_flow (reverse p.ip_flow) && same_flow v.udp_flow (reverse p.udp_flow))) [
          | inl e ↦ ground (
            arith,
            e,
            same_flow_sound v.ip_flow (reverse p.ip_flow),
            same_flow_sound v.udp_flow (reverse p.udp_flow),
          )
          | inr e ↦ ground (
            arith,
            e,
            h,
            same_flow_sound v.ip_flow p.ip_flow,
            same_flow_sound v.udp_flow p.udp_flow,
          )
        ]
