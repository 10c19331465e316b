-- ===== src/Engine/Udp/Verdicts.antt =====
-- The verdicts of a UDP stream of engine/udp.go.
use open_gfw_next.Base.{
  Bool-cases, inl, inr, ◌++◌, some, some, Bytes, ◌≡◌, refl, Bool, true, false, ◌||◌, Option, none,
  List, [], ◌∷◌, arith, map, if◌then◌else◌,
}
use open_gfw_next.Engine.{
  Verdict, accept, accept_stream, accept_modify, drop_stream, drop_packet, maybe, allow, block,
  drop_action, modify, prop_update, modify_error,
}
use open_gfw_next.Engine.Props.{CombinedPropMap, PropUpdate}
use open_gfw_next.Engine.Tcp.{Loop, is_nil}
use open_gfw_next.Engine.Udp.{
  Stream, Context, MatchResult, action_to_udp_verdict, run_modifier, feed_entries,
  close_active_entries, accepts, act, match_ruleset, settle, feed_stream,
}

-- the worker's context for a packet
abbrev pub fresh : Context
fresh = record { verdict = accept; packet = none }

-- what a modifier's `Process` gives, if it does not fail
pub modified_by : Option Bytes × Bool → Option (Verdict × Option Bytes)
modified_by (packet, true) = none
modified_by (packet, false) = some (accept_modify, packet)

pub modified_by_any : Option (Bytes → Option Bytes × Bool) → Bytes → Option (Verdict × Option Bytes)
modified_by_any none payload = none
modified_by_any (some process) payload = modified_by (process payload)

-- what the rules say to a packet, if they say anything: its verdict, and what replaces it. A rule that
-- modifies says nothing without a modifier for UDP, or if the modifier fails.
pub ruled : MatchResult → Bytes → Option (Verdict × Option Bytes)
ruled r payload = elim (r.action) [
  | maybe ↦ none
  | allow ↦ some (accept_stream, none)
  | block ↦ some (drop_stream, none)
  | drop_action ↦ some (drop_packet, none)
  | modify ↦ modified_by_any r.mod_instance payload
]

module _ {V St : Type 0} (feed : St → Bool → Bytes → St × Option (PropUpdate V) × Bool)
    (close : St → Bool → St × Option (PropUpdate V))
    (match_rules : CombinedPropMap V → MatchResult) where
  -- what the stream manager does with a packet of a stream that it knows: `Accept`, then `Feed`
  unfoldable pub packet : Stream V St → Bool × Bytes → Stream V St × Context
  packet s (rev, payload) =
      let (goes_on, uc) = accepts feed close match_rules s fresh in
      let processed = feed_stream feed close match_rules s rev payload uc in
      if goes_on then processed else (s, uc)

  -- a stream on which no analyzer is active and the ruleset has been asked
  record Settled (s : Stream V St) : Type 0 where
    idle : is_nil s.active ≡ true
    asked : s.virgin ≡ false

  packet_of_Settled :
      (s : Stream V St) (p : Bool × Bytes)
      → Settled s
      → packet s p ≡ (s, record { verdict = s.last_verdict; packet = none })
  unfolding packet accepts
  packet_of_Settled s (rev, payload) h = ground arith

  packet-Settled :
      (s : Stream V St) (p : Bool × Bytes)
      → is_nil (packet s p).0.active ≡ true
      → Settled (packet s p).0 × ((packet s p).0.last_verdict ≡ (packet s p).1.verdict)
  unfolding packet accepts feed_stream settle match_ruleset act close_active_entries
      action_to_udp_verdict
  packet-Settled s (rev, payload) h = ground arith

  -- the packets of a stream in order, and their contexts
  unfoldable pub packets : Stream V St → List (Bool × Bytes) → Stream V St × List Context
  packets s [] = (s, [])
  packets s (p ∷ ps) =
      let (s', uc) = packet s p in let (s'', ucs) = packets s' ps in (s'', uc ∷ ucs)

  packets_of_Settled :
      (ps : List (Bool × Bytes)) (s : Stream V St)
      → Settled s
      → packets s ps ≡ (s, map (λ _. record { verdict = s.last_verdict; packet = none }) ps)
  unfolding packets
  packets_of_Settled [] s h = refl
  packets_of_Settled (p ∷ ps) s h =
      ground (arith, packet_of_Settled s p h, packets_of_Settled ps s h)

  -- Once a packet leaves no analyzer active, its verdict is repeated for whatever follows on the stream,
  -- with no replacement packet. That holds for `drop_packet` and `accept_modify` too, which are meant
  -- for one packet.
  pub verdict_repeats :
      (s : Stream V St) (p : Bool × Bytes) (ps : List (Bool × Bytes))
      → is_nil (packet s p).0.active ≡ true
      → packets (packet s p).0 ps
        ≡ ((packet s p).0, map (λ _. record { verdict = (packet s p).1.verdict; packet = none }) ps)
  verdict_repeats s p ps h =
      let (settled, last) = packet-Settled s p h in
      rw (← last) (packets_of_Settled ps (packet s p).0 settled)

  -- the loop of `Feed`
  abbrev pub looped : Stream V St → Bool × Bytes → Loop V St
  looped s (rev, payload) =
      feed_entries feed close match_rules s.active rev payload s.props s.finished

  -- what the rules say to a packet of the stream, which they are asked about if a property changed or
  -- the stream is new
  pub told : Stream V St → Bool × Bytes → Option (Verdict × Option Bytes)
  told s p =
      let l = looped s p in if l.updated || s.virgin then ruled (match_rules l.props) p.1 else none

  abbrev pub Agrees : Option (Verdict × Option Bytes) → Bool → Context → Type 0
  Agrees (some (v, packet)) idle uc = (uc.verdict ≡ v) × (uc.packet ≡ packet)
  Agrees none idle uc = uc.verdict ≡ (if idle then accept_stream else accept)

  -- the stream that the block under `updated || s.virgin` acts on
  abbrev shown : Stream V St → MatchResult → Bytes → Stream V St
  shown s r payload =
      let errors = if (run_modifier r none payload).failed then modify_error ∷ [] else [] in
      record s { virgin = false; log = (s.log ++ prop_update false ∷ []) ++ errors }

  unasked :
      (s : Stream V St) → Agrees none (is_nil s.active) (settle feed close match_rules (s, fresh)).1
  unfolding settle
  unasked s = ground arith

  asked :
      (s : Stream V St) (r : MatchResult) (payload : Bytes)
      → Agrees
          (ruled r payload)
          (is_nil s.active)
          (settle feed close match_rules (
            act feed close match_rules s
              (record fresh { packet = (run_modifier r none payload).packet })
              (run_modifier r none payload).action)).1
  unfolding settle act action_to_udp_verdict run_modifier ruled modified_by_any modified_by
  asked s r payload = ground arith

  -- The answer to a packet that `Feed` takes: where the rules are asked and say something, their verdict
  -- and their replacement of the packet, and no other; a rule whose modifier fails says nothing. Else
  -- the stream is accepted for good if no analyzer is left, and the packet alone if one is.
  pub feed_stream-told :
      (s : Stream V St) (p : Bool × Bytes)
      → Agrees
          (told s p)
          (is_nil (looped s p).active)
          (feed_stream feed close match_rules s p.0 p.1 fresh).1
  unfolding feed_stream match_ruleset told
  feed_stream-told s p =
      let l = looped s p in
      let fed = record s { props = l.props; active = l.active; finished = l.finished } in
      elim (Bool-cases (l.updated || s.virgin)) [
        | inl e ↦
            rw (e, match_ruleset)
              (asked (shown fed (match_rules l.props) p.1) (match_rules l.props) p.1)
        | inr e ↦ rw (e, match_ruleset) (unasked fed)
      ]
