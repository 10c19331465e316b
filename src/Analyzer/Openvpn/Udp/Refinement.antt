-- ===== src/Analyzer/Openvpn/Udp/Refinement.antt =====
-- The UDP stream of analyzer/udp/openvpn.go refines the handshake automaton, packet by packet.
use open_gfw_next.Base.{
  ℕ, ◌≡◌, refl, ◌∙◌, inl, inr, Bool, true, false, Option, none, some, List, [], ◌∷◌, Bytes, arith,
  if◌then◌else◌, Option-cases, Bool-cases,
}
use open_gfw_next.Analyzer.Openvpn.{opcode_of, Stream, Counts, Fed, feed_req, feed_resp}
use open_gfw_next.Analyzer.Openvpn.Udp.{new, parse_pkt, feed}
use open_gfw_next.Analyzer.Openvpn.Udp.Handshake.{
  Session, fresh, judge, report, Tracks, Tracks-new, Agrees, stage, feed-stage, request-ne-none,
  request-Agrees, response-ne-none, response-Agrees,
}

-- In a session that the stream tracks, `Feed` of a packet returns, and what it returns agrees with
-- the automaton: the counters reported, whether the stream is given up, and, if it is not, the
-- session that it tracks next. The opcode is the upper five bits of the first byte.
pub feed-Agrees :
    (a : Session) (s : Stream (Option Bytes)) (rev : Bool) (x : ℕ) (bytes : Bytes)
    → Tracks s a
    → (r : Fed (Option Bytes)) × (feed s rev (x ∷ bytes) ≡ some r)
      × Agrees r (judge a rev (opcode_of x))
feed-Agrees a s false x bytes t =
    let at = feed-stage s a false x bytes t in
    let staged =
      feed_req parse_pkt parse_pkt (stage a.client_reset a.server_reset s.shared x bytes) in
    elim (Option-cases staged) [
      | inl e ↦ absurd (request-ne-none a s x bytes t a.client_reset a.server_reset e)
      | inr (r, e) ↦
          (r, at ∙ e, request-Agrees a s x bytes t r a.client_reset a.server_reset refl refl e)
    ]
feed-Agrees a s true x bytes t =
    let at = feed-stage s a true x bytes t in
    let staged =
      feed_resp parse_pkt parse_pkt (stage a.client_reset a.server_reset s.shared x bytes) in
    elim (Option-cases staged) [
      | inl e ↦ absurd (response-ne-none a s x bytes t a.client_reset a.server_reset e)
      | inr (r, e) ↦
          (r, at ∙ e, response-Agrees a s x bytes t r a.client_reset a.server_reset refl refl e)
    ]

-- a packet: its direction, its first byte and the rest
abbrev pub Packet : Type 0
Packet = Bool × ℕ × Bytes

abbrev more : Option Counts → Option (List (Option Counts)) → Option (List (Option Counts))
more u none = none
more u (some us) = some (u ∷ us)

-- the updates of the engine's calls of `Feed`, up to the one that is done
pub feed_all : Stream (Option Bytes) → List Packet → Option (List (Option Counts))
feed_all s [] = some []
feed_all s ((rev, x, bytes) ∷ ps) = elim (feed s rev (x ∷ bytes)) [
  | none ↦ none
  | some r ↦
      let rest = feed_all r.stream ps in if r.done then some (r.update ∷ []) else more r.update rest
]

-- the reports of the automaton, up to the packet that ends the session
pub judge_all : Session → List Packet → List (Option Counts)
judge_all a [] = []
judge_all a ((rev, x, bytes) ∷ ps) =
    let j = judge a rev (opcode_of x) in
    let rest = judge_all j.session ps in if j.over then report j ∷ [] else report j ∷ rest

feed_all-Tracks :
    (ps : List Packet) (a : Session) (s : Stream (Option Bytes))
    → Tracks s a
    → feed_all s ps ≡ some (judge_all a ps)
unfolding feed_all judge_all
feed_all-Tracks [] a s t = refl
feed_all-Tracks ((rev, x, bytes) ∷ ps) a s t =
    let (r, e, agrees) = feed-Agrees a s rev x bytes t in
    let next = judge a rev (opcode_of x) in
    elim (Bool-cases next.over) [
      | inl over ↦ ground (arith, e, agrees.update, agrees.done, over)
      | inr goes_on ↦
          let rest = feed_all-Tracks ps next.session r.stream (agrees.tracks goes_on) in
          ground (arith, e, agrees.update, agrees.done, goes_on, rest)
    ]

-- For every sequence of packets the stream returns the updates of the handshake automaton.
pub feed_all-judge_all : (ps : List Packet) → feed_all new ps ≡ some (judge_all fresh ps)
feed_all-judge_all ps = feed_all-Tracks ps fresh new Tracks-new
