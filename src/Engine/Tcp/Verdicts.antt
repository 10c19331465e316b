-- ===== src/Engine/Tcp/Verdicts.antt =====
-- The verdicts of a TCP stream of engine/tcp.go.
use open_gfw_next.Base.{
  none, ap, some, refl, [], ◌∷◌, ◌∷◌, List, ◌≢◌, ◌≡◌, ◌↔◌, Bool, true, false, ◌&&◌, ◌||◌, Option,
  arith, if◌then◌else◌,
}
use open_gfw_next.Engine.{
  accept_stream, is_accept, drop_stream, Verdict, accept, Action, block, drop_action,
}
use open_gfw_next.Engine.Props.{CombinedPropMap, PropUpdate}
use open_gfw_next.Engine.Tcp.{
  Entry, reassembly_complete, Stream, Segment, action_to_tcp_verdict, feed_entries,
  close_active_entries, accepts, act, match_ruleset, close_entries, settle, reassembled, is_nil,
}

-- a call that the reassembly library makes on a stream, with the verdict that its context has. A
-- flush of buffered segments calls ReassembledSG without Accept.
pub data Call : Type 0 where
  accept_call : Verdict → Call
  reassembled_call : Segment → Verdict → Call
  complete_call : Call

-- data that is handed over on a fresh verdict
abbrev pub is_flush : Call → Bool
is_flush (reassembled_call seg v) = is_accept v
is_flush _ = false

-- the decision of a decided stream after a call
abbrev pub kept : Verdict → Call → Verdict
kept v c = if is_flush c then accept_stream else v

-- what a decided stream answers to each call
abbrev pub answer : Verdict → Call → Option Verdict
answer v (accept_call w) = some v
answer v (reassembled_call seg w) = some (if is_accept w then accept_stream else w)
answer v complete_call = none

unfoldable pub answers : Verdict → List Call → List (Option Verdict)
answers v [] = []
answers v (c ∷ cs) = answer v c ∷ answers (kept v c) cs

pub decision : Verdict → List Call → Verdict
decision v [] = v
decision v (c ∷ cs) = decision (kept v c) cs

module _ {V St : Type 0} (feed : St → Segment → St × Option (PropUpdate V) × Bool)
    (close : St → Bool → St × Option (PropUpdate V))
    (match_rules : CombinedPropMap V → Action) where
  -- The ruleset is asked, and blocks, on the properties that the segment leaves.
  pub due : Stream V St → Segment → Bool
  due s seg =
      let l = feed_entries feed close match_rules s.active seg s.props s.finished in
      let action = match_rules l.props in (l.updated || s.virgin) && (is_block action)
    where
      is_block : Action → Bool
      is_block block = true
      is_block drop_action = true
      is_block _ = false

  -- After a segment that was handed over with a fresh verdict: the stream goes on exactly if an analyzer
  -- is still active, and otherwise the verdict is the last verdict that the stream remembers.
  pub reassembled_decides :
      (s : Stream V St) (seg : Segment)
      → let (s', verdict) = reassembled feed close match_rules s seg accept in
        ((verdict ≡ accept) ↔ (is_nil s'.active ≡ false))
        × (is_nil s'.active ≡ true → s'.last_verdict ≡ verdict)
  unfolding reassembled settle match_ruleset act close_active_entries action_to_tcp_verdict
  reassembled_decides s seg = ground arith

  -- A segment is answered by dropping the stream exactly when the ruleset is asked about it, since the
  -- stream is new or a property changed, and answers `block` or `drop`.
  pub reassembled_drops :
      (s : Stream V St) (seg : Segment)
      → ((reassembled feed close match_rules s seg accept).1 ≡ drop_stream) ↔ (due s seg ≡ true)
  unfolding reassembled settle match_ruleset act action_to_tcp_verdict due
  reassembled_drops s seg = ground arith

  -- a call, and the verdict that it leaves in its context
  unfoldable pub call : Stream V St → Call → Stream V St × Option Verdict
  call s (accept_call v) = (s, some (accepts feed close match_rules s v).1)
  call s (reassembled_call seg v) =
      let (s', v') = reassembled feed close match_rules s seg v in (s', some v')
  call s complete_call = ((reassembly_complete feed close match_rules s).0, none)

  unfoldable pub calls : Stream V St → List Call → Stream V St × List (Option Verdict)
  calls s [] = (s, [])
  calls s (c ∷ cs) = let (s', v) = call s c in let (s'', vs) = calls s' cs in (s'', v ∷ vs)

  -- the stream is decided, and its analyzers and properties are those of `t`
  record IsDecided (t s : Stream V St) (v : Verdict) : Type 0 where
    idle : is_nil s.active ≡ true
    asked : s.virgin ≡ false
    last : s.last_verdict ≡ v
    same_props : s.props ≡ t.props
    same_finished : s.finished ≡ t.finished

  feed_entries_idle :
      (es : List (Entry St)) (seg : Segment) (props : CombinedPropMap V)
      (finished : List (Entry St))
      → is_nil es ≡ true
      → feed_entries feed close match_rules es seg props finished
        ≡ record { active = []; finished = finished; props = props; updated = false }
  unfolding feed_entries
  feed_entries_idle [] seg props finished h = refl
  feed_entries_idle (e ∷ es) seg props finished h = cc

  close_entries_idle :
      (es : List (Entry St)) (props : CombinedPropMap V) (finished : List (Entry St))
      → is_nil es ≡ true
      → close_entries feed close match_rules es props false finished
        ≡ record { active = []; finished = finished; props = props; updated = false }
  unfolding close_entries
  close_entries_idle [] props finished h = refl
  close_entries_idle (e ∷ es) props finished h = cc

  reassembled-IsDecided :
      (t s : Stream V St) (v : Verdict) (seg : Segment) (w : Verdict)
      → IsDecided t s v
      → let (s', w') = reassembled feed close match_rules s seg w in
        IsDecided t s' (if is_accept w then accept_stream else v)
        × (w' ≡ (if is_accept w then accept_stream else w))
  unfolding reassembled settle match_ruleset
  reassembled-IsDecided t s v seg w h =
      ground (arith, feed_entries_idle s.active seg s.props s.finished h.idle)

  complete-IsDecided :
      (t s : Stream V St) (v : Verdict)
      → IsDecided t s v
      → IsDecided t (close_active_entries feed close match_rules s) v
  unfolding close_active_entries
  complete-IsDecided t s v h = ground (arith, close_entries_idle s.active s.props s.finished h.idle)

  call-IsDecided :
      (t s : Stream V St) (v : Verdict) (c : Call)
      → IsDecided t s v
      → IsDecided t (call s c).0 (kept v c) × ((call s c).1 ≡ answer v c)
  unfolding call accepts
  call-IsDecided t s v (accept_call w) h = (h, ground arith)
  call-IsDecided t s v (reassembled_call seg w) h =
      let (d, e) = reassembled-IsDecided t s v seg w h in (d, ap some e)
  call-IsDecided t s v complete_call h = (complete-IsDecided t s v h, refl)

  calls-IsDecided :
      (t : Stream V St) (cs : List Call) (s : Stream V St) (v : Verdict)
      → IsDecided t s v
      → IsDecided t (calls s cs).0 (decision v cs) × ((calls s cs).1 ≡ answers v cs)
  unfolding calls decision answers
  calls-IsDecided t [] s v h = (h, refl)
  calls-IsDecided t (c ∷ cs) s v h =
      let (d, e) = call-IsDecided t s v c h in
      let (d', es) = calls-IsDecided t cs (call s c).0 (kept v c) d in (d', ground (arith, e, es))

  reassembled_call-IsDecided :
      (s : Stream V St) (seg : Segment)
      → (reassembled feed close match_rules s seg accept).1 ≢ accept
      → let (s', v) = reassembled feed close match_rules s seg accept in IsDecided s' s' v
  unfolding reassembled settle match_ruleset act close_active_entries action_to_tcp_verdict
  reassembled_call-IsDecided s seg h = ground arith

  -- After a segment that was answered by a verdict other than `accept`, whatever calls the reassembly
  -- library makes: no analyzer is active and none is fed, and the properties do not change. `Accept`
  -- answers with that verdict until data is handed over on a fresh verdict, and from then on with
  -- `accept_stream`, even where the stream had been dropped.
  pub calls_decided :
      (s : Stream V St) (seg : Segment) (cs : List Call)
      → (reassembled feed close match_rules s seg accept).1 ≢ accept
      → let (s', v) = reassembled feed close match_rules s seg accept in
        let (last, told) = calls s' cs in
        (told ≡ answers v cs)
        × (is_nil last.active ≡ true)
        × (last.finished ≡ s'.finished)
        × (last.props ≡ s'.props)
        × (last.last_verdict ≡ decision v cs)
  calls_decided s seg cs h =
      let (s', v) = reassembled feed close match_rules s seg accept in
      let (d, e) = calls-IsDecided s' cs s' v (reassembled_call-IsDecided s seg h) in
      (e, d.idle, d.same_finished, d.same_props, d.last)
