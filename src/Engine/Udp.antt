-- ===== src/Engine/Udp.antt =====
-- The streams of engine/udp.go. `St` is the type of the analyzers' streams; their `Feed` and `Close`,
-- and the ruleset's `Match` on the properties, are parameters. `Match` answers with an action and, if
-- its modifier instance is one for UDP, with that instance's `Process`, which returns a packet and whether it failed. A quota that
-- falls below 0 in the source stops at 0 here: both are exhausted.
pub mod Verdicts
pub mod Manager
use open_gfw_next.Base.{
  ℕ, ◌-◌, Bool, true, false, not, ◌&&◌, ◌||◌, Option, none, some, String, List, [], ◌∷◌, ◌++◌,
  Bytes, leb, if◌then◌else◌, length,
}
use open_gfw_next.Engine.{
  Verdict, accept, accept_modify, accept_stream, drop_packet, drop_stream, is_accept, Action, maybe,
  allow, block, drop_action, modify, LogEvent, prop_update, stream_action, modify_error,
}
use open_gfw_next.Engine.Props.{CombinedPropMap, PropUpdate, process_prop_update}
use open_gfw_next.Engine.Tcp.{Entry, FedEntry, Loop, is_nil}

-- udpStream, less what does not change; its entries have the fields of tcpStreamEntry
pub record Stream (V St : Type 0) : Type 0 where
  pub props : CombinedPropMap V
  pub virgin : Bool
  pub active : List (Entry St)
  pub finished : List (Entry St)
  pub last_verdict : Verdict
  pub log : List LogEvent

-- udpContext: the verdict, and the packet that replaces the one received
pub record Context : Type 0 where
  pub verdict : Verdict
  pub packet : Option Bytes

-- the result of Ruleset.Match
pub record MatchResult : Type 0 where
  pub action : Action
  pub mod_instance : Option (Bytes → Option Bytes × Bool)

-- actionToUDPVerdict, with its `final`
unfoldable pub action_to_udp_verdict : Action → Verdict × Bool
action_to_udp_verdict maybe = (accept, false)
action_to_udp_verdict allow = (accept_stream, true)
action_to_udp_verdict block = (drop_stream, true)
action_to_udp_verdict drop_action = (drop_packet, false)
action_to_udp_verdict modify = (accept_modify, false)

abbrev pub is_maybe : Action → Bool
is_maybe maybe = true
is_maybe _ = false

-- the action after the modifier has run, the context's packet, and whether ModifyError was logged
pub record Modified : Type 0 where
  pub action : Action
  pub packet : Option Bytes
  pub failed : Bool

abbrev processed : Option Bytes × Bool → Modified
processed (packet, true) = record { action = maybe; packet = packet; failed = true }
processed (packet, false) = record { action = modify; packet = packet; failed = false }

call_modifier : Option (Bytes → Option Bytes × Bool) → Option Bytes → Bytes → Modified
call_modifier none packet payload = record { action = maybe; packet = packet; failed = true }
call_modifier (some process) packet payload = processed (process payload)

-- the block under `action == ruleset.ActionModify`
unfoldable pub run_modifier : MatchResult → Option Bytes → Bytes → Modified
unfolding call_modifier
run_modifier r packet payload = elim (r.action) [
  | modify ↦ call_modifier r.mod_instance packet payload
  | other ↦ record { action = other; packet = packet; failed = false }
]

module _ {V St : Type 0} (feed : St → Bool → Bytes → St × Option (PropUpdate V) × Bool)
    (close : St → Bool → St × Option (PropUpdate V))
    (match_rules : CombinedPropMap V → MatchResult) where
  -- feedEntry: the whole packet is fed, whatever the quota
  unfoldable pub feed_entry : Entry St → Bool → Bytes → FedEntry V St
  feed_entry e rev payload =
      let (st, u, done) = feed e.stream rev payload in
      let left = e.quota - length payload in
      let (closed, cu) = close st true in
      if e.has_limit && leb left 0
      then record {
        entry = record e { stream = closed; quota = left };
        update = u;
        close_update = cu;
        done = true;
      }
      else record {
        entry = record e { stream = st; quota = if e.has_limit then left else e.quota };
        update = u;
        close_update = none;
        done = done;
      }

  -- one round of the loop in Feed: the entries behind `e` are done with
  unfoldable pub feed_round : Entry St → Bool → Bytes → Loop V St → Loop V St
  feed_round e rev payload l =
      let f = feed_entry e rev payload in
      let (props1, up1) = process_prop_update l.props e.name f.update in
      let (props2, up2) = process_prop_update props1 e.name f.close_update in
      record {
        active = if f.done then l.active else f.entry ∷ l.active;
        finished = if f.done then l.finished ++ f.entry ∷ [] else l.finished;
        props = props2;
        updated = l.updated || up1 || up2;
      }

  -- the loop in Feed, from the last entry to the first
  unfoldable pub feed_entries :
      List (Entry St) → Bool → Bytes → CombinedPropMap V → List (Entry St) → Loop V St
  feed_entries [] rev payload props finished = record {
    active = [];
    finished = finished;
    props = props;
    updated = false;
  }
  feed_entries (e ∷ es) rev payload props finished =
      feed_round e rev payload (feed_entries es rev payload props finished)

  -- the loop in closeActiveEntries
  unfoldable pub close_entries :
      List (Entry St) → CombinedPropMap V → Bool → List (Entry St) → Loop V St
  close_entries [] props updated finished = record {
    active = [];
    finished = finished;
    props = props;
    updated = updated;
  }
  close_entries (e ∷ es) props updated finished =
      let (st, u) = close e.stream false in
      let (props', up) = process_prop_update props e.name u in
      close_entries es props' (updated || up) (finished ++ record e { stream = st } ∷ [])

  -- closeActiveEntries, which is also Close
  unfoldable pub close_active_entries : Stream V St → Stream V St
  close_active_entries s =
      let l = close_entries s.active s.props false s.finished in
      record s {
        props = l.props;
        active = [];
        finished = l.finished;
        log = if l.updated then s.log ++ prop_update true ∷ [] else s.log;
      }

  -- Accept
  unfoldable pub accepts : Stream V St → Context → Bool × Context
  accepts s uc =
      if not (is_nil s.active) || s.virgin
      then (true, uc)
      else (false, record uc { verdict = s.last_verdict })

  -- the block under `action != ruleset.ActionMaybe`
  unfoldable pub act : Stream V St → Context → Action → Stream V St × Context
  act s uc action =
      let (verdict, final) = action_to_udp_verdict action in
      let acted = record s {
        last_verdict = verdict;
        log = s.log ++ stream_action action false ∷ [];
      } in
      let closed = close_active_entries acted in
      if is_maybe action
      then (s, uc)
      else (if final then closed else acted, record uc { verdict = verdict })

  -- the block under `updated || s.virgin`
  unfoldable pub match_ruleset : Stream V St → Bool → Context → Bytes → Stream V St × Context
  match_ruleset s updated uc payload =
      let m = run_modifier (match_rules s.props) uc.packet payload in
      let errors = if m.failed then modify_error ∷ [] else [] in
      let s' = record s { virgin = false; log = (s.log ++ prop_update false ∷ []) ++ errors } in
      if updated || s.virgin then act s' (record uc { packet = m.packet }) m.action else (s, uc)

  -- the end of Feed: all entries done, and no verdict
  unfoldable pub settle : Stream V St × Context → Stream V St × Context
  settle (s, uc) =
      let logged = s.log ++ stream_action allow true ∷ [] in
      if is_nil s.active && is_accept uc.verdict
      then (
        record s { last_verdict = accept_stream; log = logged },
        record uc { verdict = accept_stream },
      )
      else (s, uc)

  -- Feed
  unfoldable pub feed_stream : Stream V St → Bool → Bytes → Context → Stream V St × Context
  feed_stream s rev payload uc =
      let l = feed_entries s.active rev payload s.props s.finished in
      let fed = record s { props = l.props; active = l.active; finished = l.finished } in
      settle (match_ruleset fed l.updated uc payload)

-- the stream that udpStreamFactory.New returns
abbrev pub new_stream : {V St : Type 0} → List (Entry St) → Stream V St
new_stream entries = record {
  props = [];
  virgin = true;
  active = entries;
  finished = [];
  last_verdict = accept;
  log = [];
}
