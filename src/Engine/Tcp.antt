-- ===== src/Engine/Tcp.antt =====
-- engine/tcp.go. `St` is the type of the analyzers' streams; their `Feed` and `Close`, and the
-- ruleset's `Match` on the properties, are parameters. The calls of the Logger that concern the stream
-- are recorded in `log`. The reassembly library calls `Accept` and `ReassembledSG`.
pub mod Verdicts
pub mod Entries
pub mod Quota
use open_gfw_next.Base.{
  ℕ, ◌-◌, Bool, true, false, not, ◌&&◌, ◌||◌, Option, none, some, String, List, [], ◌∷◌, ◌++◌,
  Bytes, ltb, leb, ◌==◌, if◌then◌else◌, length, take,
}
use open_gfw_next.Engine.{
  Verdict, accept, accept_stream, drop_stream, is_accept, Action, maybe, allow, block, drop_action,
  modify, LogEvent, prop_update, stream_action,
}
use open_gfw_next.Engine.Props.{CombinedPropMap, PropUpdate, process_prop_update}

-- what `sg.Info`, `sg.Lengths` and `sg.Fetch` give to ReassembledSG
pub record Segment : Type 0 where
  pub rev : Bool
  pub start : Bool
  pub end : Bool
  pub skip : ℕ
  pub payload : Bytes

-- tcpStreamEntry
pub record Entry (St : Type 0) : Type 0 where
  pub name : String
  pub stream : St
  pub has_limit : Bool
  pub quota : ℕ

-- tcpStream, less what does not change
pub record Stream (V St : Type 0) : Type 0 where
  pub props : CombinedPropMap V
  pub virgin : Bool
  pub active : List (Entry St)
  pub finished : List (Entry St)
  pub last_verdict : Verdict
  pub log : List LogEvent

-- actionToTCPVerdict
unfoldable pub action_to_tcp_verdict : Action → Verdict
action_to_tcp_verdict maybe = accept_stream
action_to_tcp_verdict allow = accept_stream
action_to_tcp_verdict modify = accept_stream
action_to_tcp_verdict block = drop_stream
action_to_tcp_verdict drop_action = drop_stream

-- action != ruleset.ActionMaybe && action != ruleset.ActionModify
abbrev pub decides : Action → Bool
decides maybe = false
decides modify = false
decides _ = true

abbrev pub is_nil : {A : Type 0} → List A → Bool
is_nil [] = true
is_nil (_ ∷ _) = false

-- the part of the data that an entry with a limit is fed
unfoldable pub within_quota : ℕ → Bytes → Bytes
within_quota quota bytes = if ltb quota (length bytes) then take quota bytes else bytes

-- what `feedEntry` leaves and returns
pub record FedEntry (V St : Type 0) : Type 0 where
  pub entry : Entry St
  pub update : Option (PropUpdate V)
  pub close_update : Option (PropUpdate V)
  pub done : Bool

-- what a loop over the entries leaves
pub record Loop (V St : Type 0) : Type 0 where
  pub active : List (Entry St)
  pub finished : List (Entry St)
  pub props : CombinedPropMap V
  pub updated : Bool

module _ {V St : Type 0} (feed : St → Segment → St × Option (PropUpdate V) × Bool)
    (close : St → Bool → St × Option (PropUpdate V))
    (match_rules : CombinedPropMap V → Action) where
  -- an entry without a limit
  feed_unlimited : Entry St → Segment → FedEntry V St
  feed_unlimited e seg =
      let (st, u, done) = feed e.stream seg in
      record { entry = record e { stream = st }; update = u; close_update = none; done = done }

  -- an entry with a limit
  feed_limited : Entry St → Segment → FedEntry V St
  feed_limited e seg =
      let part = within_quota e.quota seg.payload in
      let (st, u, done) = feed e.stream (record seg { payload = part }) in
      let left = e.quota - length part in
      let (closed, cu) = close st true in
      if leb left 0
      then record {
        entry = record e { stream = closed; quota = left };
        update = u;
        close_update = cu;
        done = true;
      }
      else record {
        entry = record e { stream = st; quota = left };
        update = u;
        close_update = none;
        done = done;
      }

  -- feedEntry
  unfoldable pub feed_entry : Entry St → Segment → FedEntry V St
  unfolding feed_unlimited feed_limited
  feed_entry e seg = if not e.has_limit then feed_unlimited e seg else feed_limited e seg

  -- one round of the loop in ReassembledSG: the entries behind `e` are done with
  unfoldable pub feed_round : Entry St → Segment → Loop V St → Loop V St
  feed_round e seg l =
      let f = feed_entry e seg in
      let (props1, up1) = process_prop_update l.props e.name f.update in
      let (props2, up2) = process_prop_update props1 e.name f.close_update in
      record {
        active = if f.done then l.active else f.entry ∷ l.active;
        finished = if f.done then l.finished ++ f.entry ∷ [] else l.finished;
        props = props2;
        updated = l.updated || up1 || up2;
      }

  -- the loop in ReassembledSG, from the last entry to the first
  unfoldable pub feed_entries :
      List (Entry St) → Segment → CombinedPropMap V → List (Entry St) → Loop V St
  feed_entries [] seg props finished = record {
    active = [];
    finished = finished;
    props = props;
    updated = false;
  }
  feed_entries (e ∷ es) seg props finished = feed_round e seg (feed_entries es seg props finished)

  -- the loop in closeActiveEntries
  unfoldable pub close_entries :
      List (Entry St) → CombinedPropMap V → Bool → List (Entry St) → Loop V St
  close_entries [] props updated finished = record {
    active = [];
    finished = finished;
    props = props;
    updated = updated;
  }
  close_entries (e ∷ es) props updated finished =
      let (st, u) = close e.stream false in
      let (props', up) = process_prop_update props e.name u in
      close_entries es props' (updated || up) (finished ++ record e { stream = st } ∷ [])

  -- closeActiveEntries
  unfoldable pub close_active_entries : Stream V St → Stream V St
  close_active_entries s =
      let l = close_entries s.active s.props false s.finished in
      record s {
        props = l.props;
        active = [];
        finished = l.finished;
        log = if l.updated then s.log ++ prop_update true ∷ [] else s.log;
      }

  -- Accept; the context's verdict is left, or set to the last verdict
  unfoldable pub accepts : Stream V St → Verdict → Bool × Verdict
  accepts s verdict =
      if not (is_nil s.active) || s.virgin then (true, verdict) else (false, s.last_verdict)

  -- the block under `action != ActionMaybe && action != ActionModify`
  unfoldable pub act : Stream V St → Verdict → Action → Stream V St × Verdict
  act s verdict action =
      let decided = action_to_tcp_verdict action in
      let logged = s.log ++ stream_action action false ∷ [] in
      let closed = close_active_entries (record s { last_verdict = decided; log = logged }) in
      if decides action then (closed, decided) else (s, verdict)

  -- the block under `updated || s.virgin`
  unfoldable pub match_ruleset : Stream V St → Bool → Verdict → Stream V St × Verdict
  match_ruleset s updated verdict =
      let s' = record s { virgin = false; log = s.log ++ prop_update false ∷ [] } in
      if updated || s.virgin then act s' verdict (match_rules s.props) else (s, verdict)

  -- the end of ReassembledSG: all entries done, and no verdict
  unfoldable pub settle : Stream V St × Verdict → Stream V St × Verdict
  settle (s, verdict) =
      let logged = s.log ++ stream_action allow true ∷ [] in
      if is_nil s.active && is_accept verdict
      then (record s { last_verdict = accept_stream; log = logged }, accept_stream)
      else (s, verdict)

  -- ReassembledSG
  unfoldable pub reassembled : Stream V St → Segment → Verdict → Stream V St × Verdict
  reassembled s seg verdict =
      let l = feed_entries s.active seg s.props s.finished in
      let fed = record s { props = l.props; active = l.active; finished = l.finished } in
      settle (match_ruleset fed l.updated verdict)

  -- ReassemblyComplete
  abbrev pub reassembly_complete : Stream V St → Stream V St × Bool
  reassembly_complete s = (close_active_entries s, true)

-- the stream that tcpStreamFactory.New returns
abbrev pub new_stream : {V St : Type 0} → List (Entry St) → Stream V St
new_stream entries = record {
  props = [];
  virgin = true;
  active = entries;
  finished = [];
  last_verdict = accept;
  log = [];
}
