-- ===== src/Cmd/Response.antt =====
-- cmd/response.go. Durations and times are nanoseconds; a negative number of the configuration acts
-- as zero. The command runner is a function from a command's arguments to whether it succeeds, the
-- clock's reading comes with the call, and the metadata of an event is a function, empty for a missing
-- key. What is logged and
-- counted is left out, and so are the texts of the errors.
pub mod Handle
pub mod Cooldown
pub mod Failures
pub mod Severity
use open_gfw_next.Base.{
  ℕ, ◌+◌, Bool, true, false, not, ◌&&◌, ◌||◌, Option, none, some, List, [], ◌∷◌, ◌++◌, Bytes, ltb,
  leb, ◌==◌, if◌then◌else◌, length,
}
use open_gfw_next.Utils.Strings.{codes, same_text, is_empty, to_lower, trim_space}
use open_gfw_next.Utils.Strings.Format.{join, itoa}
use open_gfw_next.Ruleset.{is_among}
use open_gfw_next.Cmd.Identity.{make_string_set, normalize_mac}
use open_gfw_next.Cmd.Risk.{duration_seconds}

-- severityRank
unfoldable pub severity_rank : Bytes → ℕ
unfolding same_text to_lower trim_space
severity_rank severity =
    let s = to_lower (trim_space severity) in
    if same_text s (codes "debug")
    then 1
    else if same_text s (codes "info")
    then 2
    else if same_text s (codes "low")
    then 3
    else if same_text s (codes "medium")
    then 4
    else if same_text s (codes "high")
    then 5
    else if same_text s (codes "critical")
    then 6
    else 0

-- cliConfigOVSResponse
pub record Config : Type 0 where
  pub enabled : Bool
  pub bridge : Bytes
  pub rules : List Bytes
  pub min_severity : Bytes
  pub ofctl : Bytes
  pub open_flow : Bytes
  pub priority : ℕ
  pub cookie : Bytes
  pub delete_on_start : Bool
  pub hard_timeout : ℕ
  pub idle_timeout : ℕ
  pub cooldown : ℕ
  pub queue_size : ℕ
  pub command_timeout : ℕ
  pub require_identity : Option Bool

-- the fields of an alertEvent that are read here
pub record Alert : Type 0 where
  pub rule : Bytes
  pub severity : Bytes
  pub meta : Bytes → Bytes

-- ovsResponseSink
pub record Sink : Type 0 where
  pub config : Config
  pub rules : List Bytes
  pub min_severity : ℕ
  pub queue : List Alert
  pub last : List (Bytes × ℕ)

abbrev or_default : {A : Type 0} → Bool → A → A → A
or_default unset d a = if unset then d else a

-- the configuration with its defaults
unfoldable pub with_defaults : Config → Config
with_defaults c = record c {
  ofctl = or_default (is_empty c.ofctl) (codes "ovs-ofctl") c.ofctl;
  priority = or_default (c.priority == 0) 50000 c.priority;
  cookie = or_default (is_empty c.cookie) (codes "0x4f474657") c.cookie;
  hard_timeout = or_default (c.hard_timeout == 0) 1800000000000 c.hard_timeout;
  cooldown = or_default (c.cooldown == 0) 300000000000 c.cooldown;
  queue_size = or_default (c.queue_size == 0) 256 c.queue_size;
  command_timeout = or_default (c.command_timeout == 0) 3000000000 c.command_timeout;
}

-- what newResponseSink returns
pub data Built : Type 0 where
  disabled no_bridge invalid_severity nothing_selected : Built
  built : Sink → List Bytes → Built

-- ovsCommand: the arguments after the command's name
unfoldable pub ovs_command : Config → List Bytes → List Bytes
ovs_command c args = if is_empty c.open_flow then args else codes "-O" ∷ (c.open_flow ∷ args)

-- deleteCookieFlows
unfoldable pub delete_cookie_flows : Config → List Bytes
unfolding ovs_command
delete_cookie_flows c =
    ovs_command c
      (codes "del-flows" ∷ (c.bridge ∷ ((codes "cookie=" ++ (c.cookie ++ codes "/-1")) ∷ [])))

-- newResponseSink, with the command that it runs first, if any
unfoldable pub new_response_sink : Config → Built
unfolding severity_rank with_defaults make_string_set delete_cookie_flows
new_response_sink c =
    let rank = severity_rank c.min_severity in
    let d = with_defaults c in
    if not c.enabled
    then disabled
    else if is_empty c.bridge
    then no_bridge
    else if not (is_empty c.min_severity) && rank == 0
    then invalid_severity
    else if length c.rules == 0 && rank == 0
    then nothing_selected
    else built
        (record {
          config = d;
          rules = make_string_set d.rules;
          min_severity = rank;
          queue = [];
          last = [];
        })
        (if d.delete_on_start then delete_cookie_flows d else [])

-- shouldHandle
unfoldable pub should_handle : Sink → Alert → Bool
unfolding is_among severity_rank
should_handle s e =
    is_among e.rule s.rules
    || (ltb 0 s.min_severity && leb s.min_severity (severity_rank e.severity))

-- enqueue, which is also Quarantine: an event that finds the queue full is dropped
unfoldable pub enqueue : Sink → Alert → Sink
enqueue s e =
    if ltb (length s.queue) s.config.queue_size then record s { queue = s.queue ++ (e ∷ []) } else s

-- Emit
unfoldable pub emit : Sink → Alert → Sink
unfolding should_handle enqueue
emit s e = if should_handle s e then enqueue s e else s
