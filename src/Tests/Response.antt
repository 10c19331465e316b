-- ===== src/Tests/Response.antt =====
-- The response sink at concrete inputs. Every text is an address as it stands.
use open_gfw_next.Base.{
  String, ℕ, ◌≡◌, refl, Bool, true, false, Option, none, some, List, [], ◌∷◌, Bytes, arith,
}
use open_gfw_next.Utils.Strings.{codes}
use open_gfw_next.Cmd.Response.{Config, Sink, Alert}
use open_gfw_next.Cmd.Response.Handle.{handle, command_failed, cooling}
use open_gfw_next.Cmd.Response.Cooldown.{Event, handled, attempts, IsSpaced, attempts-IsSpaced}
use open_gfw_next.Cmd.Response.Failures.{handle_failed}

abbrev parse_mac : Bytes → Option Bytes
parse_mac s = some s

abbrev config : Config
config = record {
  enabled = true;
  bridge = codes "br0";
  rules = [];
  min_severity = codes "high";
  ofctl = codes "ovs-ofctl";
  open_flow = [];
  priority = 1;
  cookie = codes "0x1";
  delete_on_start = false;
  hard_timeout = 0;
  idle_timeout = 0;
  cooldown = 10;
  queue_size = 4;
  command_timeout = 1;
  require_identity = none;
}

abbrev sink : Sink
sink = record { config = config; rules = []; min_severity = 5; queue = []; last = [] }

abbrev about : String → Alert
about mac = record { rule = codes "r"; severity = codes "high"; meta = λ key. codes mac }

abbrev event : String → ℕ → Bool → Event
event mac time ok = record { alert = about mac; time = time; runs = λ args. ok }

abbrev history : List Event
history =
    event "aa" 5 false ∷ (event "bb" 6 true ∷ (event "aa" 14 true ∷ (event "aa" 15 true ∷ [])))

history_run :
    attempts parse_mac sink history ≡ (codes "aa", 5) ∷ ((codes "bb", 6) ∷ ((codes "aa", 15) ∷ []))
unfolding attempts handle
history_run = refl

attempts-IsSpaced_example : IsSpaced 10 (attempts parse_mac sink history)
attempts-IsSpaced_example = attempts-IsSpaced parse_mac sink history

first_fails : (handled parse_mac sink (event "aa" 5 false)).answer ≡ command_failed
unfolding handle
first_fails = refl

handle_failed_example :
    handled parse_mac (handled parse_mac sink (event "aa" 5 false)).sink (event "aa" 14 true)
    ≡ record {
      sink = (handled parse_mac sink (event "aa" 5 false)).sink;
      commands = [];
      answer = cooling;
    }
handle_failed_example =
    handle_failed parse_mac sink (event "aa" 5 false) (event "aa" 14 true) first_fails refl
      (ground arith)
