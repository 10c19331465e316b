-- ===== src/Tests/Allowlist.antt =====
-- An allowlist at concrete inputs.
use open_gfw_next.Base.{is_some, ◌≡◌, refl, true, false, none, some, [], ◌∷◌, Bytes, if◌then◌else◌}
use open_gfw_next.Utils.ByteBuffer.{is_prefix}
use open_gfw_next.Utils.Strings.{codes, is_empty, has_prefix}
use open_gfw_next.Analyzer.Values.{text, prop_map, entry, no_entries}
use open_gfw_next.Cmd.Allowlist.{Net, Config, Allowlist, Event}
use open_gfw_next.Cmd.Allowlist.Listed.{is_listed}
use open_gfw_next.Cmd.Allowlist.Made.{match_event-new_allowlist}
use open_gfw_next.Cmd.Allowlist.Rules.{new_allowlist, match_event}

-- addresses are texts that are not empty, and networks the addresses that begin with a text
abbrev pub texts : Net Bytes Bytes
texts = record {
  parse_mac = λ s. some s;
  parse_ip = λ s. if is_empty s then none else some s;
  ip_string = λ s. s;
  parse_cidr = λ s. some s;
  holds = λ n s. has_prefix s n;
  cidr_string = λ n. n;
}

abbrev config : Config
config = record {
  enabled = true;
  vm_ids = [];
  vm_names = [];
  macs = [];
  ips = codes " 9" ∷ [];
  cidrs = [];
  rules = [];
  domains = codes "*.B." ∷ (codes " " ∷ []);
  log_suppressed = none;
  webhook_suppressed = false;
}

abbrev made : Allowlist Bytes
made = record {
  vm_ids = [];
  vm_names = [];
  macs = [];
  ips = codes "9" ∷ [];
  cidrs = [];
  rules = [];
  domains = codes "b" ∷ [];
  log_suppressed = true;
  webhook_suppressed = false;
}

-- a client hello for a domain below the one of the configuration
abbrev hello : Event
hello = record {
  rule = codes "r";
  ip = some ((codes "src", codes "8") ∷ []);
  meta = none;
  props = some (
      (
        codes "tls",
        entry (codes "req") (prop_map (entry (codes "sni") (text (codes "A.b")) no_entries))
            no_entries,
      )
      ∷ []);
}

made_run : new_allowlist texts config ≡ some (some made)
unfolding new_allowlist is_prefix
made_run = refl

match_event-new_allowlist_example :
    is_some (match_event texts made hello) ≡ is_listed texts config hello
match_event-new_allowlist_example = match_event-new_allowlist texts config made hello made_run

hello_run :
    match_event texts made hello ≡ some (record { reason = codes "domain"; value = codes "b" })
unfolding match_event is_prefix
hello_run = refl
