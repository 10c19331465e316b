-- ===== src/Cmd/Response/Handle.antt =====
-- cmd/response.go: how an event is handled. The commands that were run come back with the result.
use open_gfw_next.Base.{
  ℕ, ◌+◌, Bool, true, false, not, ◌&&◌, Option, none, some, List, [], ◌∷◌, ◌++◌, Bytes, ltb,
  if◌then◌else◌,
}
use open_gfw_next.Utils.Strings.{codes, same_text, is_empty}
use open_gfw_next.Utils.Strings.Format.{join, itoa}
use open_gfw_next.Cmd.Identity.{normalize_mac}
use open_gfw_next.Cmd.Risk.{duration_seconds}
use open_gfw_next.Cmd.Response.{Config, Sink, Alert, ovs_command}

-- `last[mac]`, and setting it
unfoldable pub last_at : Bytes → List (Bytes × ℕ) → Option ℕ
unfolding same_text
last_at mac [] = none
last_at mac (e ∷ es) = let rest = last_at mac es in if same_text e.0 mac then some e.1 else rest

abbrev timeout : Bytes → ℕ → List Bytes
timeout name d = let n = duration_seconds d in if ltb 0 n then (name ++ itoa n) ∷ [] else []

-- dropFlow
unfoldable pub drop_flow : Config → Bytes → Bytes → Bytes
unfolding duration_seconds itoa join
drop_flow c field mac = join (codes ",") (
    (codes "cookie=" ++ c.cookie)
    ∷ ((codes "priority=" ++ itoa c.priority)
        ∷ (timeout (codes "hard_timeout=") c.hard_timeout
            ++ (timeout (codes "idle_timeout=") c.idle_timeout
                ++ ((field ++ (codes "=" ++ mac)) ∷ (codes "actions=drop" ∷ []))))))

-- addFlow
unfoldable pub add_flow : Config → Bytes → List Bytes
unfolding ovs_command
add_flow c flow = ovs_command c (codes "add-flow" ∷ (c.bridge ∷ (flow ∷ [])))

-- how `handle` ends: the flows are installed, the address is cooling down, or an error
pub data Answer : Type 0 where
  installed cooling no_mac invalid_mac command_failed : Answer

pub record Handled : Type 0 where
  pub sink : Sink
  pub commands : List (List Bytes)
  pub answer : Answer

-- the loop over the two commands, ended by the first that fails
unfoldable pub try_both : List Bytes → List Bytes → (List Bytes → Bool) → List (List Bytes) × Answer
try_both from_it to_it runs =
    if not (runs from_it)
    then (from_it ∷ [], command_failed)
    else (from_it ∷ (to_it ∷ []), if runs to_it then installed else command_failed)

-- the commands that quarantine an address: what it sends, and what it is sent
unfoldable pub install : Config → (List Bytes → Bool) → Bytes → List (List Bytes) × Answer
unfolding add_flow drop_flow try_both
install c runs mac =
    try_both (add_flow c (drop_flow c (codes "dl_src") mac))
      (add_flow c (drop_flow c (codes "dl_dst") mac)) runs

-- now.Sub(last) < Cooldown, if there is a last time
unfoldable pub is_cooling : Sink → Bytes → ℕ → Bool
unfolding last_at
is_cooling s mac now = elim (last_at mac s.last) [
  | none ↦ false
  | some t ↦ ltb now (t + s.config.cooldown)
]

-- the end of `handle`, given the address or the error, and what installing it would do
unfoldable pub conclude : Sink → Bytes × Option Answer → ℕ → List (List Bytes) × Answer → Handled
unfolding is_cooling
conclude s (mac, some a) now done = record { sink = s; commands = []; answer = a }
conclude s (mac, none) now done =
    if is_cooling s mac now then record { sink = s; commands = []; answer = cooling } else record {
      sink = record s { last = (mac, now) ∷ s.last };
      commands = done.0;
      answer = done.1;
    }

module _ (parse_mac : Bytes → Option Bytes) where
  -- the address of responseMAC, before it is checked
  unfoldable pub candidate_mac : Config → Alert → Bytes
  unfolding normalize_mac
  candidate_mac c e =
      let vm = normalize_mac parse_mac (e.meta (codes "vm.mac")) in
      let src = normalize_mac parse_mac (e.meta (codes "l2.src")) in
      let dst = normalize_mac parse_mac (e.meta (codes "l2.dst")) in
      let required : Bool = elim (c.require_identity) [ none ↦ true | some b ↦ b ] in
      if is_empty vm && not required then (if is_empty src then dst else src) else vm

  -- the checks of responseMAC on the address
  unfoldable pub check_mac : Bytes → Bytes × Option Answer
  check_mac mac =
      if is_empty mac
      then ([], some no_mac)
      else elim (parse_mac mac) [ none ↦ ([], some invalid_mac) | some _ ↦ (mac, none) ]

  -- responseMAC: the address, or how `handle` ends
  unfoldable pub response_mac : Config → Alert → Bytes × Option Answer
  unfolding candidate_mac check_mac
  response_mac c e = check_mac (candidate_mac c e)

  -- handle
  unfoldable pub handle : Sink → Alert → ℕ → (List Bytes → Bool) → Handled
  unfolding response_mac install conclude
  handle s e now runs =
      let r = response_mac s.config e in conclude s r now (install s.config runs r.0)
