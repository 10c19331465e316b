-- ===== src/Analyzer/Ssh.antt =====
-- analyzer/tcp/ssh.go. `none` for a map is nil.
pub mod Lines
use open_gfw_next.Base.{
  ℕ, suc, ◌+◌, ◌-◌, Bool, true, false, not, ◌&&◌, ◌||◌, Option, none, some, List, [], ◌∷◌, ◌++◌,
  Bytes, ◌==◌, if◌then◌else◌, length, take,
}
use open_gfw_next.Utils.ByteBuffer
use open_gfw_next.Utils.ByteBuffer.{ByteBuffer}
use open_gfw_next.Utils.Strings.{codes, has_prefix}
use open_gfw_next.Utils.Strings.Split.{fields, split_three}
use open_gfw_next.Utils.Lsm
use open_gfw_next.Utils.Lsm.{Lsm, Ran, Outcome, LsmAction, pause, next, cancel}
use open_gfw_next.Utils.Lsm.Total.{ahead}

-- the map of an exchange line
pub record Exchange : Type 0 where
  pub protocol : Bytes
  pub software : Bytes
  pub comments : Option Bytes

-- sshFields, which must be three
abbrev versions_of : List Bytes → Option Bytes → Option Exchange
versions_of (ssh ∷ (p ∷ (s ∷ []))) comments =
    some (record { protocol = p; software = s; comments = comments })
versions_of _ comments = none

-- fields, which must be one or two
unfoldable pub exchange_of : List Bytes → Option Exchange
unfolding split_three
exchange_of (f ∷ []) = versions_of (split_three 45 f) none
exchange_of (f ∷ (c ∷ [])) = versions_of (split_three 45 f) (some c)
exchange_of _ = none

-- a line with its end
unfoldable pub parse_line : Bytes → LsmAction × Option Exchange
unfolding exchange_of fields has_prefix
parse_line line =
    if not (has_prefix line (codes "SSH-"))
    then (cancel, none)
    else elim (exchange_of (fields (take (length line - 2) line))) [
      | none ↦ (cancel, none)
      | some m ↦ (next, some m)
    ]

-- parseExchangeLine: the buffer that is left, the action and the map
unfoldable pub parse_exchange_line : ByteBuffer → ByteBuffer × LsmAction × Option Exchange
unfolding parse_line
parse_exchange_line b =
    let (b', line) = ByteBuffer.get_until b (13 ∷ (10 ∷ [])) true true in
    elim line [ none ↦ (b', pause, none) | some l ↦ (b', (parse_line l).0, (parse_line l).1) ]

-- sshStream, less its machines
pub record Stream : Type 0 where
  pub client_buf : ByteBuffer
  pub client_map : Option Exchange
  pub client_updated : Bool
  pub server_buf : ByteBuffer
  pub server_map : Option Exchange
  pub server_updated : Bool

-- each machine has one step
pub data Step : Type 0 where
  exchange_line : Step

abbrev is_next : LsmAction → Bool
is_next next = true
is_next _ = false

-- parseClientExchangeLine and parseServerExchangeLine
unfoldable pub parse_client_exchange_line : Step → Stream → Outcome Step Stream
unfolding parse_exchange_line
parse_client_exchange_line exchange_line s =
    let (b, action, m) = parse_exchange_line s.client_buf in
    record {
      state =
          if is_next action
          then record s { client_buf = b; client_map = m; client_updated = true }
          else record s { client_buf = b };
      appended = [];
      action = action;
    }

unfoldable pub parse_server_exchange_line : Step → Stream → Outcome Step Stream
unfolding parse_exchange_line
parse_server_exchange_line exchange_line s =
    let (b, action, m) = parse_exchange_line s.server_buf in
    record {
      state =
          if is_next action
          then record s { server_buf = b; server_map = m; server_updated = true }
          else record s { server_buf = b };
      appended = [];
      action = action;
    }

-- the stream with its machines
pub record Connection : Type 0 where
  pub stream : Stream
  pub client_lsm : Lsm Step
  pub client_done : Bool
  pub server_lsm : Lsm Step
  pub server_done : Bool

-- newSSHStream
unfoldable pub new : Connection
new = record {
  stream = record {
    client_buf = ByteBuffer.empty;
    client_map = none;
    client_updated = false;
    server_buf = ByteBuffer.empty;
    server_map = none;
    server_updated = false;
  };
  client_lsm = Lsm.new (exchange_line ∷ []);
  client_done = false;
  server_lsm = Lsm.new (exchange_line ∷ []);
  server_done = false;
}

-- the merge that `Feed` returns
pub data Update : Type 0 where
  client : Option Exchange → Update
  server : Option Exchange → Update

pub record Fed : Type 0 where
  pub connection : Connection
  pub update : Option Update
  pub done : Bool

-- one more than the steps ahead
abbrev pub fuel : Lsm Step → ℕ
fuel m = suc (ahead (λ k. 1) m)

unfoldable pub feed_server : Connection → Bytes → Option Fed
unfolding parse_server_exchange_line
feed_server c bytes =
    let s : Stream = record (c.stream) {
      server_buf = ByteBuffer.append c.stream.server_buf bytes;
      server_updated = false;
    } in
    elim (Lsm.run parse_server_exchange_line (fuel c.server_lsm) c.server_lsm s) [
      | none ↦ none
      | some r ↦ some (record {
        connection = record c {
          stream = record (r.state) { server_updated = false };
          server_lsm = r.machine;
          server_done = r.done;
        };
        update = if r.state.server_updated then some (server r.state.server_map) else none;
        done = r.cancelled || (c.client_done && r.done);
      })
    ]

unfoldable pub feed_client : Connection → Bytes → Option Fed
unfolding parse_client_exchange_line
feed_client c bytes =
    let s : Stream = record (c.stream) {
      client_buf = ByteBuffer.append c.stream.client_buf bytes;
      client_updated = false;
    } in
    elim (Lsm.run parse_client_exchange_line (fuel c.client_lsm) c.client_lsm s) [
      | none ↦ none
      | some r ↦ some (record {
        connection = record c {
          stream = record (r.state) { client_updated = false };
          client_lsm = r.machine;
          client_done = r.done;
        };
        update = if r.state.client_updated then some (client r.state.client_map) else none;
        done = r.cancelled || (r.done && c.server_done);
      })
    ]

-- Feed
unfoldable pub feed : Connection → Bool → ℕ → Bytes → Option Fed
unfolding feed_client feed_server
feed c rev skip bytes =
    if not (skip == 0)
    then some (record { connection = c; update = none; done = true })
    else if length bytes == 0
    then some (record { connection = c; update = none; done = false })
    else if rev
    then feed_server c bytes
    else feed_client c bytes

-- Close, which returns no update
unfoldable pub close : Connection → Connection
close c = record c {
  stream = record (c.stream) {
    client_buf = ByteBuffer.empty;
    server_buf = ByteBuffer.empty;
    client_map = none;
    server_map = none;
  };
}
