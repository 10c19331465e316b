-- ===== src/Analyzer/Openvpn/Udp/Handshake.antt =====
-- The UDP stream of analyzer/udp/openvpn.go implements the opening handshake of OpenVPN, stated here
-- as an automaton over the opcodes of the packets.
use open_gfw_next.Base.{
  ℕ, ◌+◌, ◌≡◌, ◌≢◌, ◌≤◌, Bool, true, false, ◌&&◌, ◌||◌, Option, none, some, List, ◌∷◌, Bytes, arith,
  ltb, if◌then◌else◌,
}
use open_gfw_next.Utils.Lsm.{Lsm, run, run_loop}
use open_gfw_next.Analyzer.Openvpn.{
  is_client_reset, is_server_reset, is_traffic, check_for_valid_opcode, opcode_of, Stream, Shared,
  Counts, Fed, req_steps, resp_steps, feed_req, feed_resp, exec_req, exec_resp,
}
use open_gfw_next.Analyzer.Openvpn.Udp.{new, parse_pkt, feed, pkt_default_limit}

-- how far the handshake has come, and the packets counted since
pub record Session : Type 0 where
  pub client_reset : Bool
  pub server_reset : Bool
  pub rx : ℕ
  pub tx : ℕ

abbrev pub fresh : Session
fresh = record { client_reset = false; server_reset = false; rx = 0; tx = 0 }

-- the session after a packet, whether its counters are reported, and whether the stream is given up
pub record Judged : Type 0 where
  pub session : Session
  pub counted : Bool
  pub over : Bool

abbrev going : Session → Judged
going a = record { session = a; counted = false; over = false }

abbrev refused : Session → Judged
refused a = record { session = a; counted = false; over = true }

abbrev counting : Session → Judged
counting a = record { session = a; counted = true; over = ltb pkt_default_limit (a.rx + a.tx) }

-- A client reset, then a server reset; after a side's reset, its traffic is counted.
pub judge : Session → Bool → ℕ → Judged
judge a false o =
    if a.client_reset
    then if is_traffic o then counting (record a { tx = a.tx + 1 }) else refused a
    else if is_client_reset o
    then going (record a { client_reset = true })
    else refused a
judge a true o =
    if a.server_reset
    then if is_traffic o then counting (record a { rx = a.rx + 1 }) else refused a
    else if a.client_reset && is_server_reset o
    then going (record a { server_reset = true })
    else refused a

-- the stream's machines stand where the session says
pub record Tracks (s : Stream (Option Bytes)) (a : Session) : Type 0 where
  pub parsed : s.shared.transport ≡ none
  pub req_at :
      s.req_lsm
      ≡ record { steps = req_steps; index = if a.client_reset then 1 else 0; cancelled = false }
  pub resp_at :
      s.resp_lsm
      ≡ record { steps = resp_steps; index = if a.server_reset then 1 else 0; cancelled = false }
  pub req_open : s.req_done ≡ false
  pub resp_open : s.resp_done ≡ false
  pub opened : a.server_reset ≡ false → is_client_reset s.shared.last_opcode ≡ a.client_reset
  pub ordered : a.server_reset ≡ true → a.client_reset ≡ true
  pub rx_same : s.shared.rx_pkt_cnt ≡ a.rx
  pub tx_same : s.shared.tx_pkt_cnt ≡ a.tx
  pub limit : s.pkt_limit ≡ pkt_default_limit
  pub within : a.rx + a.tx ≤ pkt_default_limit

-- A new stream tracks a fresh session.
pub Tracks-new : Tracks new fresh
unfolding new
Tracks-new = ground arith

abbrev pub report : Judged → Option Counts
report j =
    if j.counted
    then some (record { rx_pkt_cnt = j.session.rx; tx_pkt_cnt = j.session.tx })
    else none

abbrev machine : {K : Type 0} → List K → Bool → Lsm K
machine steps passed = record { steps = steps; index = if passed then 1 else 0; cancelled = false }

-- a stream with its machines past their first steps, or not, and a packet to parse
abbrev pub stage : Bool → Bool → Shared (Option Bytes) → ℕ → Bytes → Stream (Option Bytes)
stage c b sh x bytes = record {
  shared = record sh { transport = some (x ∷ bytes) };
  req_lsm = machine req_steps c;
  req_done = false;
  resp_lsm = machine resp_steps b;
  resp_done = false;
  pkt_limit = pkt_default_limit;
}

pub feed-stage :
    (s : Stream (Option Bytes)) (a : Session) (rev : Bool) (x : ℕ) (bytes : Bytes)
    → Tracks s a
    → feed s rev (x ∷ bytes) ≡ (
        let s' = stage a.client_reset a.server_reset s.shared x bytes in
        if rev then feed_resp parse_pkt parse_pkt s' else feed_req parse_pkt parse_pkt s')
unfolding feed
feed-stage s a rev x bytes t = ground arith

known_is_valid :
    (o : ℕ)
    → (is_traffic o || is_client_reset o || is_server_reset o) ≡ true
    → check_for_valid_opcode o ≡ true
unfolding check_for_valid_opcode
known_is_valid o h = ground arith

-- what `Feed` returned agrees with what the session calls for
pub record Agrees (r : Fed (Option Bytes)) (j : Judged) : Type 0 where
  pub update : r.update ≡ report j
  pub done : r.done ≡ j.over
  pub tracks : j.over ≡ false → Tracks r.stream j.session

module _ (a : Session) (s : Stream (Option Bytes)) (x : ℕ) (bytes : Bytes) (t : Tracks s a) where
  pub request-ne-none :
      (c b : Bool) → feed_req parse_pkt parse_pkt (stage c b s.shared x bytes) ≢ none
  unfolding feed_req exec_req run run_loop parse_pkt
  request-ne-none true b = ground arith
  request-ne-none false b = ground arith

  pub request-Agrees :
      (r : Fed (Option Bytes))
      → (c b : Bool) → a.client_reset ≡ c
      → a.server_reset ≡ b
      → feed_req parse_pkt parse_pkt (stage c b s.shared x bytes) ≡ some r
      → Agrees r (judge a false (opcode_of x))
  unfolding feed_req exec_req run run_loop parse_pkt judge
  request-Agrees r true b ec eb e = ground (arith, known_is_valid (opcode_of x))
  request-Agrees r false b ec eb e = ground (arith, known_is_valid (opcode_of x))

  pub response-ne-none :
      (c b : Bool) → feed_resp parse_pkt parse_pkt (stage c b s.shared x bytes) ≢ none
  unfolding feed_resp exec_resp run run_loop parse_pkt
  response-ne-none c true = ground arith
  response-ne-none c false = ground arith

  pub response-Agrees :
      (r : Fed (Option Bytes))
      → (c b : Bool) → a.client_reset ≡ c
      → a.server_reset ≡ b
      → feed_resp parse_pkt parse_pkt (stage c b s.shared x bytes) ≡ some r
      → Agrees r (judge a true (opcode_of x))
  unfolding feed_resp exec_resp run run_loop parse_pkt judge
  response-Agrees r c true ec eb e = ground (arith, known_is_valid (opcode_of x))
  response-Agrees r c false ec eb e = ground (arith, known_is_valid (opcode_of x))
