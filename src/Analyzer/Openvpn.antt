-- ===== src/Analyzer/Openvpn.antt =====
-- analyzer/udp/openvpn.go: the state and the steps that the UDP and the TCP stream share. The
-- embedded `openvpnStream` is `Stream T`, where `T` is what the outer stream adds; the closures
-- `reqPktParse` and `respPktParse` are parameters of the steps.
pub mod Udp
pub mod Tcp
pub mod Total
use open_gfw_next.Base.{
  ℕ, ◌+◌, ◌/◌, ◌%◌, Bool, true, false, not, ◌&&◌, ◌||◌, Option, none, some, List, [], ◌∷◌, ltb, leb,
  ◌==◌, if◌then◌else◌,
}
use open_gfw_next.Utils.Lsm.{Lsm, LsmAction, pause, next, reset, cancel, Outcome}
use open_gfw_next.Utils.Lsm

-- openvpnPkt
pub record Pkt : Type 0 where
  pub pkt_len : ℕ
  pub opcode : ℕ
  pub key_id : ℕ

-- what a parser of packets returns: a packet with `next`, or nil with another action
pub data Answer : Type 0 where
  pauses cancels : Answer
  packet : Pkt → Answer

-- the fields that steps read and write
pub record Shared (T : Type 0) : Type 0 where
  pub transport : T
  pub req_updated : Bool
  pub resp_updated : Bool
  pub rx_pkt_cnt : ℕ
  pub tx_pkt_cnt : ℕ
  pub last_opcode : ℕ

pub data ReqStep : Type 0 where
  ctl_hard_reset_client req : ReqStep

pub data RespStep : Type 0 where
  ctl_hard_reset_server resp : RespStep

-- openvpnStream, less its logger
pub record Stream (T : Type 0) : Type 0 where
  pub shared : Shared T
  pub req_lsm : Lsm ReqStep
  pub req_done : Bool
  pub resp_lsm : Lsm RespStep
  pub resp_done : Bool
  pub pkt_limit : ℕ

abbrev pub is_client_reset : ℕ → Bool
is_client_reset o = o == 1 || o == 7 || o == 10

abbrev pub is_server_reset : ℕ → Bool
is_server_reset o = o == 2 || o == 8

abbrev pub is_traffic : ℕ → Bool
is_traffic o = o == 3 || o == 4 || o == 5 || o == 6 || o == 9 || o == 11

-- OpenVPNCheckForValidOpcode
unfoldable pub check_for_valid_opcode : ℕ → Bool
check_for_valid_opcode o =
    o == 1
    || o == 2
    || o == 3
    || o == 4
    || o == 5
    || o == 6
    || o == 7
    || o == 8
    || o == 9
    || o == 10
    || o == 11

-- the opcode and the key id of a packet's first byte
abbrev pub opcode_of : ℕ → ℕ
opcode_of byte = byte / 8

abbrev pub key_id_of : ℕ → ℕ
key_id_of byte = byte % 8

abbrev pub new_shared : {T : Type 0} → T → Shared T
new_shared t = record {
  transport = t;
  req_updated = false;
  resp_updated = false;
  rx_pkt_cnt = 0;
  tx_pkt_cnt = 0;
  last_opcode = 0;
}

abbrev pub req_steps : List ReqStep
req_steps = ctl_hard_reset_client ∷ req ∷ []

abbrev pub resp_steps : List RespStep
resp_steps = ctl_hard_reset_server ∷ resp ∷ []

abbrev pub new_stream : {T : Type 0} → T → ℕ → Stream T
new_stream t limit = record {
  shared = new_shared t;
  req_lsm = Lsm.new req_steps;
  req_done = false;
  resp_lsm = Lsm.new resp_steps;
  resp_done = false;
  pkt_limit = limit;
}

module _ {K T : Type 0} where
  abbrev pub answer : Shared T → LsmAction → Outcome K (Shared T)
  answer s a = record { state = s; appended = []; action = a }

  -- a step's `if action != LSMActionNext`, and what it does with a packet
  abbrev pub on_packet :
      Shared T → T × Answer → (Shared T → Pkt → Outcome K (Shared T)) → Outcome K (Shared T)
  on_packet s (t, pauses) f = answer (record s { transport = t }) pause
  on_packet s (t, cancels) f = answer (record s { transport = t }) cancel
  on_packet s (t, packet p) f = f (record s { transport = t }) p

module _ {T : Type 0} (req_pkt_parse resp_pkt_parse : T → T × Answer) where
  -- parseCtlHardResetClient
  abbrev parse_ctl_hard_reset_client : Shared T → Outcome ReqStep (Shared T)
  parse_ctl_hard_reset_client s = on_packet s (req_pkt_parse s.transport) λ s' p.
      if not (is_client_reset p.opcode)
      then answer s' cancel
      else answer (record s' { last_opcode = p.opcode }) next

  -- parseCtlHardResetServer
  abbrev parse_ctl_hard_reset_server : Shared T → Outcome RespStep (Shared T)
  parse_ctl_hard_reset_server s =
      let parsed = on_packet s (resp_pkt_parse s.transport) λ s' p.
        if not (is_server_reset p.opcode)
        then answer s' cancel
        else answer (record s' { last_opcode = p.opcode }) next in
      if not (is_client_reset s.last_opcode) then answer s cancel else parsed

  -- parseReq
  abbrev parse_req : Shared T → Outcome ReqStep (Shared T)
  parse_req s = on_packet s (req_pkt_parse s.transport) λ s' p.
      if not (is_traffic p.opcode)
      then answer s' cancel
      else answer (record s' { tx_pkt_cnt = s'.tx_pkt_cnt + 1; req_updated = true }) pause

  -- parseResp
  abbrev parse_resp : Shared T → Outcome RespStep (Shared T)
  parse_resp s = on_packet s (resp_pkt_parse s.transport) λ s' p.
      if not (is_traffic p.opcode)
      then answer s' cancel
      else answer (record s' { rx_pkt_cnt = s'.rx_pkt_cnt + 1; resp_updated = true }) pause

  unfoldable pub exec_req : ReqStep → Shared T → Outcome ReqStep (Shared T)
  exec_req ctl_hard_reset_client s = parse_ctl_hard_reset_client s
  exec_req req s = parse_req s

  unfoldable pub exec_resp : RespStep → Shared T → Outcome RespStep (Shared T)
  exec_resp ctl_hard_reset_server s = parse_ctl_hard_reset_server s
  exec_resp resp s = parse_resp s

-- the properties that an update carries; both streams send the pair of counters
pub record Counts : Type 0 where
  pub rx_pkt_cnt : ℕ
  pub tx_pkt_cnt : ℕ

pub record Fed (T : Type 0) : Type 0 where
  pub stream : Stream T
  pub update : Option Counts
  pub done : Bool

-- each pass of the loop in `Run` uses up one of two steps
abbrev pub fuel : ℕ
fuel = 3

module _ {T : Type 0} where
  abbrev counts : Shared T → Counts
  counts s = record { rx_pkt_cnt = s.rx_pkt_cnt; tx_pkt_cnt = s.tx_pkt_cnt }

  -- what `Feed` returns once a machine has run
  abbrev conclude : Stream T → Bool → Option Counts → Fed T
  conclude s cancelled update = record {
    stream = s;
    update = update;
    done =
        cancelled
        || s.req_done && s.resp_done
        || ltb s.pkt_limit (s.shared.rx_pkt_cnt + s.shared.tx_pkt_cnt);
  }

  abbrev pub after_req : Stream T → Option (Lsm.Ran ReqStep (Shared T)) → Option (Fed T)
  after_req s none = none
  after_req s (some r) =
      let update = if r.state.req_updated then some (counts r.state) else none in
      some (
        conclude
          (record s {
            shared = record (r.state) { req_updated = false };
            req_lsm = r.machine;
            req_done = r.done;
          })
          r.cancelled update)

  abbrev pub after_resp : Stream T → Option (Lsm.Ran RespStep (Shared T)) → Option (Fed T)
  after_resp s none = none
  after_resp s (some r) =
      let update = if r.state.resp_updated then some (counts r.state) else none in
      some (
        conclude
          (record s {
            shared = record (r.state) { resp_updated = false };
            resp_lsm = r.machine;
            resp_done = r.done;
          })
          r.cancelled update)

module _ {T : Type 0} (req_pkt_parse resp_pkt_parse : T → T × Answer) where
  -- the branches of `Feed` by direction; the data is in the transport already
  unfoldable pub feed_req : Stream T → Option (Fed T)
  feed_req s = after_req s (
      Lsm.run (exec_req req_pkt_parse resp_pkt_parse) fuel s.req_lsm
        (record (s.shared) { req_updated = false }))

  unfoldable pub feed_resp : Stream T → Option (Fed T)
  feed_resp s = after_resp s (
      Lsm.run (exec_resp req_pkt_parse resp_pkt_parse) fuel s.resp_lsm
        (record (s.shared) { resp_updated = false }))
