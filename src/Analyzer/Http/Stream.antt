-- ===== src/Analyzer/Http/Stream.antt =====
-- analyzer/tcp/http.go: the stream and its two machines.
use open_gfw_next.Base.{
  ℕ, suc, Bool, true, false, not, ◌&&◌, ◌||◌, Option, none, some, [], ◌∷◌, Bytes, ◌==◌,
  if◌then◌else◌, length,
}
use open_gfw_next.Utils.ByteBuffer
use open_gfw_next.Utils.ByteBuffer.{ByteBuffer}
use open_gfw_next.Utils.Lsm
use open_gfw_next.Utils.Lsm.{Lsm, Ran, Outcome, LsmAction, pause, next, cancel}
use open_gfw_next.Utils.Lsm.Total.{ahead}
use open_gfw_next.Analyzer.Http.{
  Headers, Request, Response, parse_headers, request_line, response_line,
}

-- httpStream, less its machines
pub record Stream (N : Type 0) : Type 0 where
  pub req_buf : ByteBuffer
  pub req_map : Option Request
  pub req_updated : Bool
  pub resp_buf : ByteBuffer
  pub resp_map : Option (Response N)
  pub resp_updated : Bool

-- the steps by name, two for each machine
pub data ReqStep : Type 0 where
  request_line_step request_headers : ReqStep

pub data RespStep : Type 0 where
  response_line_step response_headers : RespStep

abbrev is_next : LsmAction → Bool
is_next next = true
is_next _ = false

abbrev with_request_headers : Option Headers → Option Request → Option Request
with_request_headers h none = none
with_request_headers h (some m) = some (record m { headers = h })

abbrev with_response_headers :
    {N : Type 0} → Option Headers → Option (Response N) → Option (Response N)
with_response_headers h none = none
with_response_headers h (some m) = some (record m { headers = h })

module _ {N : Type 0} where
  -- parseRequestLine
  unfoldable pub parse_request_line : Stream N → Outcome ReqStep (Stream N)
  unfolding request_line
  parse_request_line s =
      let (b, action, m) = request_line s.req_buf in
      record {
        state =
            if is_next action
            then record s { req_buf = b; req_map = m; req_updated = true }
            else record s { req_buf = b };
        appended = [];
        action = action;
      }

  -- parseRequestHeaders
  unfoldable pub parse_request_headers : Stream N → Outcome ReqStep (Stream N)
  unfolding parse_headers
  parse_request_headers s =
      let (b, action, h) = parse_headers s.req_buf in
      record {
        state =
            if is_next action
            then record s {
              req_buf = b;
              req_map = with_request_headers h s.req_map;
              req_updated = true;
            }
            else record s { req_buf = b };
        appended = [];
        action = action;
      }

  unfoldable pub exec_req : ReqStep → Stream N → Outcome ReqStep (Stream N)
  unfolding parse_request_line parse_request_headers
  exec_req request_line_step s = parse_request_line s
  exec_req request_headers s = parse_request_headers s

  -- parseResponseHeaders
  unfoldable pub parse_response_headers : Stream N → Outcome RespStep (Stream N)
  unfolding parse_headers
  parse_response_headers s =
      let (b, action, h) = parse_headers s.resp_buf in
      record {
        state =
            if is_next action
            then record s {
              resp_buf = b;
              resp_map = with_response_headers h s.resp_map;
              resp_updated = true;
            }
            else record s { resp_buf = b };
        appended = [];
        action = action;
      }

-- the stream with its machines
pub record Connection (N : Type 0) : Type 0 where
  pub stream : Stream N
  pub req_lsm : Lsm ReqStep
  pub req_done : Bool
  pub resp_lsm : Lsm RespStep
  pub resp_done : Bool

-- newHTTPStream
unfoldable pub new : {N : Type 0} → Connection N
new = record {
  stream = record {
    req_buf = ByteBuffer.empty;
    req_map = none;
    req_updated = false;
    resp_buf = ByteBuffer.empty;
    resp_map = none;
    resp_updated = false;
  };
  req_lsm = Lsm.new (request_line_step ∷ (request_headers ∷ []));
  req_done = false;
  resp_lsm = Lsm.new (response_line_step ∷ (response_headers ∷ []));
  resp_done = false;
}

-- the merge that `Feed` returns
pub data Update (N : Type 0) : Type 0 where
  request : Option Request → Update N
  response : Option (Response N) → Update N

pub record Fed (N : Type 0) : Type 0 where
  pub connection : Connection N
  pub update : Option (Update N)
  pub done : Bool

-- one more than the steps ahead
abbrev pub fuel : {K : Type 0} → Lsm K → ℕ
fuel m = suc (ahead (λ k. 1) m)

module _ {N : Type 0} (atoi : Bytes → Option N) where
  -- parseResponseLine
  unfoldable pub parse_response_line : Stream N → Outcome RespStep (Stream N)
  unfolding response_line
  parse_response_line s =
      let (b, action, m) = response_line atoi s.resp_buf in
      record {
        state =
            if is_next action
            then record s { resp_buf = b; resp_map = m; resp_updated = true }
            else record s { resp_buf = b };
        appended = [];
        action = action;
      }

  unfoldable pub exec_resp : RespStep → Stream N → Outcome RespStep (Stream N)
  unfolding parse_response_line parse_response_headers
  exec_resp response_line_step s = parse_response_line s
  exec_resp response_headers s = parse_response_headers s

  unfoldable pub feed_resp : Connection N → Bytes → Option (Fed N)
  unfolding exec_resp
  feed_resp c bytes =
      let s : Stream N = record (c.stream) {
        resp_buf = ByteBuffer.append c.stream.resp_buf bytes;
        resp_updated = false;
      } in
      elim (Lsm.run exec_resp (fuel c.resp_lsm) c.resp_lsm s) [
        | none ↦ none
        | some r ↦ some (record {
          connection = record c {
            stream = record (r.state) { resp_updated = false };
            resp_lsm = r.machine;
            resp_done = r.done;
          };
          update = if r.state.resp_updated then some (response r.state.resp_map) else none;
          done = r.cancelled || (c.req_done && r.done);
        })
      ]

  unfoldable pub feed_req : Connection N → Bytes → Option (Fed N)
  unfolding exec_req
  feed_req c bytes =
      let s : Stream N = record (c.stream) {
        req_buf = ByteBuffer.append c.stream.req_buf bytes;
        req_updated = false;
      } in
      elim (Lsm.run exec_req (fuel c.req_lsm) c.req_lsm s) [
        | none ↦ none
        | some r ↦ some (record {
          connection = record c {
            stream = record (r.state) { req_updated = false };
            req_lsm = r.machine;
            req_done = r.done;
          };
          update = if r.state.req_updated then some (request r.state.req_map) else none;
          done = r.cancelled || (r.done && c.resp_done);
        })
      ]

  -- Feed
  unfoldable pub feed : Connection N → Bool → ℕ → Bytes → Option (Fed N)
  unfolding feed_req feed_resp
  feed c rev skip bytes =
      if not (skip == 0)
      then some (record { connection = c; update = none; done = true })
      else if length bytes == 0
      then some (record { connection = c; update = none; done = false })
      else if rev
      then feed_resp c bytes
      else feed_req c bytes

-- Close, which returns no update
unfoldable pub close : {N : Type 0} → Connection N → Connection N
close c = record c {
  stream = record (c.stream) {
    req_buf = ByteBuffer.empty;
    resp_buf = ByteBuffer.empty;
    req_map = none;
    resp_map = none;
  };
}
