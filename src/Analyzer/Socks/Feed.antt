-- ===== src/Analyzer/Socks/Feed.antt =====
-- analyzer/tcp/socks.go: newSocksStream, Feed and Close. The fuel of a run is one more than the weight of the
-- steps ahead; a step of `weight` one appends none, and a version step appends at most three.
use open_gfw_next.Base.{
  ℕ, suc, Bool, true, false, not, ◌&&◌, ◌||◌, Option, none, some, [], ◌∷◌, Bytes, ◌==◌,
  if◌then◌else◌, length,
}
use open_gfw_next.Utils.ByteBuffer
use open_gfw_next.Utils.Lsm
use open_gfw_next.Utils.Lsm.{Lsm, Ran}
use open_gfw_next.Utils.Lsm.Total.{ahead}
use open_gfw_next.Engine.Props.{PropMap}
use open_gfw_next.Analyzer.Socks.{
  Stream, Step, Does, Value, Version, socks_invalid, socks4, socks4a, socks5, req_version,
  ip_and_port, user_id, hostname, req_method, req_auth, req_conn_info, resp_version, resp_packet,
  resp_method, resp_auth, resp_conn_info, parse_req_version, parse_resp_version, parse_req_method,
}
use open_gfw_next.Analyzer.Socks.Requests.{
  parse_req_auth, parse_req_conn_info, parse_ip_and_port, parse_user_id, parse_hostname,
}
use open_gfw_next.Analyzer.Socks.Responses.{
  parse_resp_method, parse_resp_auth, parse_resp_conn_info, parse_resp_packet,
}

-- the method that a step names
unfoldable pub exec : Step → Stream → Does
exec req_version s = parse_req_version s
exec ip_and_port s = parse_ip_and_port s
exec user_id s = parse_user_id s
exec hostname s = parse_hostname s
exec req_method s = parse_req_method s
exec req_auth s = parse_req_auth s
exec req_conn_info s = parse_req_conn_info s
exec resp_version s = parse_resp_version s
exec resp_packet s = parse_resp_packet s
exec resp_method s = parse_resp_method s
exec resp_auth s = parse_resp_auth s
exec resp_conn_info s = parse_resp_conn_info s

unfoldable pub weight : Step → ℕ
weight req_version = 4
weight resp_version = 4
weight _ = 1

-- socksStream with its machines
pub record Connection : Type 0 where
  pub stream : Stream
  pub req_lsm : Lsm Step
  pub req_done : Bool
  pub resp_lsm : Lsm Step
  pub resp_done : Bool

-- newSocksStream
unfoldable pub new : Connection
new = record {
  stream = record {
    req_buf = ByteBuffer.empty;
    req_map = [];
    req_updated = false;
    resp_buf = ByteBuffer.empty;
    resp_map = [];
    resp_updated = false;
    version = socks_invalid;
    auth_req_method = 0;
    auth_resp_method = 0;
    panicked = false;
  };
  req_lsm = Lsm.new (req_version ∷ []);
  req_done = false;
  resp_lsm = Lsm.new (resp_version ∷ []);
  resp_done = false;
}

-- socksVersion
unfoldable pub socks_version : Version → ℕ
socks_version socks4 = 4
socks_version socks4a = 4
socks_version socks5 = 5
socks_version socks_invalid = 0

-- the merge that `Feed` returns
pub data Update : Type 0 where
  request : ℕ → PropMap Value → Update
  response : PropMap Value → Update

pub record Fed : Type 0 where
  pub connection : Connection
  pub update : Option Update
  pub done : Bool

-- how a call of `Feed` ends: with its result, or with a panic at run time, or not
pub data Called : Type 0 where
  returned : Fed → Called
  panics no_fuel : Called

-- Feed after the run of the server's machine, and of the client's
unfoldable pub after_resp : Connection → Ran Step Stream → Fed
after_resp c r = record {
  connection = record c {
    stream = record (r.state) { resp_updated = false };
    resp_lsm = r.machine;
    resp_done = r.done;
  };
  update = if r.state.resp_updated then some (response r.state.resp_map) else none;
  done = r.cancelled || (c.req_done && r.done);
}

unfoldable pub after_req : Connection → Ran Step Stream → Fed
unfolding socks_version
after_req c r = record {
  connection = record c {
    stream = record (r.state) { req_updated = false };
    req_lsm = r.machine;
    req_done = r.done;
  };
  update =
      if r.state.req_updated
      then some (request (socks_version r.state.version) r.state.req_map)
      else none;
  done = r.cancelled || (r.done && c.resp_done);
}

unfoldable pub feed_resp : Connection → Bytes → Called
unfolding exec after_resp weight
feed_resp c bytes =
    let s : Stream = record (c.stream) {
      resp_buf = ByteBuffer.append c.stream.resp_buf bytes;
      resp_updated = false;
    } in
    elim (Lsm.run exec (suc (ahead weight c.resp_lsm)) c.resp_lsm s) [
      | none ↦ no_fuel
      | some r ↦ if r.state.panicked then panics else returned (after_resp c r)
    ]

unfoldable pub feed_req : Connection → Bytes → Called
unfolding exec after_req weight
feed_req c bytes =
    let s : Stream = record (c.stream) {
      req_buf = ByteBuffer.append c.stream.req_buf bytes;
      req_updated = false;
    } in
    elim (Lsm.run exec (suc (ahead weight c.req_lsm)) c.req_lsm s) [
      | none ↦ no_fuel
      | some r ↦ if r.state.panicked then panics else returned (after_req c r)
    ]

-- Feed
unfoldable pub feed : Connection → Bool → ℕ → Bytes → Called
unfolding feed_req feed_resp
feed c rev skip bytes =
    if not (skip == 0)
    then returned (record { connection = c; update = none; done = true })
    else if length bytes == 0
    then returned (record { connection = c; update = none; done = false })
    else if rev
    then feed_resp c bytes
    else feed_req c bytes

-- Close, which returns no update. The maps become nil; a closed stream is not fed again.
unfoldable pub close : Connection → Connection
unfolding ByteBuffer.reset
close c = record c {
  stream = record (c.stream) {
    req_buf = ByteBuffer.reset c.stream.req_buf;
    resp_buf = ByteBuffer.reset c.stream.resp_buf;
    req_map = [];
    resp_map = [];
  };
}
