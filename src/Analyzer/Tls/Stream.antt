-- ===== src/Analyzer/Tls/Stream.antt =====
-- analyzer/tcp/tls.go: the stream and its two machines. The digests md5 and sha256 are
-- parameters; `none` for a map is nil. A parser that ran out of fuel leaves a mark in the stream, and
-- `Feed` then has no result.
use open_gfw_next.Base.{
  ℕ, ◌+◌, ◌*◌, Bool, true, false, not, ◌&&◌, ◌||◌, Option, none, some, [], ◌∷◌, Bytes, ltb, ◌==◌,
  if◌then◌else◌, length,
}
use open_gfw_next.Utils.ByteBuffer
use open_gfw_next.Utils.ByteBuffer.{ByteBuffer, at}
use open_gfw_next.Utils.Lsm
use open_gfw_next.Utils.Lsm.{Lsm, Ran, Outcome, LsmAction, pause, next, cancel}
use open_gfw_next.Utils.Lsm.Total.{ahead}
use open_gfw_next.Analyzer.Tls.{suc, value, malformed, no_fuel}
use open_gfw_next.Analyzer.Tls.Fingerprint.{Fingerprinted, parse_fingerprinted}
use open_gfw_next.Utils.Strings.{codes}
use open_gfw_next.Analyzer.Tls.Hello.{ServerHello, parse_server_hello}

-- tlsStream, less its machines
pub record Stream : Type 0 where
  pub req_buf : ByteBuffer
  pub req_map : Option Fingerprinted
  pub req_updated : Bool
  pub resp_buf : ByteBuffer
  pub resp_map : Option ServerHello
  pub resp_updated : Bool
  pub client_hello_len : ℕ
  pub server_hello_len : ℕ
  pub exhausted : Bool

-- the steps by name, two for each machine
pub data ReqStep : Type 0 where
  client_preprocess client_data : ReqStep

pub data RespStep : Type 0 where
  server_preprocess server_data : RespStep

abbrev pub answer : {K : Type 0} → Stream → LsmAction → Outcome K Stream
answer s a = record { state = s; appended = []; action = a }

-- RecordTypeHandshake, TypeClientHello and TypeServerHello
abbrev pub record_type_handshake : ℕ
record_type_handshake = 0x16

abbrev pub type_client_hello : ℕ
type_client_hello = 1

abbrev pub type_server_hello : ℕ
type_server_hello = 2

-- the handshake length in the header
abbrev pub hello_len : Bytes → ℕ
hello_len header = at header 6 * 65536 + at header 7 * 256 + at header 8

abbrev pub is_hello : ℕ → Bytes → Bool
is_hello kind header = at header 0 == record_type_handshake && at header 5 == kind

-- tlsClientHelloPreprocess
unfoldable pub client_hello_preprocess : Stream → Outcome ReqStep Stream
client_hello_preprocess s =
    let (b, header) = ByteBuffer.get s.req_buf 9 true in
    let s' : Stream = record s { req_buf = b } in
    elim header [
      | none ↦ answer s' pause
      | some h ↦
          let sized : Stream = record s' { client_hello_len = hello_len h } in
          if not (is_hello type_client_hello h)
          then answer s' cancel
          else if ltb (hello_len h) 41
          then answer sized cancel
          else answer sized next
    ]

-- parseClientHelloData
unfoldable pub parse_client_hello_data :
    (Bytes → Bytes) → (Bytes → Bytes) → Stream → Outcome ReqStep Stream
parse_client_hello_data md5 sha256 s =
    let (b, hello) = ByteBuffer.get_sub_buffer s.req_buf s.client_hello_len true in
    let s' : Stream = record s { req_buf = b } in
    elim hello [
      | none ↦ answer s' pause
      | some body ↦ elim (parse_fingerprinted md5 sha256 (codes "t") body) [
        | value m ↦ answer (record s' { req_updated = true; req_map = some m }) next
        | malformed ↦ answer s' cancel
        | no_fuel ↦ answer (record s' { exhausted = true }) cancel
      ]
    ]

-- tlsServerHelloPreprocess
unfoldable pub server_hello_preprocess : Stream → Outcome RespStep Stream
server_hello_preprocess s =
    let (b, header) = ByteBuffer.get s.resp_buf 9 true in
    let s' : Stream = record s { resp_buf = b } in
    elim header [
      | none ↦ answer s' pause
      | some h ↦
          let sized : Stream = record s' { server_hello_len = hello_len h } in
          if not (is_hello type_server_hello h)
          then answer s' cancel
          else if ltb (hello_len h) 38
          then answer sized cancel
          else answer sized next
    ]

-- parseServerHelloData
unfoldable pub parse_server_hello_data : Stream → Outcome RespStep Stream
parse_server_hello_data s =
    let (b, hello) = ByteBuffer.get_sub_buffer s.resp_buf s.server_hello_len true in
    let s' : Stream = record s { resp_buf = b } in
    elim hello [
      | none ↦ answer s' pause
      | some body ↦ elim (parse_server_hello body) [
        | value (m, _) ↦ answer (record s' { resp_updated = true; resp_map = some m }) next
        | malformed ↦ answer s' cancel
        | no_fuel ↦ answer (record s' { exhausted = true }) cancel
      ]
    ]

unfoldable pub exec_req :
    (Bytes → Bytes) → (Bytes → Bytes) → ReqStep → Stream → Outcome ReqStep Stream
exec_req md5 sha256 client_preprocess s = client_hello_preprocess s
exec_req md5 sha256 client_data s = parse_client_hello_data md5 sha256 s

unfoldable pub exec_resp : RespStep → Stream → Outcome RespStep Stream
exec_resp server_preprocess s = server_hello_preprocess s
exec_resp server_data s = parse_server_hello_data s

-- the stream with its machines
pub record Connection : Type 0 where
  pub stream : Stream
  pub req_lsm : Lsm ReqStep
  pub req_done : Bool
  pub resp_lsm : Lsm RespStep
  pub resp_done : Bool

-- newTLSStream
unfoldable pub new : Connection
new = record {
  stream = record {
    req_buf = ByteBuffer.empty;
    req_map = none;
    req_updated = false;
    resp_buf = ByteBuffer.empty;
    resp_map = none;
    resp_updated = false;
    client_hello_len = 0;
    server_hello_len = 0;
    exhausted = false;
  };
  req_lsm = Lsm.new (client_preprocess ∷ (client_data ∷ []));
  req_done = false;
  resp_lsm = Lsm.new (server_preprocess ∷ (server_data ∷ []));
  resp_done = false;
}

-- the merge that `Feed` returns
pub data Update : Type 0 where
  request : Option Fingerprinted → Update
  response : Option ServerHello → Update

pub record Fed : Type 0 where
  pub connection : Connection
  pub update : Option Update
  pub done : Bool

-- the weight of a step, and the fuel of a run: one more than the steps ahead
abbrev pub one : {K : Type 0} → K → ℕ
one k = 1

abbrev pub fuel : {K : Type 0} → Lsm K → ℕ
fuel m = suc (ahead one m)

-- `Feed` after the run of a machine
unfoldable pub after_resp : Connection → Ran RespStep Stream → Fed
after_resp c r = record {
  connection = record c {
    stream = record (r.state) { resp_updated = false };
    resp_lsm = r.machine;
    resp_done = r.done;
  };
  update = if r.state.resp_updated then some (response r.state.resp_map) else none;
  done = r.cancelled || (c.req_done && r.done);
}

unfoldable pub after_req : Connection → Ran ReqStep Stream → Fed
after_req c r = record {
  connection = record c {
    stream = record (r.state) { req_updated = false };
    req_lsm = r.machine;
    req_done = r.done;
  };
  update = if r.state.req_updated then some (request r.state.req_map) else none;
  done = r.cancelled || (r.done && c.resp_done);
}

unfoldable pub feed_resp : Connection → Bytes → Option Fed
unfolding exec_resp after_resp
feed_resp c bytes =
    let s : Stream = record (c.stream) {
      resp_buf = ByteBuffer.append c.stream.resp_buf bytes;
      resp_updated = false;
    } in
    elim (Lsm.run exec_resp (fuel c.resp_lsm) c.resp_lsm s) [
      | none ↦ none
      | some r ↦ if r.state.exhausted then none else some (after_resp c r)
    ]

unfoldable pub feed_req : (Bytes → Bytes) → (Bytes → Bytes) → Connection → Bytes → Option Fed
unfolding exec_req after_req
feed_req md5 sha256 c bytes =
    let s : Stream = record (c.stream) {
      req_buf = ByteBuffer.append c.stream.req_buf bytes;
      req_updated = false;
    } in
    elim (Lsm.run (exec_req md5 sha256) (fuel c.req_lsm) c.req_lsm s) [
      | none ↦ none
      | some r ↦ if r.state.exhausted then none else some (after_req c r)
    ]

-- Feed
unfoldable pub feed : (Bytes → Bytes) → (Bytes → Bytes) → Connection → Bool → ℕ → Bytes → Option Fed
unfolding feed_req feed_resp
feed md5 sha256 c rev skip bytes =
    if not (skip == 0)
    then some (record { connection = c; update = none; done = true })
    else if length bytes == 0
    then some (record { connection = c; update = none; done = false })
    else if rev
    then feed_resp c bytes
    else feed_req md5 sha256 c bytes

-- Close, which returns no update
unfoldable pub close : Connection → Connection
close c = record c {
  stream = record (c.stream) {
    req_buf = ByteBuffer.empty;
    resp_buf = ByteBuffer.empty;
    req_map = none;
    resp_map = none;
  };
}
