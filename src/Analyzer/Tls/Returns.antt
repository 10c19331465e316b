-- ===== src/Analyzer/Tls/Returns.antt =====
-- analyzer/tcp/tls.go: `Feed` returns, and so do the parsers that it runs.
use open_gfw_next.Base.{
  not, refl, ◌==◌, Bool-cases, ℕ, suc, ◌≡◌, ◌≢◌, Bool, true, false, Option, none, some, [], Bytes,
  arith, Option-cases, inl, inr, length,
}
use open_gfw_next.Utils.ByteBuffer
use open_gfw_next.Utils.ByteBuffer.{ByteBuffer, get}
use open_gfw_next.Utils.Lsm.{reset}
use open_gfw_next.Utils.Lsm.Total.{ahead, IsLinear, run_total, run_keeps}
use open_gfw_next.Utils.Strings.{codes}
use open_gfw_next.Analyzer.Tls.{no_fuel}
use open_gfw_next.Analyzer.Tls.Total.{ended-ends}
use open_gfw_next.Analyzer.Tls.Ends.{parse_client_hello-ends, parse_server_hello-ends}
use open_gfw_next.Analyzer.Tls.Hello.{parse_client_hello}
use open_gfw_next.Analyzer.Tls.Fingerprint.{parse_fingerprinted}
use open_gfw_next.Analyzer.Tls.Stream.{
  Stream, ReqStep, RespStep, client_preprocess, client_data, server_preprocess, server_data,
  client_hello_preprocess, parse_client_hello_data, server_hello_preprocess,
  parse_server_hello_data, exec_req, exec_resp, Connection, Fed, one, feed, feed_req, feed_resp,
  after_req, after_resp,
}

-- no parser has run out of fuel
abbrev pub is_live : Stream → Bool
is_live s = not s.exhausted

-- the result of a call, and the stream that it leaves
abbrev pub Returns : Option Fed → Type 0
Returns fed = (f : Fed) × (fed ≡ some f) × (is_live f.connection.stream ≡ true)

module _ (md5 sha256 : Bytes → Bytes) where
  exec_req-ne-reset : (k : ReqStep) (s : Stream) → (exec_req md5 sha256 k s).action ≢ reset
  unfolding exec_req client_hello_preprocess parse_client_hello_data
  exec_req-ne-reset client_preprocess s = ground arith
  exec_req-ne-reset client_data s = ground arith

  exec_req-plain : (k : ReqStep) (s : Stream) → (exec_req md5 sha256 k s).appended ≡ []
  unfolding exec_req client_hello_preprocess parse_client_hello_data
  exec_req-plain client_preprocess s = ground arith
  exec_req-plain client_data s = ground arith

  exec_req-IsLinear : IsLinear (exec_req md5 sha256) one
  exec_req-IsLinear = record {
    no_reset = exec_req-ne-reset;
    lighter = λ k s. rw (exec_req-plain k s) (ground arith);
  }

  parse_fingerprinted-ends :
      (protocol : Bytes) (b : ByteBuffer) → parse_fingerprinted md5 sha256 protocol b ≢ no_fuel
  unfolding parse_fingerprinted
  parse_fingerprinted-ends protocol b =
      ended-ends _ (parse_client_hello b) (parse_client_hello-ends b)

  preprocess_live :
      (s : Stream) → is_live s ≡ true → is_live (client_hello_preprocess s).state ≡ true
  unfolding client_hello_preprocess
  preprocess_live s h = ground arith

  client_data_live :
      (s : Stream) → is_live s ≡ true → is_live (parse_client_hello_data md5 sha256 s).state ≡ true
  unfolding parse_client_hello_data
  client_data_live s h =
      elim (Option-cases (ByteBuffer.get_sub_buffer s.req_buf s.client_hello_len true).1) [
        | inl e ↦ ground (arith, e, h)
        | inr (body, e) ↦ ground (arith, e, h, parse_fingerprinted-ends (codes "t") body)
      ]

  exec_req_live :
      (k : ReqStep) (s : Stream) → is_live s ≡ true → is_live (exec_req md5 sha256 k s).state ≡ true
  unfolding exec_req
  exec_req_live client_preprocess s h = preprocess_live s h
  exec_req_live client_data s h = client_data_live s h

  feed_req-Returns :
      (c : Connection) (bytes : Bytes)
      → is_live c.stream ≡ true
      → Returns (feed_req md5 sha256 c bytes)
  unfolding feed_req after_req
  feed_req-Returns c bytes h =
      let s : Stream = record (c.stream) {
        req_buf = ByteBuffer.append c.stream.req_buf bytes;
        req_updated = false;
      } in
      let fuel = suc (ahead one c.req_lsm) in
      let (r, e) =
        run_total (exec_req md5 sha256) one exec_req-IsLinear fuel c.req_lsm s (ground arith) in
      let live = run_keeps (exec_req md5 sha256) one is_live exec_req_live fuel c.req_lsm s r h e in
      (after_req c r, ground (arith, e, live), live)

exec_resp-ne-reset : (k : RespStep) (s : Stream) → (exec_resp k s).action ≢ reset
unfolding exec_resp server_hello_preprocess parse_server_hello_data
exec_resp-ne-reset server_preprocess s = ground arith
exec_resp-ne-reset server_data s = ground arith

exec_resp-plain : (k : RespStep) (s : Stream) → (exec_resp k s).appended ≡ []
unfolding exec_resp server_hello_preprocess parse_server_hello_data
exec_resp-plain server_preprocess s = ground arith
exec_resp-plain server_data s = ground arith

exec_resp-IsLinear : IsLinear exec_resp one
exec_resp-IsLinear = record {
  no_reset = exec_resp-ne-reset;
  lighter = λ k s. rw (exec_resp-plain k s) (ground arith);
}

server_preprocess_live :
    (s : Stream) → is_live s ≡ true → is_live (server_hello_preprocess s).state ≡ true
unfolding server_hello_preprocess
server_preprocess_live s h = ground arith

server_data_live :
    (s : Stream) → is_live s ≡ true → is_live (parse_server_hello_data s).state ≡ true
unfolding parse_server_hello_data
server_data_live s h =
    elim (Option-cases (ByteBuffer.get_sub_buffer s.resp_buf s.server_hello_len true).1) [
      | inl e ↦ ground (arith, e, h)
      | inr (body, e) ↦ ground (arith, e, h, parse_server_hello-ends body)
    ]

exec_resp_live :
    (k : RespStep) (s : Stream) → is_live s ≡ true → is_live (exec_resp k s).state ≡ true
unfolding exec_resp
exec_resp_live server_preprocess s h = server_preprocess_live s h
exec_resp_live server_data s h = server_data_live s h

feed_resp-Returns :
    (c : Connection) (bytes : Bytes) → is_live c.stream ≡ true → Returns (feed_resp c bytes)
unfolding feed_resp after_resp
feed_resp-Returns c bytes h =
    let s : Stream = record (c.stream) {
      resp_buf = ByteBuffer.append c.stream.resp_buf bytes;
      resp_updated = false;
    } in
    let fuel = suc (ahead one c.resp_lsm) in
    let (r, e) = run_total exec_resp one exec_resp-IsLinear fuel c.resp_lsm s (ground arith) in
    let live = run_keeps exec_resp one is_live exec_resp_live fuel c.resp_lsm s r h e in
    (after_resp c r, ground (arith, e, live), live)

-- `Feed` returns for every segment, on a new connection and on one that a call of `Feed` has left:
-- neither its machine nor a parser of a hello message that the machine runs goes on for ever.
pub feed-Returns :
    (md5 sha256 : Bytes → Bytes) (c : Connection) (rev : Bool) (skip : ℕ) (bytes : Bytes)
    → is_live c.stream ≡ true
    → Returns (feed md5 sha256 c rev skip bytes)
unfolding feed
feed-Returns md5 sha256 c rev skip bytes h = elim (Bool-cases (skip == 0)) [
  | inr e ↦ rw e (record { connection = c; update = none; done = true }, refl, h)
  | inl e ↦ elim (Bool-cases (length bytes == 0)) [
    | inl x ↦ rw (e, x) (record { connection = c; update = none; done = false }, refl, h)
    | inr x ↦ elim (Bool-cases rev) [
      | inl y ↦ rw (e, x, y) (feed_resp-Returns c bytes h)
      | inr y ↦ rw (e, x, y) (feed_req-Returns md5 sha256 c bytes h)
    ]
  ]
]
