-- ===== src/Analyzer/Socks/Total.antt =====
-- The machines of analyzer/tcp/socks.go end: no step resets, and only the version steps append.
use open_gfw_next.Base.{
  List, ◌∷◌, ◌⊎◌, refl, if◌then◌else◌, ℕ, suc, ◌<◌, ◌≡◌, ◌≢◌, Bool, false, none, [], Bytes, arith,
  inl, inr,
}
use open_gfw_next.Utils.ByteBuffer
use open_gfw_next.Utils.Lsm.{reset}
use open_gfw_next.Utils.Lsm.Total.{ahead, total, IsLinear, run_total}
use open_gfw_next.Analyzer.Socks.{
  Stream, Step, Does, req_version, ip_and_port, user_id, hostname, req_method, req_auth,
  req_conn_info, resp_version, resp_packet, resp_method, resp_auth, resp_conn_info,
  parse_req_version, parse_resp_version, parse_req_method,
}
use open_gfw_next.Analyzer.Socks.Requests.{
  parse_req_auth, parse_req_conn_info, take_request, parse_ip_and_port, parse_user_id,
  parse_hostname,
}
use open_gfw_next.Analyzer.Socks.Responses.{
  parse_resp_method, parse_resp_auth, parse_resp_conn_info, take_response, parse_resp_packet,
}
use open_gfw_next.Analyzer.Socks.Feed.{
  exec, weight, Connection, new, Fed, Called, returned, panics, no_fuel, feed, feed_req, feed_resp,
}

-- a step that neither resets nor appends
abbrev IsPlain : Does → Type 0
IsPlain d = (d.action ≢ reset) × (d.appended ≡ [])

ip_and_port-IsPlain : (s : Stream) → IsPlain (parse_ip_and_port s)
unfolding parse_ip_and_port
ip_and_port-IsPlain s = (ground arith, ground arith)

user_id-IsPlain : (s : Stream) → IsPlain (parse_user_id s)
unfolding parse_user_id
user_id-IsPlain s = (ground arith, ground arith)

hostname-IsPlain : (s : Stream) → IsPlain (parse_hostname s)
unfolding parse_hostname
hostname-IsPlain s = (ground arith, ground arith)

req_auth-IsPlain : (s : Stream) → IsPlain (parse_req_auth s)
unfolding parse_req_auth
req_auth-IsPlain s = (ground arith, ground arith)

req_conn_info-IsPlain : (s : Stream) → IsPlain (parse_req_conn_info s)
unfolding parse_req_conn_info take_request
req_conn_info-IsPlain s = (ground arith, ground arith)

resp_packet-IsPlain : (s : Stream) → IsPlain (parse_resp_packet s)
unfolding parse_resp_packet
resp_packet-IsPlain s = (ground arith, ground arith)

resp_method-IsPlain : (s : Stream) → IsPlain (parse_resp_method s)
unfolding parse_resp_method
resp_method-IsPlain s = (ground arith, ground arith)

resp_auth-IsPlain : (s : Stream) → IsPlain (parse_resp_auth s)
unfolding parse_resp_auth
resp_auth-IsPlain s = (ground arith, ground arith)

resp_conn_info-IsPlain : (s : Stream) → IsPlain (parse_resp_conn_info s)
unfolding parse_resp_conn_info take_response
resp_conn_info-IsPlain s = (ground arith, ground arith)

req_method-IsPlain : (s : Stream) → IsPlain (parse_req_method s)
unfolding parse_req_method
req_method-IsPlain s = (ground arith, ground arith)

req_version-ne-reset : (s : Stream) → (parse_req_version s).action ≢ reset
unfolding parse_req_version
req_version-ne-reset s = ground arith

req_version-weight : (s : Stream) → total weight (parse_req_version s).appended < 4
unfolding parse_req_version weight
req_version-weight s = ground arith

resp_version-ne-reset : (s : Stream) → (parse_resp_version s).action ≢ reset
unfolding parse_resp_version
resp_version-ne-reset s = ground arith

resp_version-weight : (s : Stream) → total weight (parse_resp_version s).appended < 4
unfolding parse_resp_version weight
resp_version-weight s = ground arith

exec-ne-reset : (k : Step) (s : Stream) → (exec k s).action ≢ reset
unfolding exec
exec-ne-reset req_version s = req_version-ne-reset s
exec-ne-reset resp_version s = resp_version-ne-reset s
exec-ne-reset ip_and_port s = (ip_and_port-IsPlain s).0
exec-ne-reset user_id s = (user_id-IsPlain s).0
exec-ne-reset hostname s = (hostname-IsPlain s).0
exec-ne-reset req_auth s = (req_auth-IsPlain s).0
exec-ne-reset req_conn_info s = (req_conn_info-IsPlain s).0
exec-ne-reset resp_packet s = (resp_packet-IsPlain s).0
exec-ne-reset resp_method s = (resp_method-IsPlain s).0
exec-ne-reset resp_auth s = (resp_auth-IsPlain s).0
exec-ne-reset resp_conn_info s = (resp_conn_info-IsPlain s).0
exec-ne-reset req_method s = (req_method-IsPlain s).0

exec-lighter : (k : Step) (s : Stream) → total weight (exec k s).appended < weight k
unfolding exec weight
exec-lighter req_version s = req_version-weight s
exec-lighter resp_version s = resp_version-weight s
exec-lighter ip_and_port s = rw (ip_and_port-IsPlain s).1 (ground arith)
exec-lighter user_id s = rw (user_id-IsPlain s).1 (ground arith)
exec-lighter hostname s = rw (hostname-IsPlain s).1 (ground arith)
exec-lighter req_auth s = rw (req_auth-IsPlain s).1 (ground arith)
exec-lighter req_conn_info s = rw (req_conn_info-IsPlain s).1 (ground arith)
exec-lighter resp_packet s = rw (resp_packet-IsPlain s).1 (ground arith)
exec-lighter resp_method s = rw (resp_method-IsPlain s).1 (ground arith)
exec-lighter resp_auth s = rw (resp_auth-IsPlain s).1 (ground arith)
exec-lighter resp_conn_info s = rw (resp_conn_info-IsPlain s).1 (ground arith)
exec-lighter req_method s = rw (req_method-IsPlain s).1 (ground arith)

exec-IsLinear : IsLinear exec weight
exec-IsLinear = record { no_reset = exec-ne-reset; lighter = exec-lighter }

feed_req_ends : (c : Connection) (bytes : Bytes) → feed_req c bytes ≢ no_fuel
unfolding feed_req
feed_req_ends c bytes =
    let s : Stream = record (c.stream) {
      req_buf = ByteBuffer.append c.stream.req_buf bytes;
      req_updated = false;
    } in
    let (r, e) =
      run_total exec weight exec-IsLinear (suc (ahead weight c.req_lsm)) c.req_lsm s
        (ground arith) in
    ground (arith, e)

feed_resp_ends : (c : Connection) (bytes : Bytes) → feed_resp c bytes ≢ no_fuel
unfolding feed_resp
feed_resp_ends c bytes =
    let s : Stream = record (c.stream) {
      resp_buf = ByteBuffer.append c.stream.resp_buf bytes;
      resp_updated = false;
    } in
    let (r, e) =
      run_total exec weight exec-IsLinear (suc (ahead weight c.resp_lsm)) c.resp_lsm s
        (ground arith) in
    ground (arith, e)

feed_ends :
    (c : Connection) (rev : Bool) (skip : ℕ) (bytes : Bytes) → feed c rev skip bytes ≢ no_fuel
unfolding feed
feed_ends c rev skip bytes = ground (arith, feed_req_ends c bytes, feed_resp_ends c bytes)

-- the engine's calls of `Feed` on the segments of a connection, up to one that is done or panics
unfoldable pub feed_all : Connection → List (Bool × ℕ × Bytes) → Called
feed_all c [] = returned (record { connection = c; update = none; done = false })
feed_all c ((rev, skip, bytes) ∷ segs) = elim (feed c rev skip bytes) [
  | returned f ↦ let rest = feed_all f.connection segs in if f.done then returned f else rest
  | panics ↦ panics
  | no_fuel ↦ no_fuel
]

Called-cases : (x : Called) → (x ≡ no_fuel) ⊎ ((x ≡ panics) ⊎ ((f : Fed) × (x ≡ returned f)))
Called-cases (returned f) = inr (inr (f, refl))
Called-cases panics = inr (inl refl)
Called-cases no_fuel = inl refl

connection_ends : (segs : List (Bool × ℕ × Bytes)) (c : Connection) → feed_all c segs ≢ no_fuel
unfolding feed_all
connection_ends [] c = λ e. cc
connection_ends ((rev, skip, bytes) ∷ segs) c = elim (Called-cases (feed c rev skip bytes)) [
  | inl e ↦ absurd (feed_ends c rev skip bytes e)
  | inr (inl e) ↦ ground (arith, e)
  | inr (inr (f, e)) ↦ ground (arith, e, connection_ends segs f.connection)
]

-- On a new connection, whatever its segments are, every call of `Feed` ends: it returns, or it panics
-- on a slice that is out of range, which is the last call then. No run of a machine goes on for ever.
pub feed_all_ends : (segs : List (Bool × ℕ × Bytes)) → feed_all new segs ≢ no_fuel
feed_all_ends segs = connection_ends segs new
