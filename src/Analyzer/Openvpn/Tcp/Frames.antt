-- ===== src/Analyzer/Openvpn/Tcp/Frames.antt =====
-- How the TCP stream of analyzer/udp/openvpn.go cuts its input into packets, and that its `Feed`
-- returns.
use open_gfw_next.Base.{
  take-append_all, drop-append_all, ℕ, ◌+◌, ◌*◌, ◌/◌, ◌%◌, ◌≤◌, ◌<◌, ◌≡◌, refl, Bool, true, some,
  ◌∷◌, ◌++◌, Bytes, arith, length, length-append, Option-cases, inl, inr,
}
use open_gfw_next.Utils.ByteBuffer
use open_gfw_next.Utils.ByteBuffer.{ByteBuffer, at}
use open_gfw_next.Analyzer.Openvpn.{
  packet, check_for_valid_opcode, opcode_of, key_id_of, Stream, Fed,
}
use open_gfw_next.Analyzer.Openvpn.Total.{HasSteps, feed_req_total, feed_resp_total}
use open_gfw_next.Analyzer.Openvpn.Tcp.{
  load, new, Buffers, parse_buffer, parse_req_pkt, parse_resp_pkt, feed,
}

-- a packet behind its length, the high byte first
abbrev pub frame : Bytes → Bytes
frame payload = (length payload / 256) ∷ (length payload % 256) ∷ payload

get_frame :
    (xs ys : Bytes) (n : ℕ)
    → n ≡ length xs
    → ByteBuffer.get (record { buf = xs ++ ys }) n true ≡ (record { buf = ys }, some xs)
unfolding ByteBuffer.get
get_frame xs ys n e =
    rw e (ground (arith, length-append xs ys, drop-append_all xs ys, take-append_all xs ys))

-- A frame of a packet of at least six bytes with a known opcode is taken off the buffer whole,
-- whatever follows it.
pub parse_buffer-frame :
    (x : ℕ) (payload rest : Bytes)
    → 5 ≤ length payload
    → length payload < 65535
    → check_for_valid_opcode (opcode_of x) ≡ true
    → parse_buffer (record { buf = frame (x ∷ payload) ++ rest }) ≡ (
      record { buf = rest },
      packet
          (record { pkt_len = length (x ∷ payload); opcode = opcode_of x; key_id = key_id_of x }),
    )
unfolding parse_buffer ByteBuffer.get_uint16
parse_buffer-frame x payload rest lo hi v =
    let n = length (x ∷ payload) in
    let whole = get_frame (frame (x ∷ payload)) rest (n + 2) (omega arith) in
    let read : n % 256 + n / 256 * 256 ≡ n = omega arith in ground (arith, whole, read)

load-HasSteps : (s : Stream Buffers) (t : Buffers) → HasSteps s → HasSteps (load s t)
load-HasSteps s t h = record { req_has = h.req_has; resp_has = h.resp_has }

pub HasSteps-new : HasSteps new
unfolding new
HasSteps-new = record { req_has = refl; resp_has = refl }

-- `Feed` of any segment, in order or not, returns, and leaves a stream for which that holds again.
pub feed_total :
    (s : Stream Buffers) (rev : Bool) (skip : ℕ) (bytes : Bytes)
    → HasSteps s
    → (r : Fed Buffers) × (feed s rev skip bytes ≡ some r) × HasSteps r.stream
unfolding feed
feed_total s rev skip bytes h =
    let t = s.shared.transport in
    let resp_in = load s (record t { resp_buf = ByteBuffer.append t.resp_buf bytes }) in
    let req_in = load s (record t { req_buf = ByteBuffer.append t.req_buf bytes }) in
    let (r, e, k) = feed_resp_total parse_req_pkt parse_resp_pkt resp_in (load-HasSteps s _ h) in
    let (q, f, l) = feed_req_total parse_req_pkt parse_resp_pkt req_in (load-HasSteps s _ h) in
    elim (Option-cases (feed s rev skip bytes)) [
      | inl absent ↦ absurd (ground (arith, e, f))
      | inr (a, g) ↦ (a, g, ground (arith, e, f, k, l))
    ]
