-- ===== src/Analyzer/Openvpn/Tcp.antt =====
-- The TCP stream of analyzer/udp/openvpn.go: packets are framed by a 16-bit length.
pub mod Frames
use open_gfw_next.Base.{
  ℕ, ◌+◌, Bool, true, false, not, Option, none, some, Bytes, ltb, ◌==◌, if◌then◌else◌, length, drop,
}
use open_gfw_next.Utils.ByteBuffer
use open_gfw_next.Utils.ByteBuffer.{ByteBuffer, empty, at}
use open_gfw_next.Analyzer.Openvpn.{
  Answer, pauses, cancels, packet, check_for_valid_opcode, opcode_of, key_id_of, Stream, new_stream,
  Fed, feed_req, feed_resp,
}

abbrev pub min_pkt_len : ℕ
min_pkt_len = 6

abbrev pub pkt_default_limit : ℕ
pkt_default_limit = 256

pub record Buffers : Type 0 where
  pub req_buf : ByteBuffer
  pub resp_buf : ByteBuffer

-- newOpenVPNTCPStream
unfoldable pub new : Stream Buffers
new = new_stream (record { req_buf = empty; resp_buf = empty }) pkt_default_limit

-- the end of `parsePkt`: the whole frame is there, or is waited for
parse_frame : ℕ → ByteBuffer × Option Bytes → ByteBuffer × Answer
parse_frame n (b, none) = (b, pauses)
parse_frame n (b, some pkt) =
    let first = at (drop 2 pkt) 0 in
    (b, packet (record { pkt_len = n; opcode = opcode_of first; key_id = key_id_of first }))

-- the middle of `parsePkt`: the opcode is looked at before the frame is complete
parse_opcode : ByteBuffer → ℕ → Option Bytes → ByteBuffer × Answer
parse_opcode b n none = (b, pauses)
parse_opcode b n (some pkt_op) =
    if not (check_for_valid_opcode (opcode_of (at pkt_op 2)))
    then (b, cancels)
    else parse_frame n (ByteBuffer.get b (n + 2) true)

parse_length : ByteBuffer → Option ℕ → ByteBuffer × Answer
parse_length b none = (b, pauses)
parse_length b (some n) =
    if ltb n min_pkt_len then (b, cancels) else parse_opcode b n (ByteBuffer.get b 3 false).1

-- parsePkt, on the buffer of one direction
pub parse_buffer : ByteBuffer → ByteBuffer × Answer
unfolding parse_length parse_opcode parse_frame
parse_buffer b = parse_length b (ByteBuffer.get_uint16 b false false).1

-- parsePkt(false) and parsePkt(true)
abbrev pub parse_req_pkt : Buffers → Buffers × Answer
parse_req_pkt t = let (b, a) = parse_buffer t.req_buf in (record t { req_buf = b }, a)

abbrev pub parse_resp_pkt : Buffers → Buffers × Answer
parse_resp_pkt t = let (b, a) = parse_buffer t.resp_buf in (record t { resp_buf = b }, a)

abbrev pub load : Stream Buffers → Buffers → Stream Buffers
load s t = record s { shared = record (s.shared) { transport = t } }

-- Feed. The update for a request is merged and that for a response replaces; both carry both counters.
unfoldable pub feed : Stream Buffers → Bool → ℕ → Bytes → Option (Fed Buffers)
feed s rev skip bytes =
    let t = s.shared.transport in
    let resp_in = load s (record t { resp_buf = ByteBuffer.append t.resp_buf bytes }) in
    let req_in = load s (record t { req_buf = ByteBuffer.append t.req_buf bytes }) in
    let response = feed_resp parse_req_pkt parse_resp_pkt resp_in in
    let request = feed_req parse_req_pkt parse_resp_pkt req_in in
    if not (skip == 0)
    then some (record { stream = s; update = none; done = true })
    else if length bytes == 0
    then some (record { stream = s; update = none; done = false })
    else if rev
    then response
    else request

-- Close
pub close : Stream Buffers → Stream Buffers
close s =
    let t = s.shared.transport in
    load s (record { req_buf = ByteBuffer.reset t.req_buf; resp_buf = ByteBuffer.reset t.resp_buf })
