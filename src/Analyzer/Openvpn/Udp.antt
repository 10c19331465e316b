-- ===== src/Analyzer/Openvpn/Udp.antt =====
-- The UDP stream of analyzer/udp/openvpn.go. `curPkt` is `none` once a packet has been parsed; the
-- analyzer's `Feed` puts no empty packet there.
pub mod Handshake
pub mod Refinement
use open_gfw_next.Base.{
  ℕ, Bool, true, false, not, Option, none, some, Bytes, ◌==◌, if◌then◌else◌, length,
}
use open_gfw_next.Utils.ByteBuffer.{at}
use open_gfw_next.Analyzer.Openvpn.{
  Answer, pauses, cancels, packet, check_for_valid_opcode, opcode_of, key_id_of, Stream, new_stream,
  Fed, feed_req, feed_resp,
}

abbrev pub pkt_default_limit : ℕ
pkt_default_limit = 256

-- newOpenVPNUDPStream
unfoldable pub new : Stream (Option Bytes)
new = new_stream none pkt_default_limit

-- parsePkt
pub parse_pkt : Option Bytes → Option Bytes × Answer
parse_pkt none = (none, pauses)
parse_pkt (some bytes) =
    if not (check_for_valid_opcode (opcode_of (at bytes 0))) then (some bytes, cancels) else (
      none,
      packet (record {
        pkt_len = 0;
        opcode = opcode_of (at bytes 0);
        key_id = key_id_of (at bytes 0);
      }),
    )

-- Feed
unfoldable pub feed : Stream (Option Bytes) → Bool → Bytes → Option (Fed (Option Bytes))
feed s rev bytes =
    let s' : Stream (Option Bytes) = record s {
      shared = record (s.shared) { transport = some bytes };
    } in
    let response = feed_resp parse_pkt parse_pkt s' in
    let request = feed_req parse_pkt parse_pkt s' in
    if length bytes == 0
    then some (record { stream = s; update = none; done = false })
    else if rev
    then response
    else request
