-- ===== src/Analyzer/Wireguard/Packets.antt =====
-- Which packets analyzer/udp/wireguard.go takes for WireGuard.
use open_gfw_next.Base.{
  is_some, ◌%◌, ◌≡◌, Bool, true, ◌&&◌, ◌||◌, Option, none, some, Bytes, arith, leb, ◌==◌, length,
  if◌then◌else◌,
}
use open_gfw_next.Utils.ByteBuffer.{at}
use open_gfw_next.Analyzer.Wireguard.{
  packet_data, uint64_at, match_receiver_index, Index, Cells, put_sender_index, parse_packet,
  uint32_at,
}

-- the four message formats: a type byte, three zero bytes, and a length that fits the type
unfoldable pub is_wireguard : Bytes → Bool
is_wireguard bytes =
    leb 4 (length bytes)
    && (at bytes 1 == 0)
    && (at bytes 2 == 0)
    && (at bytes 3 == 0)
    && ((at bytes 0 == 1) && (length bytes == 148)
        || (at bytes 0 == 2) && (length bytes == 92)
        || (at bytes 0 == 3) && (length bytes == 64)
        || (at bytes 0 == 4) && leb 32 (length bytes) && length bytes % 16 == 0)

-- the sender index that a handshake message announces
pub announced : Bool → Bytes → Option Index
announced rev bytes =
    if is_wireguard bytes && (at bytes 0 == 1 || at bytes 0 == 2)
    then some (record { sender_index = uint32_at bytes 4; reverse = rev })
    else none

-- A packet is accepted exactly when it has one of the four formats, whatever came before.
pub parse_packet-is_wireguard :
    (cells : Cells) (rev : Bool) (bytes : Bytes)
    → is_some (parse_packet cells rev bytes).1 ≡ is_wireguard bytes
unfolding parse_packet is_wireguard
parse_packet-is_wireguard cells rev bytes = ground arith

abbrev pub put_announced : Cells → Option Index → Cells
put_announced cells none = cells
put_announced cells (some w) = put_sender_index cells w.reverse w.sender_index

-- Handshake messages alone enter an index into the ring.
pub parse_packet-announced :
    (cells : Cells) (rev : Bool) (bytes : Bytes)
    → (parse_packet cells rev bytes).0 ≡ put_announced cells (announced rev bytes)
unfolding parse_packet is_wireguard announced
parse_packet-announced cells rev bytes = ground arith

-- what a packet with the data type is parsed into
pub parse_packet_data_lem :
    (cells : Cells) (rev : Bool) (bytes : Bytes)
    → is_wireguard bytes ≡ true
    → at bytes 0 ≡ 4
    → (parse_packet cells rev bytes).1
      ≡ some (
          packet_data
            (uint32_at bytes 4)
            (match_receiver_index cells rev (uint32_at bytes 4))
            (uint64_at bytes 8))
unfolding parse_packet is_wireguard
parse_packet_data_lem cells rev bytes w t = ground arith
