-- ===== src/Analyzer/Wireguard.antt =====
-- analyzer/udp/wireguard.go. A packet's property map is a `Message`. The ring of `container/ring` is
-- the list of its cells from the current one on, in the order of `Next`; its lock is not modelled,
-- since a stream is fed by one worker.
pub mod Ring
pub mod Packets
pub mod Streams
use open_gfw_next.Base.{
  ℕ, zero, suc, ◌+◌, ◌*◌, ◌%◌, Bool, true, false, not, ◌&&◌, Option, none, some, List, [], ◌∷◌,
  Bytes, ltb, leb, ◌==◌, beq, if◌then◌else◌, length, take, drop,
}
use open_gfw_next.Utils.ByteBuffer.{at, uint32_of}

abbrev pub invalid_count_threshold : ℕ
invalid_count_threshold = 4

abbrev pub remembered_index_count : ℕ
remembered_index_count = 6

-- wireGuardIndex
pub record Index : Type 0 where
  pub sender_index : ℕ
  pub reverse : Bool

module _ {A : Type 0} where
  abbrev pub last_of : A → List A → A
  last_of x [] = x
  last_of x (y ∷ ys) = last_of y ys

  abbrev pub drop_last : A → List A → List A
  drop_last x [] = []
  drop_last x (y ∷ ys) = x ∷ drop_last y ys

  -- Prev: the last cell becomes the current one
  abbrev pub prev : List A → List A
  prev [] = []
  prev (x ∷ xs) = last_of x xs ∷ drop_last x xs

abbrev pub Cells : Type 0
Cells = List (Option Index)

-- wireGuardUDPStream, less its logger and its lock
pub record Stream : Type 0 where
  pub invalid_count : ℕ
  pub remembered : Cells

abbrev pub no_cells : ℕ → Cells
no_cells zero = []
no_cells (suc n) = none ∷ no_cells n

-- newWireGuardUDPStream
unfoldable pub new : Stream
new = record { invalid_count = 0; remembered = no_cells remembered_index_count }

abbrev pub set_current : Cells → Index → Cells
set_current [] i = []
set_current (c ∷ cs) i = some i ∷ cs

-- putSenderIndex
unfoldable pub put_sender_index : Cells → Bool → ℕ → Cells
put_sender_index cells rev i = prev (set_current cells (record { sender_index = i; reverse = rev }))

-- wgidx.Reverse == !rev && wgidx.SenderIndex == receiverIndex
abbrev pub answers : Bool → ℕ → Index → Bool
answers rev i w = beq w.reverse (not rev) && w.sender_index == i

-- the loop of `matchReceiverIndex`, from the cell after the current one until it comes round
unfoldable pub search_cells : Bool → ℕ → Cells → Bool
search_cells rev i [] = false
search_cells rev i (none ∷ cells) = false
search_cells rev i (some w ∷ cells) = if answers rev i w then true else search_cells rev i cells

-- matchReceiverIndex
unfoldable pub match_receiver_index : Cells → Bool → ℕ → Bool
unfolding search_cells
match_receiver_index [] rev i = false
match_receiver_index (current ∷ cells) rev i = search_cells rev i cells

pub data Message : Type 0 where
  handshake_initiation : ℕ → Message
  handshake_response : ℕ → ℕ → Bool → Message
  packet_data : ℕ → Bool → ℕ → Message
  packet_cookie_reply : ℕ → Bool → Message

-- binary.LittleEndian.Uint32(data[i : i+4])
abbrev pub uint32_at : Bytes → ℕ → ℕ
uint32_at bytes i = uint32_of true (take 4 (drop i bytes))

-- binary.LittleEndian.Uint64(data[i : i+8])
abbrev pub uint64_at : Bytes → ℕ → ℕ
uint64_at bytes i = uint32_at bytes i + uint32_at bytes (i + 4) * 4294967296

-- what a parser returns: the cells it leaves, and the message or nil
abbrev pub Parsed : Type 0
Parsed = Cells × Option Message

-- parseWireGuardHandshakeInitiation
unfoldable pub parse_handshake_initiation : Cells → Bool → Bytes → Parsed
parse_handshake_initiation cells rev bytes =
    let sender = uint32_at bytes 4 in
    if not (length bytes == 148)
    then (cells, none)
    else (put_sender_index cells rev sender, some (handshake_initiation sender))

-- parseWireGuardHandshakeResponse
unfoldable pub parse_handshake_response : Cells → Bool → Bytes → Parsed
parse_handshake_response cells rev bytes =
    let sender = uint32_at bytes 4 in
    let receiver = uint32_at bytes 8 in
    let cells' = put_sender_index cells rev sender in
    if not (length bytes == 92) then (cells, none) else (
      cells',
      some (handshake_response sender receiver (match_receiver_index cells' rev receiver)),
    )

-- parseWireGuardPacketData
unfoldable pub parse_packet_data : Cells → Bool → Bytes → Parsed
parse_packet_data cells rev bytes =
    let receiver = uint32_at bytes 4 in
    let matched = match_receiver_index cells rev receiver in
    if ltb (length bytes) 32
    then (cells, none)
    else if not (length bytes % 16 == 0)
    then (cells, none)
    else (cells, some (packet_data receiver matched (uint64_at bytes 8)))

-- parseWireGuardPacketCookieReply
unfoldable pub parse_packet_cookie_reply : Cells → Bool → Bytes → Parsed
parse_packet_cookie_reply cells rev bytes =
    let receiver = uint32_at bytes 4 in
    let matched = match_receiver_index cells rev receiver in
    if not (length bytes == 64)
    then (cells, none)
    else (cells, some (packet_cookie_reply receiver matched))

-- slices.Max(data[1:4]) != 0
abbrev pub has_reserved : Bytes → Bool
has_reserved bytes = not ((at bytes 1 == 0) && (at bytes 2 == 0) && at bytes 3 == 0)

-- parseWireGuardPacket
unfoldable pub parse_packet : Cells → Bool → Bytes → Parsed
unfolding parse_handshake_initiation parse_handshake_response parse_packet_data
    parse_packet_cookie_reply
parse_packet cells rev bytes =
    if ltb (length bytes) 4
    then (cells, none)
    else if has_reserved bytes
    then (cells, none)
    else if at bytes 0 == 1
    then parse_handshake_initiation cells rev bytes
    else if at bytes 0 == 2
    then parse_handshake_response cells rev bytes
    else if at bytes 0 == 4
    then parse_packet_data cells rev bytes
    else if at bytes 0 == 3
    then parse_packet_cookie_reply cells rev bytes
    else (cells, none)

-- the update that `Feed` returns; `replaces` is PropUpdateReplace, else PropUpdateMerge
pub record Update : Type 0 where
  pub replaces : Bool
  pub message : Message

pub record Fed : Type 0 where
  pub stream : Stream
  pub update : Option Update
  pub done : Bool

abbrev is_initiation : Message → Bool
is_initiation (handshake_initiation _) = true
is_initiation _ = false

-- `Feed` on what `parseWireGuardPacket` returned
abbrev settle : Stream → Parsed → Fed
settle s (cells, none) = record {
  stream = record { invalid_count = s.invalid_count + 1; remembered = cells };
  update = none;
  done = leb invalid_count_threshold (s.invalid_count + 1);
}
settle s (cells, some m) = record {
  stream = record { invalid_count = 0; remembered = cells };
  update = some (record { replaces = is_initiation m; message = m });
  done = false;
}

-- Feed
unfoldable pub feed : Stream → Bool → Bytes → Fed
feed s rev bytes = settle s (parse_packet s.remembered rev bytes)
