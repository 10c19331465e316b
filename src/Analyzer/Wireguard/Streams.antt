-- ===== src/Analyzer/Wireguard/Streams.antt =====
-- A WireGuard stream of analyzer/udp/wireguard.go over a sequence of packets.
use open_gfw_next.Base.{
  is_some, ℕ, ◌+◌, ◌≡◌, refl, Bool, true, false, Option, none, some, List, [], ◌∷◌, ◌++◌, Bytes,
  arith, leb, take, if◌then◌else◌,
}
use open_gfw_next.Utils.ByteBuffer.{at}
use open_gfw_next.Analyzer.Wireguard.{
  Index, Cells, Stream, new, packet_data, feed, uint32_at, uint64_at,
}
use open_gfw_next.Analyzer.Wireguard.Ring.{
  Remembers, Remembers-new, put_sender_index-Remembers, any_answers, match_receiver_index-Remembers,
}
use open_gfw_next.Analyzer.Wireguard.Packets.{
  is_wireguard, announced, put_announced, parse_packet-is_wireguard, parse_packet-announced,
  parse_packet_data_lem,
}

-- the engine's calls, one for each packet with its direction
pub feed_all : Stream → List (Bool × Bytes) → Stream
feed_all s [] = s
feed_all s ((rev, bytes) ∷ ps) = feed_all (feed s rev bytes).stream ps

-- the packets at the end of the list that are not WireGuard's, `n` before the list
pub trailing : ℕ → List (Bool × Bytes) → ℕ
trailing n [] = n
trailing n ((rev, bytes) ∷ ps) = trailing (if is_wireguard bytes then 0 else n + 1) ps

abbrev pub extend : List Index → Option Index → List Index
extend h none = h
extend h (some w) = w ∷ h

-- the sender indexes announced, newest first, on top of `h`
pub history : List Index → List (Bool × Bytes) → List Index
history h [] = h
history h ((rev, bytes) ∷ ps) = history (extend h (announced rev bytes)) ps

feed-invalid_count :
    (s : Stream) (rev : Bool) (bytes : Bytes)
    → (feed s rev bytes).stream.invalid_count
      ≡ (if is_wireguard bytes then 0 else s.invalid_count + 1)
unfolding feed
feed-invalid_count s rev bytes = ground (arith, parse_packet-is_wireguard s.remembered rev bytes)

feed_all-invalid_count :
    (ps : List (Bool × Bytes)) (s : Stream)
    → (feed_all s ps).invalid_count ≡ trailing s.invalid_count ps
unfolding feed_all trailing
feed_all-invalid_count [] s = refl
feed_all-invalid_count ((rev, bytes) ∷ ps) s =
    rw (← feed-invalid_count s rev bytes) (feed_all-invalid_count ps (feed s rev bytes).stream)

put_announced-Remembers :
    (cells : Cells) (h : List Index) (o : Option Index)
    → Remembers cells h
    → Remembers (put_announced cells o) (extend h o)
put_announced-Remembers cells h none r = r
put_announced-Remembers cells h (some w) r =
    put_sender_index-Remembers cells h w.reverse w.sender_index r

feed-remembered :
    (s : Stream) (rev : Bool) (bytes : Bytes)
    → (feed s rev bytes).stream.remembered ≡ put_announced s.remembered (announced rev bytes)
unfolding feed
feed-remembered s rev bytes = ground (arith, parse_packet-announced s.remembered rev bytes)

feed-Remembers :
    (s : Stream) (rev : Bool) (bytes : Bytes) (h : List Index)
    → Remembers s.remembered h
    → Remembers (feed s rev bytes).stream.remembered (extend h (announced rev bytes))
feed-Remembers s rev bytes h r =
    rw (feed-remembered s rev bytes)
      (put_announced-Remembers s.remembered h (announced rev bytes) r)

pub feed_all-Remembers :
    (ps : List (Bool × Bytes)) (s : Stream) (h : List Index)
    → Remembers s.remembered h
    → Remembers (feed_all s ps).remembered (history h ps)
unfolding feed_all history
feed_all-Remembers [] s h r = r
feed_all-Remembers ((rev, bytes) ∷ ps) s h r =
    feed_all-Remembers ps (feed s rev bytes).stream _ (feed-Remembers s rev bytes h r)

trailing-append :
    (n : ℕ) (ps : List (Bool × Bytes)) (rev : Bool) (bytes : Bytes)
    → trailing n (ps ++ (rev, bytes) ∷ []) ≡ (if is_wireguard bytes then 0 else trailing n ps + 1)
unfolding trailing
trailing-append n [] rev bytes = refl
trailing-append n ((d, p) ∷ ps) rev bytes =
    trailing-append (if is_wireguard p then 0 else n + 1) ps rev bytes

feed_done :
    (s : Stream) (rev : Bool) (bytes : Bytes)
    → ((feed s rev bytes).done ≡ leb 4 (if is_wireguard bytes then 0 else s.invalid_count + 1))
      × (is_some (feed s rev bytes).update ≡ is_wireguard bytes)
unfolding feed
feed_done s rev bytes = ground (arith, parse_packet-is_wireguard s.remembered rev bytes)

-- `Feed` gives a stream up exactly when it has now seen four packets in a row that have none of the
-- message formats; it returns an update for every packet that has one, and for no other.
pub feed_gives_up :
    (ps : List (Bool × Bytes)) (rev : Bool) (bytes : Bytes)
    → ((feed (feed_all new ps) rev bytes).done ≡ leb 4 (trailing 0 (ps ++ (rev, bytes) ∷ [])))
      × (is_some (feed (feed_all new ps) rev bytes).update ≡ is_wireguard bytes)
unfolding new
feed_gives_up ps rev bytes =
    let (d, u) = feed_done (feed_all new ps) rev bytes in
    let count = feed_all-invalid_count ps new in
    (ground (arith, trailing-append 0 ps rev bytes, count, d), u)

-- whether the receiver index of a packet answers one of the last five announced sender indexes
abbrev pub answered : List (Bool × Bytes) → Bool → Bytes → Bool
answered ps rev bytes = any_answers rev (uint32_at bytes 4) (take 5 (history [] ps))

-- A data packet is reported with its receiver index, its counter, and whether that index answers one
-- of the last five sender indexes announced in the other direction.
pub feed_data :
    (ps : List (Bool × Bytes)) (rev : Bool) (bytes : Bytes)
    → is_wireguard bytes ≡ true
    → at bytes 0 ≡ 4
    → (feed (feed_all new ps) rev bytes).update
      ≡ some (record {
        replaces = false;
        message = packet_data (uint32_at bytes 4) (answered ps rev bytes) (uint64_at bytes 8);
      })
unfolding feed
feed_data ps rev bytes w t =
    let s = feed_all new ps in
    let remembers = feed_all-Remembers ps new [] Remembers-new in
    let matched = match_receiver_index-Remembers s.remembered _ rev (uint32_at bytes 4) remembers in
    ground (arith, parse_packet_data_lem s.remembered rev bytes w t, matched)
