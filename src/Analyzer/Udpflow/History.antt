-- ===== src/Analyzer/Udpflow/History.antt =====
-- What the counters of analyzer/udp/udpflow.go say of the packets that were fed.
use open_gfw_next.Base.{
  ℕ, suc, ◌+◌, ◌≡◌, refl, Bool, not, beq, List, [], ◌∷◌, Bytes, arith, ltb, ◌==◌, if◌then◌else◌,
  length,
}
use open_gfw_next.Analyzer.Udpflow.{Stream, new, count_packet, feed}

-- a packet: its direction, when it came, and its payload
pub record Packet : Type 0 where
  pub rev : Bool
  pub time : ℕ
  pub payload : Bytes

abbrev pub size : Packet → ℕ
size p = length p.payload

-- the stream after some packets, the latest first
unfoldable pub after : ℕ → ℕ → List Packet → Stream
after src dst [] = new src dst
after src dst (p ∷ h) = (feed (after src dst h) p.rev p.time p.payload).0

unfoldable pub packets_with : (Packet → Bool) → List Packet → List Packet
packets_with f [] = []
packets_with f (p ∷ h) = let rest = packets_with f h in if f p then p ∷ rest else rest

unfoldable pub count : (Packet → Bool) → List Packet → ℕ
count f h = length (packets_with f h)

unfoldable pub total : List Packet → ℕ
total [] = 0
total (p ∷ h) = size p + total h

-- the packets after the latest empty one
unfoldable pub since_empty : List Packet → List Packet
since_empty [] = []
since_empty (p ∷ h) = let rest = since_empty h in if size p == 0 then [] else p ∷ rest

abbrev pub lesser : ℕ → ℕ → ℕ
lesser a b = if ltb a b then a else b

-- the least and the greatest size, 0 if there is no packet
unfoldable pub smallest : List Packet → ℕ
smallest [] = 0
smallest (p ∷ []) = size p
smallest (p ∷ (q ∷ h)) = lesser (size p) (smallest (q ∷ h))

unfoldable pub largest : List Packet → ℕ
largest [] = 0
largest (p ∷ h) = let rest = largest h in if ltb rest (size p) then size p else rest

-- the size of the earliest packet
unfoldable pub earliest : List Packet → ℕ
earliest [] = 0
earliest (p ∷ []) = size p
earliest (p ∷ (q ∷ h)) = earliest (q ∷ h)

-- how many of the latest packets in a row have the direction
unfoldable pub run_of : Bool → List Packet → ℕ
run_of b [] = 0
run_of b (p ∷ h) = let rest = run_of b h in if beq p.rev b then suc rest else 0

unfoldable pub longest_run : List Packet → ℕ
longest_run [] = 0
longest_run (p ∷ h) =
    let rest = longest_run h in let run = suc (run_of p.rev h) in if ltb rest run then run else rest

-- how often two packets in a row differ in direction
unfoldable pub turns : List Packet → ℕ
turns [] = 0
turns (p ∷ []) = 0
turns (p ∷ (q ∷ h)) = let rest = turns (q ∷ h) in if beq p.rev q.rev then rest else suc rest

module _ (src dst : ℕ) where
  pub packets_lem : (h : List Packet) → (after src dst h).packet_count ≡ length h
  unfolding after feed count_packet new
  packets_lem [] = refl
  packets_lem (p ∷ h) = ground (arith, packets_lem h)

  pub bytes_lem : (h : List Packet) → (after src dst h).total_bytes ≡ total h
  unfolding after feed count_packet new total
  bytes_lem [] = refl
  bytes_lem (p ∷ h) = ground (arith, bytes_lem h)

  pub rx_lem : (h : List Packet) → (after src dst h).rx_packet_count ≡ count (λ p. p.rev) h
  unfolding after feed count_packet new count packets_with
  rx_lem [] = refl
  rx_lem (p ∷ h) = ground (arith, rx_lem h)

  pub tx_lem : (h : List Packet) → (after src dst h).tx_packet_count ≡ count (λ p. not p.rev) h
  unfolding after feed count_packet new count packets_with
  tx_lem [] = refl
  tx_lem (p ∷ h) = ground (arith, tx_lem h)

  pub rx_bytes_lem :
      (h : List Packet) → (after src dst h).rx_bytes ≡ total (packets_with (λ p. p.rev) h)
  unfolding after feed count_packet new total packets_with
  rx_bytes_lem [] = refl
  rx_bytes_lem (p ∷ h) = ground (arith, rx_bytes_lem h)

  pub tx_bytes_lem :
      (h : List Packet) → (after src dst h).tx_bytes ≡ total (packets_with (λ p. not p.rev) h)
  unfolding after feed count_packet new total packets_with
  tx_bytes_lem [] = refl
  tx_bytes_lem (p ∷ h) = ground (arith, tx_bytes_lem h)

  pub max_lem : (h : List Packet) → (after src dst h).max_packet_len ≡ largest h
  unfolding after feed count_packet new largest
  max_lem [] = refl
  max_lem (p ∷ h) = ground (arith, max_lem h)
