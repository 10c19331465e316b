-- ===== src/Analyzer/Udpflow/Summary.antt =====
-- The counters of analyzer/udp/udpflow.go after any packets.
use open_gfw_next.Base.{
  ℕ, ◌≡◌, inl, inr, refl, Bool, not, ◌&&◌, List, [], ◌∷◌, arith, ltb, leb, ◌==◌,
}
use open_gfw_next.Analyzer.Udpflow.{length, Stream, new, len_bucket, bump_at, count_packet, feed}
use open_gfw_next.Analyzer.Udpflow.History.{
  turns, longest_run, max_lem, largest, Packet, after, bytes_lem, count, earliest, packets_lem,
  packets_with, rx_bytes_lem, rx_lem, since_empty, size, smallest, total, tx_bytes_lem, tx_lem,
}
use open_gfw_next.Analyzer.Udpflow.Counters.{
  turns_lem, max_run_lem, min_lem, earliest-cases, earliest_cons,
}

-- the packets that were sent, or received, and are not empty
abbrev pub is_sent : Packet → Bool
is_sent p = not p.rev && not (size p == 0)

abbrev pub is_received : Packet → Bool
is_received p = p.rev && not (size p == 0)

-- is the size above `low` and at most `high`?
abbrev pub within : ℕ → ℕ → Packet → Bool
within low high p = ltb low (size p) && leb (size p) high

module _ (src dst : ℕ) where
  first_tx_lem :
      (h : List Packet) → (after src dst h).first_tx_len ≡ earliest (packets_with is_sent h)
  unfolding after feed count_packet new packets_with earliest
  first_tx_lem [] = refl
  first_tx_lem (p ∷ h) = elim (earliest-cases is_sent (λ q e. ground (arith, e)) h) [
    | inl k ↦ ground (arith, k, first_tx_lem h)
    | inr k ↦ ground (arith, k, first_tx_lem h, earliest_cons p (packets_with is_sent h) k)
  ]

  first_rx_lem :
      (h : List Packet) → (after src dst h).first_rx_len ≡ earliest (packets_with is_received h)
  unfolding after feed count_packet new packets_with earliest
  first_rx_lem [] = refl
  first_rx_lem (p ∷ h) = elim (earliest-cases is_received (λ q e. ground (arith, e)) h) [
    | inl k ↦ ground (arith, k, first_rx_lem h)
    | inr k ↦ ground (arith, k, first_rx_lem h, earliest_cons p (packets_with is_received h) k)
  ]

  buckets_lem :
      (h : List Packet)
      → (after src dst h).len_buckets
        ≡ count (λ p. size p == 0) h
          ∷ (count (within 0 64) h
              ∷ (count (within 64 128) h
                  ∷ (count (within 128 256) h
                      ∷ (count (within 256 512) h
                          ∷ (count (within 512 1024) h
                              ∷ (count (within 1024 1200) h
                                  ∷ (count (λ p. ltb 1200 (size p)) h ∷ [])))))))
  unfolding after feed count_packet new packets_with count len_bucket bump_at
  buckets_lem [] = refl
  buckets_lem (p ∷ h) = ground (arith, buckets_lem h)

-- What the counters say of the packets, the latest first.
pub record IsSummary (h : List Packet) (s : Stream) : Type 0 where
  pub packets : s.packet_count ≡ length h
  pub sent : s.tx_packet_count ≡ count (λ p. not p.rev) h
  pub received : s.rx_packet_count ≡ count (λ p. p.rev) h
  pub bytes : s.total_bytes ≡ total h
  pub bytes_sent : s.tx_bytes ≡ total (packets_with (λ p. not p.rev) h)
  pub bytes_received : s.rx_bytes ≡ total (packets_with (λ p. p.rev) h)
  pub first_sent : s.first_tx_len ≡ earliest (packets_with is_sent h)
  pub first_received : s.first_rx_len ≡ earliest (packets_with is_received h)
  pub least : s.min_packet_len ≡ smallest (since_empty h)
  pub greatest : s.max_packet_len ≡ largest h
  pub runs : s.max_run ≡ longest_run h
  pub changes : s.direction_turns ≡ turns h
  pub buckets :
      s.len_buckets
      ≡ count (λ p. size p == 0) h
        ∷ (count (within 0 64) h
            ∷ (count (within 64 128) h
                ∷ (count (within 128 256) h
                    ∷ (count (within 256 512) h
                        ∷ (count (within 512 1024) h
                            ∷ (count (within 1024 1200) h
                                ∷ (count (λ p. ltb 1200 (size p)) h ∷ [])))))))

-- After any packets the counters of a UDP flow are what their names say: the numbers and the bytes of
-- packets sent, received and both, the largest size, the longest run in one direction, the changes of
-- direction, and how many sizes fall into each bucket. The first lengths are those of the first packets
-- that are not empty, and the minimum is taken over the packets after the latest empty one only.
pub after-IsSummary : (src dst : ℕ) (h : List Packet) → IsSummary h (after src dst h)
after-IsSummary src dst h = record {
  packets = packets_lem src dst h;
  sent = tx_lem src dst h;
  received = rx_lem src dst h;
  bytes = bytes_lem src dst h;
  bytes_sent = tx_bytes_lem src dst h;
  bytes_received = rx_bytes_lem src dst h;
  first_sent = first_tx_lem src dst h;
  first_received = first_rx_lem src dst h;
  least = min_lem src dst h;
  greatest = max_lem src dst h;
  runs = max_run_lem src dst h;
  changes = turns_lem src dst h;
  buckets = buckets_lem src dst h;
}
