-- ===== src/Analyzer/Dns/Udp.antt =====
-- analyzer/udp/dns.go: a UDP stream over a sequence of packets.
use open_gfw_next.Base.{
  ℕ, suc, ◌≡◌, refl, Bool, true, false, Option, none, some, List, [], ◌∷◌, ◌++◌, Bytes, arith, leb,
  if◌then◌else◌, Option-cases, inl, inr,
}
use open_gfw_next.Engine.Props.{PropMap}
use open_gfw_next.Analyzer.Dns.{Value, UdpStream, feed}

-- NewUDP
unfoldable pub new : UdpStream
new = record { invalid_count = 0 }

abbrev pub is_dns : Option (PropMap Value) → Bool
is_dns none = false
is_dns (some m) = true

module _ (parse : Bytes → Option (PropMap Value)) where
  pub feed_all : UdpStream → List Bytes → UdpStream
  feed_all s [] = s
  feed_all s (b ∷ bs) = feed_all (feed parse s b).stream bs

  -- the packets at the end of the list that are not DNS messages, `n` before the list
  pub trailing : ℕ → List Bytes → ℕ
  trailing n [] = n
  trailing n (b ∷ bs) = trailing (if is_dns (parse b) then 0 else suc n) bs

  feed-count :
      (s : UdpStream) (b : Bytes)
      → ((feed parse s b).stream.invalid_count
          ≡ (if is_dns (parse b) then 0 else suc s.invalid_count))
        × ((feed parse s b).done ≡ leb 4 (if is_dns (parse b) then 0 else suc s.invalid_count))
        × ((feed parse s b).update ≡ parse b)
  unfolding feed
  feed-count s b = elim (Option-cases (parse b)) [
    | inl e ↦ ground (arith, e)
    | inr (m, e) ↦ ground (arith, e)
  ]

  feed_all-count :
      (bs : List Bytes) (s : UdpStream)
      → (feed_all s bs).invalid_count ≡ trailing s.invalid_count bs
  unfolding feed_all trailing
  feed_all-count [] s = refl
  feed_all-count (b ∷ bs) s = rw (← (feed-count s b).0) (feed_all-count bs (feed parse s b).stream)

  trailing-append :
      (bs : List Bytes) (n : ℕ) (b : Bytes)
      → trailing n (bs ++ b ∷ []) ≡ (if is_dns (parse b) then 0 else suc (trailing n bs))
  unfolding trailing
  trailing-append [] n b = refl
  trailing-append (c ∷ bs) n b = trailing-append bs (if is_dns (parse c) then 0 else suc n) b

  -- After any packets, `Feed` reports the map of a packet that is a DNS message and nothing for another
  -- one, and gives the stream up exactly when the last four packets or more are no DNS messages.
  pub feed_gives_up_udp :
      (bs : List Bytes) (b : Bytes)
      → ((feed parse (feed_all new bs) b).update ≡ parse b)
        × ((feed parse (feed_all new bs) b).done ≡ leb 4 (trailing 0 (bs ++ b ∷ [])))
  unfolding new
  feed_gives_up_udp bs b =
      let (count, done, update) = feed-count (feed_all new bs) b in
      (update, ground (arith, done, feed_all-count bs new, trailing-append bs 0 b))
