-- ===== src/Tests/Wireguard.antt =====
-- analyzer/udp/wireguard.go at concrete inputs.
use open_gfw_next.Base.{
  is_some, ℕ, zero, suc, ◌≡◌, refl, Bool, true, false, some, List, [], ◌∷◌, ◌++◌, Bytes, leb,
}
use open_gfw_next.Analyzer.Wireguard.{new, feed, packet_data, uint32_at, uint64_at}
use open_gfw_next.Analyzer.Wireguard.Packets.{is_wireguard}
use open_gfw_next.Analyzer.Wireguard.Streams.{
  feed_all, trailing, answered, feed_gives_up, feed_data,
}

abbrev zeros : ℕ → Bytes
zeros zero = []
zeros (suc n) = 0 ∷ zeros n

-- a handshake initiation with sender index 7, and data for that index
abbrev initiation : Bytes
initiation = 1 ∷ 0 ∷ 0 ∷ 0 ∷ 7 ∷ zeros 143

abbrev data_for_it : Bytes
data_for_it = 4 ∷ 0 ∷ 0 ∷ 0 ∷ 7 ∷ 0 ∷ 0 ∷ 0 ∷ 9 ∷ zeros 23

abbrev junk : List (Bool × Bytes)
junk = (false, 1 ∷ []) ∷ (true, 2 ∷ []) ∷ (false, 3 ∷ []) ∷ []

feed_gives_up_example :
    ((feed (feed_all new junk) true (4 ∷ [])).done
      ≡ leb 4 (trailing 0 (junk ++ (true, 4 ∷ []) ∷ [])))
    × (is_some (feed (feed_all new junk) true (4 ∷ [])).update ≡ is_wireguard (4 ∷ []))
feed_gives_up_example = feed_gives_up junk true (4 ∷ [])

feed_data_example :
    (feed (feed_all new ((false, initiation) ∷ [])) true data_for_it).update
    ≡ some (record {
      replaces = false;
      message =
          packet_data
            (uint32_at data_for_it 4)
            (answered ((false, initiation) ∷ []) true data_for_it)
            (uint64_at data_for_it 8);
    })
feed_data_example =
    feed_data ((false, initiation) ∷ []) true data_for_it (unfold is_wireguard in refl) refl
