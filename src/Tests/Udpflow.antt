-- ===== src/Tests/Udpflow.antt =====
-- A UDP flow at concrete inputs.
use open_gfw_next.Base.{◌≡◌, refl, true, false, List, [], ◌∷◌}
use open_gfw_next.Analyzer.Udpflow.{feed, new}
use open_gfw_next.Analyzer.Udpflow.History.{Packet, after}
use open_gfw_next.Analyzer.Udpflow.Summary.{IsSummary, after-IsSummary}

-- three bytes sent, nothing received, and four bytes sent; the latest first
abbrev three : List Packet
three =
    record { rev = false; time = 9; payload = 1 ∷ (2 ∷ (3 ∷ (4 ∷ []))) }
    ∷ (record { rev = true; time = 7; payload = [] }
        ∷ (record { rev = false; time = 5; payload = 1 ∷ (2 ∷ (3 ∷ [])) } ∷ []))

after-IsSummary_example : IsSummary three (after 53 443 three)
after-IsSummary_example = after-IsSummary 53 443 three

-- the minimum forgets the packets up to an empty one
forgotten : (after 53 443 three).min_packet_len ≡ 4
unfolding after feed new
forgotten = refl
