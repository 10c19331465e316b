-- ===== src/Tests/Openvpn.antt =====
-- analyzer/udp/openvpn.go at concrete inputs.
use open_gfw_next.Base.{◌≡◌, true, false, some, List, [], ◌∷◌, Bytes}
use open_gfw_next.Analyzer.Openvpn.{Fed}
use open_gfw_next.Analyzer.Openvpn.Udp
use open_gfw_next.Analyzer.Openvpn.Udp.Handshake.{fresh}
use open_gfw_next.Analyzer.Openvpn.Udp.Refinement.{Packet, feed_all, judge_all, feed_all-judge_all}
use open_gfw_next.Analyzer.Openvpn.Tcp
use open_gfw_next.Analyzer.Openvpn.Tcp.{Buffers, parse_buffer}
use open_gfw_next.Analyzer.Openvpn.Tcp.Frames.{HasSteps-new, feed_total}
use open_gfw_next.Analyzer.Openvpn.Total.{HasSteps}

-- client reset, server reset, and one data packet each way
abbrev session : List Packet
session = (false, 56, []) ∷ (true, 64, []) ∷ (false, 32, 1 ∷ []) ∷ (true, 72, []) ∷ []

feed_all-judge_all_example : feed_all Udp.new session ≡ some (judge_all fresh session)
feed_all-judge_all_example = feed_all-judge_all session

abbrev body : Bytes
body = 1 ∷ 2 ∷ 3 ∷ 4 ∷ 5 ∷ []

feed_total_example :
    (r : Fed Buffers) × (Tcp.feed Tcp.new false 0 (0 ∷ 6 ∷ 56 ∷ []) ≡ some r) × HasSteps r.stream
feed_total_example = feed_total Tcp.new false 0 (0 ∷ 6 ∷ 56 ∷ []) HasSteps-new
