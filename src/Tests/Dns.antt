-- ===== src/Tests/Dns.antt =====
-- DNS streams at concrete inputs.
use open_gfw_next.Base.{
  ℕ, ◌≡◌, refl, true, false, Option, none, some, List, [], ◌∷◌, Bytes, arith, if◌then◌else◌, ltb,
}
use open_gfw_next.Utils.ByteBuffer.{get, append}
use open_gfw_next.Utils.Lsm.{run, run_loop}
use open_gfw_next.Engine.Props.{lookup}
use open_gfw_next.Analyzer.Dns.{rr_map, ResourceRecord, text}
use open_gfw_next.Analyzer.Dns.Stream.{Half, Fed, new, new_half, feed}
use open_gfw_next.Analyzer.Dns.Reads.{at_length, Reads, last_or, is_invalid, Rest}
use open_gfw_next.Analyzer.Dns.Feeds.{HalfAt, Stops, side, new_half-HalfAt, feed-Reads}
use open_gfw_next.Analyzer.Dns.Chunks.{feed_chunks, feed_chunks-framed, framed, Parses}

-- a decoder that knows the messages of one byte below 100
abbrev small : Bytes → Option ℕ
small [] = none
small (x ∷ []) = if ltb x 100 then some x else none
small (x ∷ (y ∷ r)) = none

-- two messages in one segment
feed-Reads_example :
    (ms : List ℕ) × (rest : Rest) × (fed : Fed ℕ) × (feed small new true 0
        (0 ∷ (1 ∷ (7 ∷ (0 ∷ (1 ∷ (8 ∷ []))))))
      ≡ some fed)
    × (Reads small at_length (0 ∷ (1 ∷ (7 ∷ (0 ∷ (1 ∷ (8 ∷ [])))))) ms rest)
    × (fed.update ≡ last_or none ms)
    × (fed.done ≡ is_invalid rest)
    × (Stops rest (side true fed.stream))
    × (side false fed.stream ≡ new_half)
unfolding new
feed-Reads_example =
    feed-Reads small new true at_length [] (0 ∷ (1 ∷ (7 ∷ (0 ∷ (1 ∷ (8 ∷ []))))))
      (new_half-HalfAt new_half refl) refl (ground arith)

-- the first of the two is not reported
abbrev update_of_feed : Option (Fed ℕ) → Option ℕ
update_of_feed none = none
update_of_feed (some fed) = fed.update

two_messages_run :
    update_of_feed (feed small new true 0 (0 ∷ (1 ∷ (7 ∷ (0 ∷ (1 ∷ (8 ∷ []))))))) ≡ some 8
unfolding feed new run run_loop get append
two_messages_run = refl

-- the segments cut a length and a message
feed_chunks-framed_example :
    (h : Half ℕ) × (feed_chunks small new_half
        ((0 ∷ []) ∷ ((1 ∷ (7 ∷ (0 ∷ (1 ∷ [])))) ∷ ((8 ∷ []) ∷ [])))
      ≡ some (h, false))
    × (HalfAt at_length [] h)
    × (h.reader.map ≡ some 8)
unfolding framed Parses
feed_chunks-framed_example =
    feed_chunks-framed small ((7 ∷ []) ∷ ((8 ∷ []) ∷ [])) (7 ∷ (8 ∷ []))
      ((0 ∷ []) ∷ ((1 ∷ (7 ∷ (0 ∷ (1 ∷ [])))) ∷ ((8 ∷ []) ∷ []))) refl (refl, (refl, tt))

-- an address record: its map holds the address under "a"
abbrev answer : ResourceRecord
answer = record {
  name = 97 ∷ [];
  kind = 1;
  class = 1;
  ttl = 60;
  ip = 10 ∷ (0 ∷ (0 ∷ (1 ∷ [])));
  ns = [];
  cname = [];
  ptr = [];
  txts = [];
  mx_name = [];
}

answer_run : lookup "a" (rr_map (λ b. b) answer) ≡ some (text (10 ∷ (0 ∷ (0 ∷ (1 ∷ [])))))
unfolding rr_map lookup
answer_run = refl
