-- ===== src/Tests/Engine.antt =====
-- The engine at concrete inputs, with analyzers whose streams count the segments that they are fed.
use open_gfw_next.Base.{
  List, ℕ, ◌+◌, ◌≤◌, ◌≡◌, ◌↔◌, refl, Bool, true, false, Option, none, some, [], ◌∷◌, ◌++◌, Bytes,
  map, leb, length, str_eq, if◌then◌else◌,
}
use open_gfw_next.Engine.{
  accept, accept_stream, drop_packet, drop_stream, Action, block, drop_action,
}
use open_gfw_next.Engine.Props.{lookup, CombinedPropMap, PropUpdate, merge, process_prop_update}
use open_gfw_next.Engine.Props.Laws.{prop, changed, process_prop_update-prop}
use open_gfw_next.Engine.Tcp
use open_gfw_next.Engine.Tcp.{Entry, Segment, is_nil, feed_entries}
use open_gfw_next.Engine.Tcp.Verdicts.{
  Call, accept_call, reassembled_call, complete_call, answers, decision, calls, due,
  reassembled_decides, reassembled_drops, calls_decided,
}
use open_gfw_next.Engine.Tcp.Entries.{owned, reassembled-owned}
use open_gfw_next.Engine.Tcp.Quota.{data_of, feed_to, feed_to_bounded}
use open_gfw_next.Engine.Udp
use open_gfw_next.Engine.Udp.{Context, MatchResult}
use open_gfw_next.Engine.Udp.Verdicts.{
  fresh, packet, packets, Agrees, told, looped, verdict_repeats, feed_stream-told,
}

abbrev update : PropUpdate ℕ
update = record { kind = merge; m = ("n", 1) ∷ [] }

process_prop_update-prop_example : prop (process_prop_update [] "dns" (some update)).0 "dns" "n" ≡ (
    if str_eq "dns" "dns" then changed (some update) "n" (prop [] "dns" "n") else prop [] "dns" "n")
process_prop_update-prop_example = process_prop_update-prop [] "dns" "dns" "n" (some update)

-- done with the second segment
abbrev feed : ℕ → Segment → ℕ × Option (PropUpdate ℕ) × Bool
feed n seg = (n + 1, some update, leb 1 n)

abbrev close : ℕ → Bool → ℕ × Option (PropUpdate ℕ)
close n limited = (n, none)

abbrev blocks : CombinedPropMap ℕ → Action
blocks props = block

abbrev counter : Entry ℕ
counter = record { name = "dns"; stream = 0; has_limit = true; quota = 3 }

abbrev seg : Segment
seg = record { rev = false; start = true; end = false; skip = 0; payload = 1 ∷ 2 ∷ [] }

abbrev stream : Tcp.Stream ℕ ℕ
stream = Tcp.new_stream (counter ∷ [])

reassembled_decides_example :
    let (s', verdict) = Tcp.reassembled feed close blocks stream seg accept in
    ((verdict ≡ accept) ↔ (is_nil s'.active ≡ false))
    × (is_nil s'.active ≡ true → s'.last_verdict ≡ verdict)
reassembled_decides_example = reassembled_decides feed close blocks stream seg

reassembled_drops_example :
    ((Tcp.reassembled feed close blocks stream seg accept).1 ≡ drop_stream)
    ↔ (due feed close blocks stream seg ≡ true)
reassembled_drops_example = reassembled_drops feed close blocks stream seg

reassembled-owned_example :
    owned feed close blocks "dns" (Tcp.reassembled feed close blocks stream seg accept).0
    ≡ owned feed close blocks "dns" stream
reassembled-owned_example = reassembled-owned feed close blocks "dns" stream seg accept

blocked : (Tcp.reassembled feed close blocks stream seg accept).1 ≡ drop_stream
unfolding Tcp.reassembled Tcp.feed_entries Tcp.feed_round Tcp.feed_entry Tcp.within_quota Tcp.settle
    Tcp.match_ruleset Tcp.act Tcp.close_active_entries Tcp.close_entries Tcp.action_to_tcp_verdict
    process_prop_update lookup
blocked = refl

-- a retransmission, the flush of a buffered segment, another packet, and the end of the stream
abbrev later : List Call
later =
    accept_call accept ∷ (reassembled_call seg accept ∷ (accept_call accept ∷ (complete_call ∷ [])))

-- the packet after the flush is let through, although the stream had been dropped
reopened :
    answers drop_stream later
    ≡ some drop_stream ∷ (some accept_stream ∷ (some accept_stream ∷ (none ∷ [])))
unfolding answers
reopened = refl

calls_decided_example :
    let (s', v) = Tcp.reassembled feed close blocks stream seg accept in
    let (last, told) = calls feed close blocks s' later in
    (told ≡ answers v later)
    × (is_nil last.active ≡ true)
    × (last.finished ≡ s'.finished)
    × (last.props ≡ s'.props)
    × (last.last_verdict ≡ decision v later)
calls_decided_example = calls_decided feed close blocks stream seg later (rw blocked (λ e. cc))

abbrev recorded : Entry (ℕ × Bytes)
recorded = record { name = "dns"; stream = (0, []); has_limit = true; quota = 3 }

feed_to_bounded_example :
    (length (feed_to feed close blocks recorded (seg ∷ seg ∷ [])).stream.1 ≤ 3)
    × ((rest : Bytes) × ((feed_to feed close blocks recorded (seg ∷ seg ∷ [])).stream.1 ++ rest
          ≡ data_of (seg ∷ seg ∷ [])))
feed_to_bounded_example = feed_to_bounded feed close blocks (seg ∷ seg ∷ []) recorded refl refl

-- for UDP: done with the first packet, which the ruleset drops
abbrev feed_once : ℕ → Bool → Bytes → ℕ × Option (PropUpdate ℕ) × Bool
feed_once n rev payload = (n + 1, some update, true)

abbrev drops : CombinedPropMap ℕ → MatchResult
drops props = record { action = drop_action; mod_instance = none }

abbrev udp_stream : Udp.Stream ℕ ℕ
udp_stream = Udp.new_stream (counter ∷ [])

abbrev query : Bool × Bytes
query = (false, 1 ∷ [])

dropped :
    (is_nil (packet feed_once close drops udp_stream query).0.active ≡ true)
    × ((packet feed_once close drops udp_stream query).1.verdict ≡ drop_packet)
unfolding packet Udp.accepts Udp.feed_stream Udp.feed_entries Udp.feed_round Udp.feed_entry
    Udp.settle Udp.match_ruleset Udp.run_modifier Udp.act Udp.close_active_entries Udp.close_entries
    Udp.action_to_udp_verdict process_prop_update lookup
dropped = (refl, refl)

verdict_repeats_example :
    packets feed_once close drops (packet feed_once close drops udp_stream query).0 (query ∷ []) ≡ (
      (packet feed_once close drops udp_stream query).0,
      map
          (λ _. record {
            verdict = (packet feed_once close drops udp_stream query).1.verdict;
            packet = none;
          })
          (query ∷ []),
    )
verdict_repeats_example =
    verdict_repeats feed_once close drops udp_stream query (query ∷ []) dropped.0

feed_stream-told_example :
    Agrees feed_once close drops
      (told feed_once close drops udp_stream query)
      (is_nil (looped feed_once close drops udp_stream query).active)
      (Udp.feed_stream feed_once close drops udp_stream false (1 ∷ []) fresh).1
feed_stream-told_example = feed_stream-told feed_once close drops udp_stream query
