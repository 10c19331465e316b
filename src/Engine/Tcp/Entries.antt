-- ===== src/Engine/Tcp/Entries.antt =====
-- The entries of a TCP stream of engine/tcp.go: none is lost between the active and the finished ones.
use open_gfw_next.Base.{
  ◌∙◌, ◌||◌, ℕ, ◌+◌, ◌≡◌, Bool, false, Option, String, List, [], ◌∷◌, ◌++◌, arith, str_eq,
  if◌then◌else◌,
}
use open_gfw_next.Engine.{stream_action, prop_update, Verdict, Action}
use open_gfw_next.Engine.Props.{process_prop_update, CombinedPropMap, PropUpdate}
use open_gfw_next.Engine.Tcp.{
  Stream, Entry, Segment, Loop, feed_entry, feed_round, feed_entries, close_entries,
  close_active_entries, action_to_tcp_verdict, act, match_ruleset, settle, reassembled,
}

-- how many entries of a list are the analyzer's of that name
pub count : {St : Type 0} → String → List (Entry St) → ℕ
count n [] = 0
count n (e ∷ es) = (if str_eq e.name n then 1 else 0) + count n es

count-append :
    {St : Type 0} (n : String) (xs ys : List (Entry St))
    → count n (xs ++ ys) ≡ count n xs + count n ys
unfolding count
count-append n [] ys = omega arith
count-append n (e ∷ xs) ys = omega (arith, count-append n xs ys)

module _ {V St : Type 0} (feed : St → Segment → St × Option (PropUpdate V) × Bool)
    (close : St → Bool → St × Option (PropUpdate V))
    (match_rules : CombinedPropMap V → Action) where
  feed_entry-name :
      (e : Entry St) (seg : Segment) → (feed_entry feed close match_rules e seg).entry.name ≡ e.name
  unfolding feed_entry
  feed_entry-name e seg = ground arith

  feed_round-count :
      (n : String) (e : Entry St) (seg : Segment) (l : Loop V St)
      → let r = feed_round feed close match_rules e seg l in
        count n r.active + count n r.finished
        ≡ count n (e ∷ []) + count n l.active + count n l.finished
  unfolding feed_round count
  feed_round-count n e seg l =
      let f = feed_entry feed close match_rules e seg in
      ground (arith, feed_entry-name e seg, count-append n l.finished (f.entry ∷ []))

  feed_entries-count :
      (n : String) (es : List (Entry St)) (seg : Segment) (props : CombinedPropMap V)
      → (finished : List (Entry St))
      → let l = feed_entries feed close match_rules es seg props finished in
        count n l.active + count n l.finished ≡ count n es + count n finished
  unfolding feed_entries count
  feed_entries-count n [] seg props finished = omega arith
  feed_entries-count n (e ∷ es) seg props finished =
      let l = feed_entries feed close match_rules es seg props finished in
      omega (arith, feed_round-count n e seg l, feed_entries-count n es seg props finished)

  close_entries-count :
      (n : String) (es : List (Entry St)) (props : CombinedPropMap V) (updated : Bool)
      → (finished : List (Entry St))
      → count n (close_entries feed close match_rules es props updated finished).finished
        ≡ count n es + count n finished
  unfolding close_entries count
  close_entries-count n [] props updated finished = omega arith
  close_entries-count n (e ∷ es) props updated finished =
      let (st, u) = close e.stream false in
      let e' : Entry St = record e { stream = st } in
      let (props', up) = process_prop_update props e.name u in
      omega (
        arith,
        close_entries-count n es props' (updated || up) (finished ++ e' ∷ []),
        count-append n finished (e' ∷ []),
      )

  -- the entries of that name, active or finished
  abbrev pub owned : String → Stream V St → ℕ
  owned n s = count n s.active + count n s.finished

  close_active_entries-owned :
      (n : String) (s : Stream V St)
      → owned n (close_active_entries feed close match_rules s) ≡ owned n s
  unfolding close_active_entries count
  close_active_entries-owned n s =
      omega (arith, close_entries-count n s.active s.props false s.finished)

  act-owned :
      (n : String) (s : Stream V St) (verdict : Verdict) (action : Action)
      → owned n (act feed close match_rules s verdict action).0 ≡ owned n s
  unfolding act
  act-owned n s verdict action =
      let acted : Stream V St = record s {
        last_verdict = action_to_tcp_verdict action;
        log = s.log ++ stream_action action false ∷ [];
      } in
      ground (arith, close_active_entries-owned n acted)

  match_ruleset-owned :
      (n : String) (s : Stream V St) (updated : Bool) (verdict : Verdict)
      → owned n (match_ruleset feed close match_rules s updated verdict).0 ≡ owned n s
  unfolding match_ruleset
  match_ruleset-owned n s updated verdict =
      let asked : Stream V St = record s {
        virgin = false;
        log = s.log ++ prop_update false ∷ [];
      } in
      ground (arith, act-owned n asked verdict (match_rules s.props))

  settle-owned :
      (n : String) (p : Stream V St × Verdict)
      → owned n (settle feed close match_rules p).0 ≡ owned n p.0
  unfolding settle
  settle-owned n (s, verdict) = ground arith

  -- A segment moves entries from the active ones to the finished ones, and loses and adds none.
  pub reassembled-owned :
      (n : String) (s : Stream V St) (seg : Segment) (verdict : Verdict)
      → owned n (reassembled feed close match_rules s seg verdict).0 ≡ owned n s
  unfolding reassembled
  reassembled-owned n s seg verdict =
      let l = feed_entries feed close match_rules s.active seg s.props s.finished in
      let fed : Stream V St = record s {
        props = l.props;
        active = l.active;
        finished = l.finished;
      } in
      let asked = match_ruleset feed close match_rules fed l.updated verdict in
      settle-owned n asked
      ∙ match_ruleset-owned n fed l.updated verdict
      ∙ feed_entries-count n s.active seg s.props s.finished
