-- ===== src/Analyzer/Dns/Feeds.antt =====
-- analyzer/udp/dns.go: the TCP stream over the segments of a connection.
use open_gfw_next.Base.{
  not, ◌≤◌, ◌<◌, ◌≡◌, refl, ap, ◌∙◌, Bool, true, false, Option, none, some, List, [], ◌∷◌, ◌++◌,
  Bytes, arith, if◌then◌else◌, length,
}
use open_gfw_next.Utils.ByteBuffer.{append}
use open_gfw_next.Utils.Lsm.{run, Ran}
use open_gfw_next.Analyzer.Dns.Stream.{
  Reader, Step, Half, Stream, Fed, new_half, fuel, exec, feed_half, feed, conclude,
}
use open_gfw_next.Analyzer.Dns.Reads.{
  Position, at_length, at_message, Rest, waiting, invalid, IsShort, Reads, KnowsLength, StandsAt,
  Leaves, last_or, is_cons, is_invalid, machine, run_loop-Reads, RunReads, phase,
}

module _ {M : Type 0} where
  abbrev pub side : Bool → Stream M → Half M
  side true s = s.resp
  side false s = s.req

  -- the direction waits at `p`, with the bytes that do not suffice in its buffer
  unfoldable pub HalfAt : Position → Bytes → Half M → Type 0
  HalfAt p bytes h =
      (h.lsm ≡ machine p) × (h.reader.buf.buf ≡ bytes) × (KnowsLength p h.reader) × IsShort p bytes

  unfoldable pub Stops : Rest → Half M → Type 0
  Stops (waiting p bytes) h = (HalfAt p bytes h) × (h.done ≡ false)
  Stops invalid h = h.done ≡ true

  pub new_half-HalfAt : (h : Half M) → h ≡ new_half → HalfAt at_length [] h
  unfolding HalfAt IsShort KnowsLength
  new_half-HalfAt h e = rw e (refl, refl, tt, omega arith)

  update_of :
      (o : Option M) (u : Bool) (ms : List M)
      → u ≡ is_cons ms
      → (if u then last_or o ms else none) ≡ last_or none ms
  update_of o u [] e = ground (arith, e)
  update_of o u (m ∷ ms) e = ground (arith, e)

module _ {M : Type 0} (parse : Bytes → Option M) where
  phase_bound : (p : Position) → phase p < 2
  phase_bound at_length = omega arith
  phase_bound (at_message n) = omega arith

  run-Reads :
      (p : Position) (s : Reader M)
      → KnowsLength p s
      → (ms : List M) × (rest : Rest) × (r : Ran Step (Reader M)) × (run
            (exec parse)
            (fuel parse s)
            (machine p)
            s
          ≡ some r)
        × (Reads parse p s.buf.buf ms rest)
        × Leaves parse s ms rest r
  unfolding run RunReads
  run-Reads at_length s k = run_loop-Reads parse (fuel parse s) at_length s k (omega arith)
  run-Reads (at_message n) s k =
      run_loop-Reads parse (fuel parse s) (at_message n) s k (omega arith)

  arrived-KnowsLength :
      (s : Reader M) (p : Position) (more : Bytes)
      → KnowsLength p s
      → KnowsLength p (record s { buf = append s.buf more; updated = false })
  unfolding KnowsLength
  arrived-KnowsLength s at_length more k = k
  arrived-KnowsLength s (at_message n) more k = k

  unfoldable pub HalfReads :
      Position → Bytes → Option M → Option (Half M × Option M × Bool) → Type 0
  HalfReads p bytes old o =
      (ms : List M) × (rest : Rest) × (h : Half M) × (o
        ≡ some (h, last_or none ms, is_invalid rest))
      × (Reads parse p bytes ms rest)
      × (Stops rest h)
      × (h.reader.map ≡ last_or old ms)

  Stops-StandsAt :
      (rest : Rest) (r : Ran Step (Reader M))
      → StandsAt rest r
      → r.done ≡ is_invalid rest
      → Stops rest
          (record { reader = record (r.state) { updated = false }; lsm = r.machine; done = r.done })
  unfolding StandsAt Stops HalfAt KnowsLength
  Stops-StandsAt (waiting at_length bytes) r (m, b, k, short) d = ((m, b, k, short), d)
  Stops-StandsAt (waiting (at_message n) bytes) r (m, b, k, short) d = ((m, b, k, short), d)
  Stops-StandsAt invalid r s d = d

  concludes :
      (r : Ran Step (Reader M)) (ms : List M) (rest : Rest) (old : Option M)
      → r.cancelled ≡ is_invalid rest
      → r.state.map ≡ last_or old ms
      → r.state.updated ≡ is_cons ms
      → conclude parse (some r)
        ≡ some (
          record { reader = record (r.state) { updated = false }; lsm = r.machine; done = r.done },
          last_or none ms,
          is_invalid rest,
        )
  unfolding conclude
  concludes r ms rest old c last u = ground (arith, c, last, u, update_of old (is_cons ms) ms refl)

  pub feed_half-Reads :
      (h : Half M) (p : Position) (bytes more : Bytes)
      → HalfAt p bytes h
      → HalfReads p (bytes ++ more) h.reader.map (feed_half parse h more)
  unfolding HalfReads feed_half HalfAt Leaves append
  feed_half-Reads h p bytes more (m, b, k, short) =
      let s : Reader M = record (h.reader) { buf = append h.reader.buf more; updated = false } in
      let (ms, rest, r, runs, reads, (c, d, last, u, stands)) =
        run-Reads p s (arrived-KnowsLength h.reader p more k) in
      (
        ms,
        rest,
        record { reader = record (r.state) { updated = false }; lsm = r.machine; done = r.done },
        rw m (ap (conclude parse) runs ∙ concludes r ms rest h.reader.map c last u),
        rw (← b) reads,
        Stops-StandsAt rest r stands d,
        last,
      )

  -- `Feed` with some bytes reads, in its direction, the bytes that were left and the new ones by the
  -- framing of DNS over TCP. It reports the last message that this completes, none if there is none,
  -- and is done exactly when it meets an invalid message. Otherwise the direction waits with what is
  -- left; the other direction, which has not ended, keeps its state.
  pub feed-Reads :
      (s : Stream M) (rev : Bool) (p : Position) (bytes more : Bytes)
      → HalfAt p bytes (side rev s)
      → (side (not rev) s).done ≡ false
      → 1 ≤ length more
      → (ms : List M) × (rest : Rest) × (fed : Fed M) × (feed parse s rev 0 more ≡ some fed)
        × (Reads parse p (bytes ++ more) ms rest)
        × (fed.update ≡ last_or none ms)
        × (fed.done ≡ is_invalid rest)
        × (Stops rest (side rev fed.stream))
        × (side (not rev) fed.stream ≡ side (not rev) s)
  unfolding feed HalfReads
  feed-Reads s true p bytes more at d some_bytes =
      let (ms, rest, h, e, reads, stops, map) = feed_half-Reads s.resp p bytes more at in
      (
        ms,
        rest,
        record { stream = record s { resp = h }; update = last_or none ms; done = is_invalid rest },
        ground (arith, e, d),
        reads,
        refl,
        refl,
        stops,
        refl,
      )
  feed-Reads s false p bytes more at d some_bytes =
      let (ms, rest, h, e, reads, stops, map) = feed_half-Reads s.req p bytes more at in
      (
        ms,
        rest,
        record { stream = record s { req = h }; update = last_or none ms; done = is_invalid rest },
        ground (arith, e, d),
        reads,
        refl,
        refl,
        stops,
        refl,
      )
