-- ===== src/Analyzer/Dns/Chunks.antt =====
-- analyzer/udp/dns.go: the segments of one direction of a TCP stream, however the messages fall on them.
use open_gfw_next.Base.{
  concat, drop-append_all, take-append_all, ℕ, ◌+◌, ◌*◌, ◌/◌, ◌%◌, ◌≡◌, refl, ap, subst, ◌∙◌, Bool,
  true, false, Option, none, some, List, [], ◌∷◌, ◌++◌, Bytes, arith, length, drop, take-append_le,
  drop-append_le, length-append, append_assoc, append-nil, if◌then◌else◌,
}
use open_gfw_next.Analyzer.Dns.Stream.{Half, new_half, feed_half}
use open_gfw_next.Analyzer.Dns.Reads.{
  IsShort, Position, at_length, at_message, Rest, waiting, invalid, Reads, no_length, read_length,
  no_message, bad_message, read_message, last_or, is_invalid,
}
use open_gfw_next.Analyzer.Dns.Feeds.{HalfAt, Stops, new_half-HalfAt, feed_half-Reads, HalfReads}

-- the message behind its length in two bytes; the length of a message is below 65536
unfoldable pub framed : List Bytes → Bytes
framed [] = []
framed (b ∷ bs) = length b / 256 ∷ (length b % 256 ∷ (b ++ framed bs))

div_mod : (n : ℕ) → n / 256 * 256 + n % 256 ≡ n
div_mod n = omega arith

module _ {M : Type 0} (parse : Bytes → Option M) where
  -- one direction fed with its segments, until it is cancelled
  unfoldable pub feed_chunks : Half M → List Bytes → Option (Half M × Bool)
  feed_chunks h [] = some (h, false)
  feed_chunks h (c ∷ cs) = elim (feed_half parse h c) [
    | none ↦ none
    | some (h', u, cancelled) ↦
        let onward = feed_chunks h' cs in if cancelled then some (h', true) else onward
  ]

  Reads-append :
      (p q : Position) (b c more : Bytes) (ms ms' : List M) (rest : Rest)
      → Reads parse p b ms (waiting q c)
      → Reads parse q (c ++ more) ms' rest
      → Reads parse p (b ++ more) (ms ++ ms') rest
  Reads-append p q b c more ms ms' rest (no_length _ short) onward = onward
  Reads-append p q b c more ms ms' rest (read_length x y bytes _ _ r) onward =
      read_length x y (bytes ++ more) (ms ++ ms') rest
        (Reads-append _ q bytes c more ms ms' rest r onward)
  Reads-append p q b c more ms ms' rest (no_message n _ short) onward = onward
  Reads-append p q b c more _ ms' rest (read_message n _ m ms _ h e r) onward =
      let further = Reads-append at_length q (drop n b) c more ms ms' rest r onward in
      read_message n (b ++ more) m (ms ++ ms') rest (ground (arith, length-append b more))
        (rw (take-append_le n b more h) e) (rw (drop-append_le n b more h) further)

  Reads-invalid :
      (p : Position) (b more : Bytes) (ms : List M)
      → Reads parse p b ms invalid
      → Reads parse p (b ++ more) ms invalid
  Reads-invalid p b more ms (read_length x y bytes _ _ r) =
      read_length x y (bytes ++ more) ms invalid (Reads-invalid _ bytes more ms r)
  Reads-invalid p b more ms (bad_message n _ h e) =
      bad_message n (b ++ more) (ground (arith, length-append b more))
        (rw (take-append_le n b more h) e)
  Reads-invalid p b more _ (read_message n _ m ms _ h e r) =
      let further = Reads-invalid at_length (drop n b) more ms r in
      read_message n (b ++ more) m ms invalid (ground (arith, length-append b more))
        (rw (take-append_le n b more h) e) (rw (drop-append_le n b more h) further)

  pub ChunksRead : Position → Bytes → Option M → Option (Half M × Bool) → Type 0
  ChunksRead p bytes old o =
      (ms : List M) × (rest : Rest) × (h : Half M) × (o ≡ some (h, is_invalid rest))
      × (Reads parse p bytes ms rest)
      × (Stops rest h)
      × (h.reader.map ≡ last_or old ms)

  last_or-append :
      (o : Option M) (xs ys : List M) → last_or (last_or o xs) ys ≡ last_or o (xs ++ ys)
  last_or-append o [] ys = refl
  last_or-append o (x ∷ xs) ys = last_or-append (some x) xs ys

  after_first :
      (h : Half M) (c : Bytes) (cs : List Bytes) (old : Option M) (b : Bytes) (p : Position)
      (ms : List M) (rest : Rest) (h' : Half M)
      → feed_half parse h c ≡ some (h', last_or none ms, is_invalid rest)
      → Reads parse p (b ++ c) ms rest
      → Stops rest h'
      → h'.reader.map ≡ last_or old ms
      → ((q : Position) (d : Bytes)
          → HalfAt q d h'
          → h'.done ≡ false
          → ChunksRead q (d ++ concat cs) h'.reader.map (feed_chunks h' cs))
      → ChunksRead p (b ++ concat (c ∷ cs)) old (feed_chunks h (c ∷ cs))
  unfolding ChunksRead feed_chunks Stops
  after_first h c cs old b p ms (waiting q d) h' e r (at, done) m onward =
      let (ms', rest, h'', e', r', stops, m') = onward q d at done in
      (
        ms ++ ms',
        rest,
        h'',
        ground (arith, e, e'),
        rw (← append_assoc b c (concat cs))
            (Reads-append p q (b ++ c) d (concat cs) ms ms' rest r r'),
        stops,
        m' ∙ ap (λ o. last_or o ms') m ∙ last_or-append old ms ms',
      )
  after_first h c cs old b p ms invalid h' e r stops m onward = (
    ms,
    invalid,
    h',
    ground (arith, e),
    rw (← append_assoc b c (concat cs)) (Reads-invalid p (b ++ c) (concat cs) ms r),
    stops,
    m,
  )

  waits : (p : Position) (b : Bytes) (h : Half M) → HalfAt p b h → Reads parse p b [] (waiting p b)
  unfolding HalfAt IsShort
  waits at_length b h (m, e, k, short) = no_length b short
  waits (at_message n) b h (m, e, k, short) = no_message n b short

  pub feed_chunks-Reads :
      (cs : List Bytes) (h : Half M) (p : Position) (b : Bytes)
      → HalfAt p b h
      → h.done ≡ false
      → ChunksRead p (b ++ concat cs) h.reader.map (feed_chunks h cs)
  unfolding ChunksRead feed_chunks Stops HalfReads
  feed_chunks-Reads [] h p b at d =
      ([], waiting p b, h, refl, rw (append-nil b) (waits p b h at), (at, d), refl)
  feed_chunks-Reads (c ∷ cs) h p b at d =
      let (ms, rest, h', e, r, stops, m) = feed_half-Reads parse h p b c at in
      after_first h c cs h.reader.map b p ms rest h' e r stops m
        (λ q d. feed_chunks-Reads cs h' q d)

  -- a list of messages that all parse, and their maps
  unfoldable pub Parses : List Bytes → List M → Type 0
  Parses [] [] = Unit
  Parses (b ∷ bs) (m ∷ ms) = (parse b ≡ some m) × Parses bs ms
  Parses [] (m ∷ ms) = ⊥
  Parses (b ∷ bs) [] = ⊥

  Reads-framed :
      (bs : List Bytes) (ms : List M)
      → Parses bs ms
      → Reads parse at_length (framed bs) ms (waiting at_length [])
  unfolding Parses framed
  Reads-framed [] [] h = no_length [] (omega arith)
  Reads-framed [] (m ∷ ms) h = elim h [ ]
  Reads-framed (b ∷ bs) [] h = elim h [ ]
  Reads-framed (b ∷ bs) (m ∷ ms) (e, h) = read_length _ _ _ (m ∷ ms) (waiting at_length []) (
      rw (div_mod (length b)) (
        read_message (length b) (b ++ framed bs) m ms (waiting at_length [])
          (ground (arith, length-append b (framed bs))) (rw (take-append_all b (framed bs)) e)
          (rw (drop-append_all b (framed bs)) (Reads-framed bs ms h))))

  Reads-unique :
      (p : Position) (b : Bytes) (ms ms' : List M) (rest rest' : Rest)
      → Reads parse p b ms rest
      → Reads parse p b ms' rest'
      → (ms ≡ ms') × (rest ≡ rest')
  Reads-unique p b ms ms' rest rest' (no_length _ short) (no_length _ short') = (refl, refl)
  Reads-unique p b ms ms' rest rest' (no_length _ short) (read_length x y b' _ _ r) =
      absurd (omega arith)
  Reads-unique p b ms ms' rest rest' (read_length x y b' _ _ r) (no_length _ short) =
      absurd (omega arith)
  Reads-unique p b ms ms' rest rest' (read_length x y b' _ _ r) (read_length _ _ _ _ _ r') =
      Reads-unique _ b' ms ms' rest rest' r r'
  Reads-unique p b ms ms' rest rest' (no_message n _ short) (no_message _ _ short') = (refl, refl)
  Reads-unique p b ms ms' rest rest' (no_message n _ short) (bad_message _ _ h e) =
      absurd (omega arith)
  Reads-unique p b ms ms' rest rest' (no_message n _ short) (read_message _ _ m k _ h e r) =
      absurd (omega arith)
  Reads-unique p b ms ms' rest rest' (bad_message n _ h e) (no_message _ _ short) =
      absurd (omega arith)
  Reads-unique p b ms ms' rest rest' (bad_message n _ h e) (bad_message _ _ h' e') = (refl, refl)
  Reads-unique p b ms ms' rest rest' (bad_message n _ h e) (read_message _ _ m k _ h' e' r) = cc
  Reads-unique p b ms ms' rest rest' (read_message n _ m k _ h e r) (no_message _ _ short) =
      absurd (omega arith)
  Reads-unique p b ms ms' rest rest' (read_message n _ m k _ h e r) (bad_message _ _ h' e') = cc
  Reads-unique p b ms ms' rest rest' (read_message n _ m k _ h e r)
        (read_message _ _ m' k' _ h' e' r') =
      let (same, ends) = Reads-unique at_length (drop n b) k k' rest rest' r r' in (cc, ends)

  -- A direction of a new stream whose segments, however they are cut, make up a list of messages, each
  -- behind its length and each one that parses: the feeds return, none is cancelled, and at the end
  -- nothing is left in the buffer, a length is awaited and the map is that of the last message.
  pub feed_chunks-framed :
      (bs : List Bytes) (ms : List M) (cs : List Bytes)
      → concat cs ≡ framed bs
      → Parses bs ms
      → (h : Half M) × (feed_chunks new_half cs ≡ some (h, false))
        × (HalfAt at_length [] h)
        × (h.reader.map ≡ last_or none ms)
  unfolding ChunksRead Stops
  feed_chunks-framed bs ms cs same parses =
      let (ms', rest, h, e, r, stops, m) =
        feed_chunks-Reads cs new_half at_length [] (new_half-HalfAt new_half refl) refl in
      let (these, ends) =
        Reads-unique at_length (framed bs) ms' ms rest (waiting at_length []) (rw (← same) r)
          (Reads-framed bs ms parses) in
      (
        h,
        e ∙ ap (λ x. some (h, is_invalid x)) ends,
        (subst (λ x. Stops x h) ends stops).0,
        m ∙ ap (last_or none) these,
      )
