-- ===== src/Analyzer/Dns/Reads.antt =====
-- analyzer/udp/dns.go: what a direction of a TCP stream makes of its bytes, by the framing of DNS over
-- TCP: each message stands behind its length in two bytes.
use open_gfw_next.Base.{
  ℕ, zero, suc, ◌+◌, ◌*◌, ◌≤◌, ◌<◌, ◌≡◌, refl, sym, ap, ◌∙◌, ◌⊎◌, inl, inr, Bool, true, false, ◌||◌,
  Option, none, some, List, [], ◌∷◌, Bytes, arith, ltb, lt→ltb, ltb→lt, Bool-cases, Option-cases,
  length, take, drop, length-drop,
}
use open_gfw_next.Utils.ByteBuffer.{get}
use open_gfw_next.Utils.Lsm.{Lsm, Ran, run_loop}
use open_gfw_next.Analyzer.Dns.Stream.{
  Step, Reader, steps_at, get_message_length, get_message, exec,
}

-- what the direction waits for: a length, or a message of a length
pub data Position : Type 0 where
  at_length : Position
  at_message : ℕ → Position

-- how the reading of some bytes ends: with bytes that do not suffice, or at an invalid message
pub data Rest : Type 0 where
  waiting : Position → Bytes → Rest
  invalid : Rest

unfoldable pub IsShort : Position → Bytes → Type 0
IsShort at_length bytes = length bytes < 2
IsShort (at_message n) bytes = length bytes < n

abbrev pub last_or {ℓ} : {A : Type ℓ} → Option A → List A → Option A
last_or o [] = o
last_or o (x ∷ xs) = last_or (some x) xs

abbrev pub is_cons {ℓ} : {A : Type ℓ} → List A → Bool
is_cons [] = false
is_cons (x ∷ xs) = true

abbrev pub is_invalid : Rest → Bool
is_invalid (waiting p bytes) = false
is_invalid invalid = true

module _ {M : Type 0} (parse : Bytes → Option M) where
  -- the framing: from a position, the bytes hold these messages and then the rest
  pub data Reads : Position → Bytes → List M → Rest → Type 0 where
    no_length :
        (bytes : Bytes) → length bytes < 2 → Reads at_length bytes [] (waiting at_length bytes)
    read_length :
        (x y : ℕ) (bytes : Bytes) (ms : List M) (rest : Rest)
        → Reads (at_message (x * 256 + y)) bytes ms rest
        → Reads at_length (x ∷ (y ∷ bytes)) ms rest
    no_message :
        (n : ℕ) (bytes : Bytes)
        → length bytes < n
        → Reads (at_message n) bytes [] (waiting (at_message n) bytes)
    bad_message :
        (n : ℕ) (bytes : Bytes)
        → n ≤ length bytes
        → parse (take n bytes) ≡ none
        → Reads (at_message n) bytes [] invalid
    read_message :
        (n : ℕ) (bytes : Bytes) (m : M) (ms : List M) (rest : Rest)
        → n ≤ length bytes
        → parse (take n bytes) ≡ some m
        → Reads at_length (drop n bytes) ms rest
        → Reads (at_message n) bytes (m ∷ ms) rest

or-false : (b : Bool) → b ≡ (b || false)
or-false true = refl
or-false false = refl

or-true : (b : Bool) → (b || true) ≡ true
or-true true = refl
or-true false = refl

two_bytes :
    (b : Bytes) → (length b < 2) ⊎ ((x : ℕ) × (y : ℕ) × (rest : Bytes) × (b ≡ x ∷ (y ∷ rest)))
two_bytes [] = inl (omega arith)
two_bytes (x ∷ []) = inl (omega arith)
two_bytes (x ∷ (y ∷ rest)) = inr (x, y, rest, refl)

abbrev pub machine : Position → Lsm Step
machine at_length = steps_at 0
machine (at_message n) = steps_at 1

-- the field `msgLen` counts only where a message is waited for
unfoldable pub KnowsLength : {M : Type 0} → Position → Reader M → Type 0
KnowsLength at_length s = Unit
KnowsLength (at_message n) s = s.msg_len ≡ n

unfoldable pub StandsAt : {M : Type 0} → Rest → Ran Step (Reader M) → Type 0
StandsAt (waiting p bytes) r =
    (r.machine ≡ machine p) × (r.state.buf.buf ≡ bytes) × (KnowsLength p r.state) × IsShort p bytes
StandsAt invalid r = Unit

abbrev pub phase : Position → ℕ
phase at_length = 0
phase (at_message n) = 1

module _ {M : Type 0} (parse : Bytes → Option M) where
  -- what `Run` leaves after it has read the messages `ms` and ended at `rest`
  unfoldable pub Leaves : Reader M → List M → Rest → Ran Step (Reader M) → Type 0
  Leaves s ms rest r =
      (r.cancelled ≡ is_invalid rest)
      × (r.done ≡ is_invalid rest)
      × (r.state.map ≡ last_or s.map ms)
      × (r.state.updated ≡ (s.updated || is_cons ms))
      × StandsAt rest r

  abbrev loop : ℕ → Position → Reader M → Option (Ran Step (Reader M))
  loop fuel p s = run_loop (exec parse) fuel (machine p) s

  abbrev stopped : Position → Reader M → Option (Ran Step (Reader M))
  stopped p s = some (record { machine = machine p; state = s; cancelled = false; done = false })

  loop-no_length :
      (fuel : ℕ) (s : Reader M)
      → length s.buf.buf < 2
      → loop (suc fuel) at_length s ≡ stopped at_length s
  unfolding run_loop exec get_message_length get
  loop-no_length fuel s h = ground (arith, lt→ltb _ _ h)

  loop-read_length :
      (fuel : ℕ) (x y : ℕ) (bytes : Bytes) (s : Reader M)
      → s.buf.buf ≡ x ∷ (y ∷ bytes)
      → loop (suc fuel) at_length s
        ≡ loop fuel
            (at_message (x * 256 + y))
            (record s { buf = record { buf = bytes }; msg_len = x * 256 + y })
  unfolding run_loop exec get_message_length get
  loop-read_length fuel x y bytes s e = ground (arith, e)

  loop-no_message :
      (fuel n : ℕ) (s : Reader M)
      → s.msg_len ≡ n
      → length s.buf.buf < n
      → loop (suc fuel) (at_message n) s ≡ stopped (at_message n) s
  unfolding run_loop exec get_message get
  loop-no_message fuel n s k h = ground (arith, k, lt→ltb _ _ h)

  loop-message :
      (fuel n : ℕ) (s : Reader M) (m : M)
      → s.msg_len ≡ n
      → n ≤ length s.buf.buf
      → parse (take n s.buf.buf) ≡ some m
      → loop (suc fuel) (at_message n) s
        ≡ loop fuel at_length
            (record s { buf = record { buf = drop n s.buf.buf }; map = some m; updated = true })
  unfolding run_loop exec get_message get
  loop-message fuel n s m k h e = ground (arith, k, e)

  loop-bad_message :
      (fuel n : ℕ) (s : Reader M)
      → s.msg_len ≡ n
      → n ≤ length s.buf.buf
      → parse (take n s.buf.buf) ≡ none
      → loop (suc fuel) (at_message n) s
        ≡ some (record {
          machine = record (machine (at_message n)) { cancelled = true };
          state = record s { buf = record { buf = drop n s.buf.buf } };
          cancelled = true;
          done = true;
        })
  unfolding run_loop exec get_message get
  loop-bad_message fuel n s k h e = ground (arith, k, e)

  unfoldable pub RunReads : Position → Reader M → Option (Ran Step (Reader M)) → Type 0
  RunReads p s o =
      (ms : List M) × (rest : Rest) × (r : Ran Step (Reader M)) × (o ≡ some r)
      × (Reads parse p s.buf.buf ms rest)
      × Leaves s ms rest r

  pub run_loop-Reads :
      (fuel : ℕ) (p : Position) (s : Reader M)
      → KnowsLength p s
      → 2 * length s.buf.buf + phase p < fuel
      → RunReads p s (loop fuel p s)
  unfolding RunReads Leaves StandsAt KnowsLength IsShort
  run_loop-Reads zero p s k h = elim h [ ]
  run_loop-Reads (suc fuel) at_length s k h = elim (two_bytes s.buf.buf) [
    | inl short ↦ (
      [],
      waiting at_length s.buf.buf,
      _,
      loop-no_length fuel s short,
      no_length s.buf.buf short,
      (refl, refl, refl, or-false s.updated, (refl, refl, tt, short)),
    )
    | inr (x, y, bytes, e) ↦
        let n = x * 256 + y in
        let s' = record s { buf = record { buf = bytes }; msg_len = n } in
        let (ms, rest, r, runs, reads, leaves) =
          run_loop-Reads fuel (at_message n) s' refl (omega (arith, ap length e)) in
        (
          ms,
          rest,
          r,
          loop-read_length fuel x y bytes s e ∙ runs,
          rw e (read_length x y bytes ms rest reads),
          leaves,
        )
  ]
  run_loop-Reads (suc fuel) (at_message n) s k h = elim (Bool-cases (ltb (length s.buf.buf) n)) [
    | inl few ↦
        let short = ltb→lt _ _ few in
        (
          [],
          waiting (at_message n) s.buf.buf,
          _,
          loop-no_message fuel n s k short,
          no_message n s.buf.buf short,
          (refl, refl, refl, or-false s.updated, (refl, refl, k, short)),
        )
    | inr all ↦
        let enough : n ≤ length s.buf.buf = ground arith in
        elim (Option-cases (parse (take n s.buf.buf))) [
          | inl bad ↦ (
            [],
            invalid,
            _,
            loop-bad_message fuel n s k enough bad,
            bad_message n s.buf.buf enough bad,
            (refl, refl, refl, or-false s.updated, tt),
          )
          | inr (m, e) ↦
              let b = drop n s.buf.buf in
              let s' = record s { buf = record { buf = b }; map = some m; updated = true } in
              let (ms, rest, r, runs, reads, (c, d, last, u, stands)) =
                run_loop-Reads fuel at_length s' tt (omega (arith, length-drop n s.buf.buf)) in
              (
                m ∷ ms,
                rest,
                r,
                loop-message fuel n s m k enough e ∙ runs,
                read_message n s.buf.buf m ms rest enough e reads,
                (c, d, last, u ∙ sym (or-true s.updated), stands),
              )
        ]
  ]
