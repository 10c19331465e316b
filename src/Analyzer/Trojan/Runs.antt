-- ===== src/Analyzer/Trojan/Runs.antt =====
-- What a Trojan stream of analyzer/tcp/trojan.go makes of a whole connection.
use open_gfw_next.Base.{
  is_some, ℕ, zero, suc, ◌+◌, ◌<◌, ◌≡◌, ◌≢◌, refl, sym, ap, ◌∙◌, inl, inr, Bool, true, false,
  Option, none, some, List, [], ◌∷◌, ◌⊎◌, arith, length, ltb, beq, if◌then◌else◌, Bool-cases,
}
use open_gfw_next.Analyzer.Trojan.Tree.{Seq, is_trojan_seq}
use open_gfw_next.Analyzer.Trojan.{Stream, new, Fed, Report, zero_seq, tally}

-- A stream that has not reported has room for the next run, and does not check for TLS.
pub record IsOpen (s : Stream) : Type 0 where
  pub in_range : s.seq_index < 4
  pub unchecked : s.first ≡ false

pub IsOpen-new : IsOpen new
unfolding new
IsOpen-new = ground arith

pub tally-ne-none : (s : Stream) (rev : Bool) (n : ℕ) → s.seq_index < 4 → tally s rev n ≢ none
unfolding tally
tally-ne-none s rev n h = ground arith

pub tally-IsOpen :
    (s : Stream) (rev : Bool) (n : ℕ) (r : Fed)
    → IsOpen s
    → tally s rev n ≡ some r
    → r.done ≡ false
    → IsOpen r.stream
unfolding tally
tally-IsOpen s rev n r o e d = ground arith

-- The sizes of the runs of chunks in one direction, `acc` bytes of the first in direction `rev`
-- being counted already.
pub groups : Bool → ℕ → List (Bool × ℕ) → List ℕ
groups rev acc [] = acc ∷ []
groups rev acc ((d, n) ∷ cs) =
    let same = groups rev (acc + n) cs in
    let other = acc ∷ groups d n cs in if beq d rev then same else other

-- the first four sizes
abbrev pub seq_of : List ℕ → Seq
seq_of (a ∷ b ∷ c ∷ d ∷ _) = record { length1 = a; length2 = b; length3 = c; length4 = d }
seq_of _ = zero_seq

-- A verdict is due when a fifth run begins.
abbrev pub verdict : List ℕ → Option Report
verdict sizes =
    if ltb 4 (length sizes)
    then some (record { seq = seq_of sizes; yes = is_trojan_seq (seq_of sizes) })
    else none

-- all runs of a stream that counts, the chunks to come included
abbrev pub sizes_at : ℕ → Stream → List (Bool × ℕ) → List ℕ
sizes_at zero s cs = groups s.rev s.seq.length1 cs
sizes_at (suc zero) s cs = s.seq.length1 ∷ groups s.rev s.seq.length2 cs
sizes_at (suc (suc zero)) s cs = s.seq.length1 ∷ s.seq.length2 ∷ groups s.rev s.seq.length3 cs
sizes_at (suc (suc (suc _))) s cs =
    s.seq.length1 ∷ s.seq.length2 ∷ s.seq.length3 ∷ groups s.rev s.seq.length4 cs

-- nothing is counted beyond the run that is open
abbrev pub Clean : ℕ → Seq → Type 0
Clean zero q = (q.length2 ≡ 0) × (q.length3 ≡ 0) × (q.length4 ≡ 0)
Clean (suc zero) q = (q.length3 ≡ 0) × (q.length4 ≡ 0)
Clean (suc (suc zero)) q = q.length4 ≡ 0
Clean (suc (suc (suc _))) q = Unit

length-groups : (rev : Bool) (acc : ℕ) (cs : List (Bool × ℕ)) → 0 < length (groups rev acc cs)
unfolding groups
length-groups rev acc [] = omega arith
length-groups rev acc ((d, n) ∷ cs) =
    ground (arith, length-groups rev (acc + n) cs, length-groups d n cs)

-- the reports of some calls of `Feed`, in order, and whether the last of them said that it is done
abbrev pub Reports : Type 0
Reports = List Report × Bool

abbrev pub reported : Option Report → List Report → List Report
reported none reports = reports
reported (some report) reports = report ∷ reports

-- the reports of a call and of those after it, if there are any after it
abbrev pub and_later : Fed → Option Reports → Option Reports
and_later r later = if r.done then some (reported r.update [], true) else (elim later [
  | none ↦ none
  | some (reports, done) ↦ some (reported r.update reports, done)
])

-- one report and the end, or neither
abbrev pub only : Option Report → Reports
only none = ([], false)
only (some report) = (report ∷ [], true)

-- the engine's calls, one for each chunk, up to the one that is done
unfoldable pub tally_all : Stream → List (Bool × ℕ) → Option Reports
tally_all s [] = some ([], false)
tally_all s ((d, n) ∷ cs) = elim (tally s d n) [
  | none ↦ none
  | some r ↦ and_later r (tally_all r.stream cs)
]

-- what one chunk does at run `i`: it ends the count with the verdict, or stays on course for it
abbrev Advances : ℕ → Stream → Bool → ℕ → List (Bool × ℕ) → Type 0
Advances i s d n cs =
    (r : Fed) × (tally s d n ≡ some r)
    × ((r.done ≡ true) × (r.update ≡ verdict (sizes_at i s ((d, n) ∷ cs)))
        ⊎ (r.done ≡ false)
          × (r.stream.seq_index < 4)
          × Clean r.stream.seq_index r.stream.seq
          × (sizes_at r.stream.seq_index r.stream cs ≡ sizes_at i s ((d, n) ∷ cs)))

-- the stream left by a chunk that ends no connection
abbrev counted : Stream → Bool → ℕ → Seq → Fed
counted s d i q = record {
  stream = record s { seq_index = i; rev = d; seq = q };
  update = none;
  done = false;
}

turn-Advances :
    (i : ℕ) (s : Stream) (d : Bool) (n : ℕ) (cs : List (Bool × ℕ))
    → s.seq_index ≡ i
    → i < 4
    → Clean i s.seq
    → beq d s.rev ≡ false
    → Advances i s d n cs
unfolding tally groups
turn-Advances zero s d n cs e lt c b = (
  counted s d 1 (record s.seq { length2 = n }),
  ground arith,
  inr (refl, ground arith, ground arith, ground arith),
)
turn-Advances (suc zero) s d n cs e lt c b = (
  counted s d 2 (record s.seq { length3 = n }),
  ground arith,
  inr (refl, ground arith, ground arith, ground arith),
)
turn-Advances (suc (suc zero)) s d n cs e lt c b = (
  counted s d 3 (record s.seq { length4 = n }),
  ground arith,
  inr (refl, ground arith, ground arith, ground arith),
)
turn-Advances (suc (suc (suc zero))) s d n cs e lt c b = (
  record {
    stream = record s { seq_index = 4 };
    update = some (record { seq = s.seq; yes = is_trojan_seq s.seq });
    done = true;
  },
  ground arith,
  inl (refl, ground (arith, length-groups d n cs)),
)
turn-Advances (suc (suc (suc (suc _)))) s d n cs e lt c b = absurd (omega arith)

stay-Advances :
    (i : ℕ) (s : Stream) (d : Bool) (n : ℕ) (cs : List (Bool × ℕ))
    → s.seq_index ≡ i
    → i < 4
    → Clean i s.seq
    → beq d s.rev ≡ true
    → Advances i s d n cs
unfolding tally groups
stay-Advances zero s d n cs e lt c b = (
  counted s s.rev 0 (record s.seq { length1 = s.seq.length1 + n }),
  ground arith,
  inr (refl, ground arith, ground arith, ground arith),
)
stay-Advances (suc zero) s d n cs e lt c b = (
  counted s s.rev 1 (record s.seq { length2 = s.seq.length2 + n }),
  ground arith,
  inr (refl, ground arith, ground arith, ground arith),
)
stay-Advances (suc (suc zero)) s d n cs e lt c b = (
  counted s s.rev 2 (record s.seq { length3 = s.seq.length3 + n }),
  ground arith,
  inr (refl, ground arith, ground arith, ground arith),
)
stay-Advances (suc (suc (suc zero))) s d n cs e lt c b = (
  counted s s.rev 3 (record s.seq { length4 = s.seq.length4 + n }),
  ground arith,
  inr (refl, ground arith, ground arith, ground arith),
)
stay-Advances (suc (suc (suc (suc _)))) s d n cs e lt c b = absurd (omega arith)

chunk-Advances :
    (i : ℕ) (s : Stream) (d : Bool) (n : ℕ) (cs : List (Bool × ℕ))
    → s.seq_index ≡ i
    → i < 4
    → Clean i s.seq
    → Advances i s d n cs
chunk-Advances i s d n cs e lt c = elim (Bool-cases (beq d s.rev)) [
  | inl b ↦ stay-Advances i s d n cs e lt c b
  | inr b ↦ turn-Advances i s d n cs e lt c b
]

undecided : (i : ℕ) (s : Stream) → i < 4 → verdict (sizes_at i s []) ≡ none
unfolding groups
undecided zero s lt = refl
undecided (suc zero) s lt = refl
undecided (suc (suc zero)) s lt = refl
undecided (suc (suc (suc zero))) s lt = refl
undecided (suc (suc (suc (suc _)))) s lt = absurd (omega arith)

-- A call reports exactly if it is done.
tally_done :
    (s : Stream) (d : Bool) (n : ℕ) (r : Fed) → tally s d n ≡ some r → r.done ≡ is_some r.update
unfolding tally
tally_done s d n r e = ground arith

later_lem :
    (r : Fed) (x : Option Report) (later : Option Reports)
    → r.done ≡ is_some r.update
    → ((r.done ≡ true) × (r.update ≡ x)) ⊎ ((r.done ≡ false) × (later ≡ some (only x)))
    → and_later r later ≡ some (only x)
later_lem r x later h outcome = ground (arith, h)

pub tally_all-verdict :
    (cs : List (Bool × ℕ)) (s : Stream)
    → s.seq_index < 4
    → Clean s.seq_index s.seq
    → tally_all s cs ≡ some (only (verdict (sizes_at s.seq_index s cs)))
unfolding tally_all
tally_all-verdict [] s lt c = ap (λ x. some (only x)) (sym (undecided s.seq_index s lt))
tally_all-verdict ((d, n) ∷ cs) s lt c =
    let (r, e, outcome) = chunk-Advances s.seq_index s d n cs refl lt c in
    let x = verdict (sizes_at s.seq_index s ((d, n) ∷ cs)) in
    let later = later_lem r x (tally_all r.stream cs) (tally_done s d n r e) in
    rw (e, tally_all)
      (elim outcome [
        | inl ends ↦ later (inl ends)
        | inr (goes_on, lt', c', same) ↦ later (
            inr (
              goes_on,
              tally_all-verdict cs r.stream lt' c' ∙ ap (λ y. some (only (verdict y))) same,
            ))
      ])

pub tally_keeps :
    (s : Stream) (d : Bool) (n : ℕ) (r : Fed)
    → tally s d n ≡ some r
    → (r.stream.count ≡ s.count) × (r.stream.first ≡ s.first)
unfolding tally
tally_keeps s d n r e = ground arith
