-- ===== src/Utils/ByteBuffer/Search.antt =====
-- The search for a separator in analyzer/utils/bytebuffer.go.
use open_gfw_next.Base.{
  ℕ, zero, suc, ◌+◌, ◌≤◌, ◌<◌, ◌≡◌, refl, ap, ◌∙◌, inl, inr, length-take, if◌then◌else◌, Bool, true,
  false, none, some, [], ◌∷◌, ◌++◌, Bytes, arith, Option-cases, length, take, drop,
  take-append-drop, take-nil, zero-add, suc-add,
}
use open_gfw_next.Utils.ByteBuffer.{ByteBuffer, append, get, is_prefix, index, get_until}
use open_gfw_next.Utils.ByteBuffer.Laws.{get-append}

is_prefix-append :
    (sep xs ys : Bytes) → length sep ≤ length xs → is_prefix sep (xs ++ ys) ≡ is_prefix sep xs
unfolding is_prefix
is_prefix-append [] xs ys h = refl
is_prefix-append (s ∷ sep) [] ys h = elim h [ ]
is_prefix-append (s ∷ sep) (x ∷ xs) ys h = ground (arith, is_prefix-append sep xs ys)

is_prefix-length : (sep xs : Bytes) → is_prefix sep xs ≡ true → length sep ≤ length xs
unfolding is_prefix
is_prefix-length [] xs h = omega arith
is_prefix-length (s ∷ sep) [] h = cc
is_prefix-length (s ∷ sep) (x ∷ xs) h = ground (arith, is_prefix-length sep xs)

index_bound : (xs sep : Bytes) (i : ℕ) → index xs sep ≡ some i → i + length sep ≤ length xs
unfolding index
index_bound [] sep i h = ground (arith, is_prefix-length sep [])
index_bound (x ∷ xs) sep zero h = ground (arith, is_prefix-length sep (x ∷ xs), index xs sep)
index_bound (x ∷ xs) sep (suc i) h = ground (arith, index_bound xs sep i)

index-append : (xs ys sep : Bytes) (i : ℕ) → index xs sep ≡ some i → index (xs ++ ys) sep ≡ some i
unfolding index
index-append [] [] sep i h = h
index-append [] (y ∷ ys) [] i h = h
index-append [] (y ∷ ys) (s ∷ sep) i h = cc
index-append (x ∷ xs) ys sep zero h =
    ground (arith, is_prefix-length sep (x ∷ xs), is_prefix-append sep (x ∷ xs) ys)
index-append (x ∷ xs) ys sep (suc i) h =
    ground (arith, is_prefix-append sep (x ∷ xs) ys, index_bound xs sep i, index-append xs ys sep i)

is_prefix-take : (sep xs : Bytes) → is_prefix sep xs ≡ true → take (length sep) xs ≡ sep
unfolding is_prefix
is_prefix-take [] xs h = refl
is_prefix-take (s ∷ sep) [] h = cc
is_prefix-take (s ∷ sep) (x ∷ xs) h = ground (arith, is_prefix-take sep xs)

index-take :
    (xs sep : Bytes) (i : ℕ) → index xs sep ≡ some i → take (i + length sep) xs ≡ take i xs ++ sep
unfolding index
index-take [] [] i h = simp take-nil
index-take [] (s ∷ sep) i h = cc
index-take (x ∷ xs) sep zero h =
    rw zero-add (is_prefix-take sep (x ∷ xs) (ground (arith, index xs sep)))
index-take (x ∷ xs) sep (suc i) h = rw suc-add (ap (◌∷◌ x) (index-take xs sep i (ground arith)))

-- Before the index that was found, and anywhere if none was, the separator does not stand.
index_first :
    (xs sep : Bytes) (i j : ℕ) → index xs sep ≡ some i → j < i → is_prefix sep (drop j xs) ≡ false
unfolding index
index_first [] sep i j h lt = ground arith
index_first (x ∷ xs) sep zero j h lt = elim lt [ ]
index_first (x ∷ xs) sep (suc i) zero h lt = ground arith
index_first (x ∷ xs) sep (suc i) (suc j) h lt = ground (arith, index_first xs sep i j)

index_absent : (xs sep : Bytes) (j : ℕ) → index xs sep ≡ none → is_prefix sep (drop j xs) ≡ false
unfolding index
index_absent [] sep zero h = ground arith
index_absent [] sep (suc j) h = ground arith
index_absent (x ∷ xs) sep zero h = ground arith
index_absent (x ∷ xs) sep (suc j) h = ground (arith, index_absent xs sep j)

get_until_taken :
    (b : ByteBuffer) (sep d : Bytes) (i : ℕ)
    → index b.buf sep ≡ some i
    → (get_until b sep true true).1 ≡ some d
    → (get_until b sep true true ≡ (record { buf = drop (i + length sep) b.buf }, some d))
      × (d ≡ take (i + length sep) b.buf)
unfolding get_until
get_until_taken b sep d i e h = ground arith

-- A `GetUntil` that includes and consumes the separator takes the bytes up to its first occurrence,
-- and the occurrence itself, off the buffer; the separator stands nowhere before that.
pub get_until_finds :
    (b : ByteBuffer) (sep d : Bytes)
    → (get_until b sep true true).1 ≡ some d
    → (pre : Bytes) × (rest : Bytes) × (get_until b sep true true ≡ (record { buf = rest }, some d))
      × (d ≡ pre ++ sep)
      × (d ++ rest ≡ b.buf)
      × ((j : ℕ) → j < length pre → is_prefix sep (drop j b.buf) ≡ false)
get_until_finds b sep d h = elim (Option-cases (index b.buf sep)) [
  | inl e ↦ absurd (unfold get_until in ground arith)
  | inr (i, e) ↦
      let taken = get_until_taken b sep d i e h in
      (
        take i b.buf,
        drop (i + length sep) b.buf,
        taken.0,
        taken.1 ∙ index-take b.buf sep i e,
        rw taken.1 (take-append-drop (i + length sep) b.buf),
        λ j lt. index_first b.buf sep i j e (omega (arith, length-take i b.buf)),
      )
]

-- Where `GetUntil` finds nothing the separator stands nowhere, and the buffer stays.
pub get_until_absent :
    (b : ByteBuffer) (sep : Bytes) (include consume : Bool)
    → (get_until b sep include consume).1 ≡ none
    → ((get_until b sep include consume).0 ≡ b) × ((j : ℕ) → is_prefix sep (drop j b.buf) ≡ false)
get_until_absent b sep include consume h = elim (Option-cases (index b.buf sep)) [
  | inl e ↦ (unfold get_until in ground arith, λ j. index_absent b.buf sep j e)
  | inr (i, e) ↦ absurd (unfold get_until in ground (arith, index_bound b.buf sep i))
]

-- the length that `GetUntil` asks `Get` for
abbrev pub reach : Bytes → Bool → ℕ → ℕ
reach sep include i = if include then i + length sep else i

pub get_until_at :
    (b : ByteBuffer) (sep : Bytes) (include consume : Bool) (i : ℕ)
    → index b.buf sep ≡ some i
    → get_until b sep include consume ≡ get b (reach sep include i) consume
unfolding get_until
get_until_at b sep include consume i e = rw (e, get_until)

-- Bytes that arrive later change nothing of a `GetUntil` that has succeeded.
pub get_until-append :
    (b : ByteBuffer) (sep more d : Bytes) (include consume : Bool)
    → (get_until b sep include consume).1 ≡ some d
    → get_until (append b more) sep include consume
      ≡ (append (get_until b sep include consume).0 more, some d)
get_until-append b sep more d include consume h = elim (Option-cases (index b.buf sep)) [
  | inl e ↦ absurd (unfold get_until in ground arith)
  | inr (i, e) ↦
      let here = get_until_at b sep include consume i e in
      let found = index-append b.buf more sep i e in
      let then_at = get_until_at (append b more) sep include consume i (unfold append in found) in
      rw (then_at, here) (get-append b (reach sep include i) consume more d (rw here at h))
]
