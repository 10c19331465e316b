-- ===== src/Cmd/Response/Cooldown.antt =====
-- The cooldown of cmd/response.go over a history of events.
use open_gfw_next.Base.{
  ℕ, ◌+◌, ◌≤◌, ◌≡◌, ◌⊎◌, refl, sym, ap, Bool, true, false, Option, none, some, List, [], ◌∷◌, Bytes,
  arith, if◌then◌else◌, Bool-cases, inl, inr,
}
use open_gfw_next.Utils.Strings.{same_text}
use open_gfw_next.Utils.Strings.Laws.{same_text_refl, same_text_iff}
use open_gfw_next.Cmd.Response.{Config, Sink, Alert}
use open_gfw_next.Cmd.Response.Handle.{
  last_at, is_cooling, Answer, Handled, response_mac, try_both, install, conclude, handle,
}

-- an event that is handled: the event, the time, and which commands succeed
pub record Event : Type 0 where
  pub alert : Alert
  pub time : ℕ
  pub runs : List Bytes → Bool

abbrev ran : List (List Bytes) → Bool
ran [] = false
ran (_ ∷ _) = true

-- the sink after an attempt
abbrev tried : Sink → Bytes → ℕ → Sink
tried s mac now = record s { last = (mac, now) ∷ s.last }

-- an event is ignored, or an attempt is made
abbrev IsIgnored : Sink → Handled → Type 0
IsIgnored s h = (h.commands ≡ []) × (h.sink ≡ s)

abbrev IsTried : Sink → Bytes → ℕ → Handled → Type 0
IsTried s mac now h =
    (ran h.commands ≡ true) × (h.sink ≡ tried s mac now) × (is_cooling s mac now ≡ false)

pair_eq : {A B : Type 0} {a a' : A} {b b' : B} → a ≡ a' → b ≡ b' → ◌≡◌ {A = A × B} (a, b) (a', b')
pair_eq p q = rw (p, q) refl

conclude-cases :
    (s : Sink) (r : Bytes × Option Answer) (now : ℕ) (done : List (List Bytes) × Answer)
    → ran done.0 ≡ true
    → IsIgnored s (conclude s r now done) ⊎ IsTried s r.0 now (conclude s r now done)
unfolding conclude
conclude-cases s (mac, some a) now done h = inl (refl, refl)
conclude-cases s (mac, none) now done h = elim (Bool-cases (is_cooling s mac now)) [
  | inl e ↦ inl (rw e refl, rw e refl)
  | inr e ↦ inr (rw e h, rw e refl, e)
]

try_both_ran : (c d : List Bytes) (runs : List Bytes → Bool) → ran (try_both c d runs).0 ≡ true
unfolding try_both
try_both_ran c d runs = ground arith

install_ran :
    (c : Config) (runs : List Bytes → Bool) (mac : Bytes) → ran (install c runs mac).0 ≡ true
unfolding install
install_ran c runs mac = try_both_ran _ _ runs

module _ (parse_mac : Bytes → Option Bytes) where
  -- the address that an event is about
  abbrev pub mac_of : Sink → Event → Bytes
  mac_of s e = (response_mac parse_mac s.config e.alert).0

  abbrev pub handled : Sink → Event → Handled
  handled s e = handle parse_mac s e.alert e.time e.runs

  handle-cases :
      (s : Sink) (e : Event)
      → IsIgnored s (handled s e) ⊎ IsTried s (mac_of s e) e.time (handled s e)
  unfolding handle
  handle-cases s e =
      conclude-cases s (response_mac parse_mac s.config e.alert) e.time _
        (install_ran s.config e.runs (mac_of s e))

  -- the addresses that commands are run for, with the times
  unfoldable pub attempts : Sink → List Event → List (Bytes × ℕ)
  attempts s [] = []
  attempts s (e ∷ es) =
      let rest = attempts (handled s e).sink es in
      if ran (handled s e).commands then (mac_of s e, e.time) ∷ rest else rest

  attempts_ignored :
      (s : Sink) (e : Event) (es : List Event)
      → IsIgnored s (handled s e)
      → attempts s (e ∷ es) ≡ attempts s es
  unfolding attempts
  attempts_ignored s e es h =
      ap
        (λ (x : List (List Bytes) × Sink).
          if ran x.0 then (mac_of s e, e.time) ∷ attempts x.1 es else attempts x.1 es)
        (pair_eq h.0 h.1)

  attempts-tried :
      (s : Sink) (e : Event) (es : List Event)
      → IsTried s (mac_of s e) e.time (handled s e)
      → attempts s (e ∷ es) ≡ (mac_of s e, e.time) ∷ attempts (tried s (mac_of s e) e.time) es
  unfolding attempts
  attempts-tried s e es h =
      ap
        (λ (x : Bool × Sink).
          if x.0 then (mac_of s e, e.time) ∷ attempts x.1 es else attempts x.1 es)
        (pair_eq h.0 h.1)

-- every attempt for the address is at least `d` after the time
abbrev pub NoneWithin : ℕ → Bytes → ℕ → List (Bytes × ℕ) → Type 0
NoneWithin d mac t [] = Unit {0}
NoneWithin d mac t (a ∷ later) = (same_text mac a.0 ≡ true → t + d ≤ a.1) × NoneWithin d mac t later

-- two attempts for the same address are at least `d` apart
abbrev pub IsSpaced : ℕ → List (Bytes × ℕ) → Type 0
IsSpaced d [] = Unit {0}
IsSpaced d (a ∷ later) = NoneWithin d a.0 a.1 later × IsSpaced d later

not_cooling :
    (s : Sink) (mac other : Bytes) (now u : ℕ)
    → is_cooling s other now ≡ false
    → last_at mac s.last ≡ some u
    → same_text mac other ≡ true
    → u + s.config.cooldown ≤ now
unfolding is_cooling
not_cooling s mac other now u h k e =
    let same = (same_text_iff mac other).0 e in
    let k' : last_at other s.last ≡ some u = rw same at k in ground (arith, h, k')

last_tried :
    (s : Sink) (mac other : Bytes) (now : ℕ)
    → last_at mac (tried s other now).last
      ≡ (if same_text other mac then some now else last_at mac s.last)
unfolding last_at
last_tried s mac other now = refl

module _ (parse_mac : Bytes → Option Bytes) where
  none_within :
      (es : List Event) (s : Sink) (mac : Bytes) (t u : ℕ)
      → last_at mac s.last ≡ some u
      → t ≤ u
      → NoneWithin s.config.cooldown mac t (attempts parse_mac s es)
  unfolding attempts
  none_within [] s mac t u h k = tt
  none_within (e ∷ es) s mac t u h k = elim (handle-cases parse_mac s e) [
    | inl x ↦ rw (attempts_ignored parse_mac s e es x) (none_within es s mac t u h k)
    | inr x ↦
        let other = mac_of parse_mac s e in
        let far = not_cooling s mac other e.time u x.2 h in
        rw (attempts-tried parse_mac s e es x) (
          λ same. omega (arith, far same),
          elim (Bool-cases (same_text other mac)) [
            | inl y ↦
                none_within es (tried s other e.time) mac t e.time
                  (ground (arith, y, last_tried s mac other e.time))
                  (omega (
                    arith,
                    far ((same_text_iff mac other).1 (sym ((same_text_iff other mac).0 y))),
                  ))
            | inr y ↦
                none_within es (tried s other e.time) mac t u
                  (ground (arith, y, h, last_tried s mac other e.time)) k
          ],
        )
  ]

  -- Whatever happens, the sink runs commands for the same address only if the cooldown has passed since
  -- it last did.
  pub attempts-IsSpaced :
      (s : Sink) (es : List Event) → IsSpaced s.config.cooldown (attempts parse_mac s es)
  unfolding attempts
  attempts-IsSpaced s [] = tt
  attempts-IsSpaced s (e ∷ es) = elim (handle-cases parse_mac s e) [
    | inl x ↦ rw (attempts_ignored parse_mac s e es x) (attempts-IsSpaced s es)
    | inr x ↦
        let mac = mac_of parse_mac s e in
        let s' = tried s mac e.time in
        let last = last_tried s mac mac e.time in
        rw (attempts-tried parse_mac s e es x) (
          none_within es s' mac e.time e.time (ground (arith, last, same_text_refl mac))
              (omega arith),
          attempts-IsSpaced s' es,
        )
  ]
