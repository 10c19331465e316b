-- ===== src/Analyzer/Tls/Total.antt =====
-- The steps of the hello parsers of analyzer/internal/tls.go end: every loop over the rest of a
-- buffer takes bytes off it.
use open_gfw_next.Base.{
  ℕ, zero, suc, ◌+◌, ◌≤◌, ◌≡◌, ◌≢◌, refl, true, false, Option, none, some, [], ◌∷◌, ◌++◌, Bytes,
  arith, ltb, ◌==◌, if◌then◌else◌, length, drop, length-drop, Bool-cases, inl, inr,
}
use open_gfw_next.Utils.ByteBuffer
use open_gfw_next.Utils.ByteBuffer.{ByteBuffer, get}
use open_gfw_next.Analyzer.Tls.{
  Read, value, malformed, no_fuel, Parser, ◌>>=◌, ◌>>◌, give, lift, ended, fail, or_zero, u8, u16,
  bytes, sub_buffer, skip, u16s, rest_u16s, rest_names, skipped_u16s, Extensions, parse_extension,
  parse_server_name, parse_alpn, parse_point_formats, parse_versions,
}
use open_gfw_next.Analyzer.Tls.Hello.{next_extension, extensions}

-- a result that is reached, and that leaves a buffer shorter by at least `n`
abbrev pub Uses : {A : Type 0} → ℕ → ByteBuffer → Read (A × ByteBuffer) → Type 0
Uses {A} n b r =
    (r ≢ no_fuel)
    × ((a : A) (b' : ByteBuffer) → r ≡ value (a, b') → length b'.buf + n ≤ length b.buf)

pub after :
    {A B : Type 0} (m n : ℕ) (b : ByteBuffer) (r : Read (A × ByteBuffer)) (f : A → Parser B)
    → Uses m b r
    → ((a : A) (b' : ByteBuffer) → length b'.buf + m ≤ length b.buf → Uses n b' (f a b'))
    → Uses (m + n) b ((◌>>=◌ (λ _. r) f) b)
after m n b (value (a, b')) f u v =
    let w = v a b' (u.1 a b' refl) in (w.0, λ c b'' h. omega (arith, w.1 c b'' h, u.1 a b' refl))
after m n b malformed f u v = (λ h. cc, λ c b'' h. cc)
after m n b no_fuel f u v = absurd (u.0 refl)

pub weaker :
    {A : Type 0} (m n : ℕ) (b : ByteBuffer) (r : Read (A × ByteBuffer))
    → n ≤ m
    → Uses m b r
    → Uses n b r
weaker m n b r le u = (u.0, λ a b' h. omega (arith, u.1 a b' h))

pub lift-Uses : {A : Type 0} (r : Read A) (b : ByteBuffer) → r ≢ no_fuel → Uses 0 b (lift r b)
lift-Uses (value a) b h = (λ e. cc, λ a' b' e. ground (arith, e))
lift-Uses malformed b h = (λ e. cc, λ a' b' e. cc)
lift-Uses no_fuel b h = absurd (h refl)

pub give-Uses : {A : Type 0} (a : A) (b : ByteBuffer) → Uses 0 b (give a b)
give-Uses a b = (λ e. cc, λ a' b' e. ground (arith, e))

pub fail-Uses : {A : Type 0} (b : ByteBuffer) → Uses 0 b (fail {A = A} b)
fail-Uses b = (λ e. cc, λ a' b' e. cc)

pub u8-Uses : (b : ByteBuffer) → Uses 1 b (u8 b)
unfolding u8 ByteBuffer.get_byte get
u8-Uses b = (ground arith, λ a b' h. ground (arith, h, length-drop 1 b.buf))

pub u16-Uses : (b : ByteBuffer) → Uses 2 b (u16 b)
unfolding u16 ByteBuffer.get_uint16 get
u16-Uses b = (ground arith, λ a b' h. ground (arith, h, length-drop 2 b.buf))

pub bytes-Uses : (n : ℕ) (b : ByteBuffer) → Uses n b (bytes n b)
unfolding bytes get
bytes-Uses n b = (ground arith, λ a b' h. ground (arith, h, length-drop n b.buf))

pub sub_buffer-Uses : (n : ℕ) (b : ByteBuffer) → Uses n b (sub_buffer n b)
unfolding sub_buffer ByteBuffer.get_sub_buffer get
sub_buffer-Uses n b = (ground arith, λ a b' h. ground (arith, h, length-drop n b.buf))

skip-Uses : (n : ℕ) (b : ByteBuffer) → Uses n b (skip n b)
unfolding skip ByteBuffer.skip
skip-Uses n b = (ground arith, λ a b' h. ground (arith, h, length-drop n b.buf))

pub or_zero-Uses :
    {A : Type 0} (z : A) (b : ByteBuffer) (r : ByteBuffer × Option A)
    → length r.0.buf ≤ length b.buf
    → Uses 0 b (or_zero z r)
or_zero-Uses z b (b', none) h = (λ e. cc, λ a b'' e. ground (arith, e, h))
or_zero-Uses z b (b', some a) h = (λ e. cc, λ c b'' e. ground (arith, e, h))

pub get-length : (b : ByteBuffer) (n : ℕ) → length (get b n true).0.buf ≤ length b.buf
unfolding get
get-length b n = ground (arith, length-drop n b.buf)

pub get_uint16-length :
    (b : ByteBuffer) → length (ByteBuffer.get_uint16 b false true).0.buf ≤ length b.buf
unfolding ByteBuffer.get_uint16 get
get_uint16-length b = ground (arith, length-drop 2 b.buf)

pub get_byte-length : (b : ByteBuffer) → length (ByteBuffer.get_byte b true).0.buf ≤ length b.buf
unfolding ByteBuffer.get_byte get
get_byte-length b = ground (arith, length-drop 1 b.buf)

rest_u16s-ends : (xs : Bytes) → rest_u16s xs ≢ no_fuel
unfolding rest_u16s
rest_u16s-ends [] = λ e. cc
rest_u16s-ends (x ∷ []) = λ e. cc
rest_u16s-ends (x ∷ (y ∷ xs)) = ground (arith, rest_u16s-ends xs)

skipped_u16s-ends : (n : ℕ) (b : ByteBuffer) → skipped_u16s n b ≢ no_fuel
unfolding skipped_u16s ByteBuffer.skip skip
skipped_u16s-ends n b = elim (Bool-cases (ltb (length b.buf) n)) [
  | inl y ↦ ground (arith, y)
  | inr y ↦ ground (arith, y, rest_u16s-ends (drop n b.buf))
]

pub u16s-Uses : (n : ℕ) (b : ByteBuffer) → Uses 0 b (u16s n b)
unfolding u16s
u16s-Uses zero b = give-Uses [] b
u16s-Uses (suc n) b = weaker 2 0 b (u16s (suc n) b) (omega arith) (
    after 2 0 b (u16 b) (λ v. u16s n >>= λ vs. give (v ∷ vs)) (u16-Uses b)
      (λ v b1 _.
        after 0 0 b1 (u16s n b1) (λ vs. give (v ∷ vs)) (u16s-Uses n b1)
          (λ vs b2 _. give-Uses (v ∷ vs) b2)))

abbrev buffer : Bytes → ByteBuffer
buffer xs = record { buf = xs }

rest_names-Uses :
    (fuel : ℕ) (xs : Bytes) → length xs ≤ fuel → Uses 0 (buffer xs) (rest_names fuel (buffer xs))
unfolding rest_names
rest_names-Uses zero [] h = give-Uses [] (buffer [])
rest_names-Uses zero (x ∷ xs) h = absurd (omega arith)
rest_names-Uses (suc fuel) [] h = give-Uses [] (buffer [])
rest_names-Uses (suc fuel) (x ∷ xs) h =
    let b = buffer (x ∷ xs) in
    weaker 1 0 b (rest_names (suc fuel) b) (omega arith) (
      after 1 0 b (u8 b) (λ n. bytes n >>= λ name. rest_names fuel >>= λ names. give (name ∷ names))
        (u8-Uses b)
        (λ n b1 h1.
          after 0 0 b1 (bytes n b1) (λ name. rest_names fuel >>= λ names. give (name ∷ names))
            (weaker n 0 b1 (bytes n b1) (omega arith) (bytes-Uses n b1))
            (λ name b2 h2.
              after 0 0 b2 (rest_names fuel b2) (λ names. give (name ∷ names))
                (rest_names-Uses fuel b2.buf (omega arith))
                (λ names b3 _. give-Uses (name ∷ names) b3))))

pub ended-ends : {A B : Type 0} (f : A → B) (r : Read A) → r ≢ no_fuel → ended f r ≢ no_fuel
ended-ends f (value a) h = λ e. cc
ended-ends f malformed h = λ e. cc
ended-ends f no_fuel h = absurd (h refl)

hostname-Uses : (t : ℕ) (b : ByteBuffer) → Uses 0 b ((if t == 0 then u16 else fail) b)
hostname-Uses t b = elim (Bool-cases (t == 0)) [
  | inl y ↦ rw y (weaker 2 0 b (u16 b) (omega arith) (u16-Uses b))
  | inr y ↦ rw y (fail-Uses b)
]

parse_server_name-ends : (e : Extensions) (b : ByteBuffer) → parse_server_name e b ≢ no_fuel
unfolding parse_server_name
parse_server_name-ends e b =
    ended-ends _ _
      (after 3 0 b ((skip 2 >> u8) b) (λ t. (if t == 0 then u16 else fail) >>= λ n. bytes n)
        (after 2 1 b (skip 2 b) (λ _. u8) (skip-Uses 2 b) (λ _ b1 _. u8-Uses b1))
        (λ t b1 _.
          after 0 0 b1 ((if t == 0 then u16 else fail) b1) (λ n. bytes n) (hostname-Uses t b1)
            (λ n b2 _. weaker n 0 b2 (bytes n b2) (omega arith) (bytes-Uses n b2)))).0

parse_alpn-ends : (e : Extensions) (b : ByteBuffer) → parse_alpn e b ≢ no_fuel
unfolding parse_alpn
parse_alpn-ends e b =
    ended-ends _ _
      (after 2 0 b (skip 2 b) (λ _ b'. rest_names (length b'.buf) b') (skip-Uses 2 b)
        (λ _ b' _. rest_names-Uses (length b'.buf) b'.buf (omega arith))).0

parse_versions-ends : (e : Extensions) (b : ByteBuffer) → parse_versions e b ≢ no_fuel
unfolding parse_versions
parse_versions-ends e b = elim (Bool-cases (length b.buf == 2)) [
  | inl y ↦ ground (arith, y, (u16-Uses b).0)
  | inr y ↦ ground (arith, y, skipped_u16s-ends 1 b)
]

parse_extension-ends :
    (kind : ℕ) (b : ByteBuffer) (e : Extensions) → parse_extension kind b e ≢ no_fuel
unfolding parse_extension parse_point_formats skip ByteBuffer.skip
parse_extension-ends kind b e = ground (
  arith,
  parse_server_name-ends e b,
  parse_alpn-ends e b,
  parse_versions-ends e b,
  skipped_u16s-ends 2 b,
)

next_extension-Uses : (e : Extensions) (b : ByteBuffer) → Uses 4 b (next_extension e b)
unfolding next_extension
next_extension-Uses e b =
    after 2 2 b (u16 b)
      (λ kind. u16 >>= λ n.
        sub_buffer n >>= λ d. lift (parse_extension kind d e) >>= λ e'. give (kind ∷ [], e'))
      (u16-Uses b)
      (λ kind b1 _.
        after 2 0 b1 (u16 b1)
          (λ n.
            sub_buffer n >>= λ d. lift (parse_extension kind d e) >>= λ e'. give (kind ∷ [], e'))
          (u16-Uses b1)
          (λ n b2 _.
            after 0 0 b2 (sub_buffer n b2)
              (λ d. lift (parse_extension kind d e) >>= λ e'. give (kind ∷ [], e'))
              (weaker n 0 b2 (sub_buffer n b2) (omega arith) (sub_buffer-Uses n b2))
              (λ d b3 _.
                after 0 0 b3 (lift (parse_extension kind d e) b3) (λ e'. give (kind ∷ [], e'))
                  (lift-Uses (parse_extension kind d e) b3 (parse_extension-ends kind d e))
                  (λ e' b4 _. give-Uses (kind ∷ [], e') b4))))

pub extensions-Uses :
    (fuel : ℕ) (e : Extensions) (xs : Bytes)
    → length xs ≤ fuel
    → Uses 0 (buffer xs) (extensions fuel e (buffer xs))
unfolding extensions
extensions-Uses zero e [] h = give-Uses ([], e) (buffer [])
extensions-Uses zero e (x ∷ xs) h = absurd (omega arith)
extensions-Uses (suc fuel) e [] h = give-Uses ([], e) (buffer [])
extensions-Uses (suc fuel) e (x ∷ xs) h =
    let b = buffer (x ∷ xs) in
    weaker 4 0 b (extensions (suc fuel) e b) (omega arith) (
      after 4 0 b (next_extension e b) (λ f. extensions fuel f.1 >>= λ g. give (f.0 ++ g.0, g.1))
        (next_extension-Uses e b)
        (λ f b1 h1.
          after 0 0 b1 (extensions fuel f.1 b1) (λ g. give (f.0 ++ g.0, g.1))
            (extensions-Uses fuel f.1 b1.buf (omega arith))
            (λ g b2 _. give-Uses (f.0 ++ g.0, g.1) b2)))
