-- ===== src/Cmd/Risk/Store.antt =====
-- The buckets of cmd/risk.go by their ids: what `put` and the loop of `BucketCount` do to each.
use open_gfw_next.Base.{
  ℕ, ◌↔◌, ◌≡◌, refl, sym, ap, ◌∙◌, Bool, true, false, String, List, [], ◌∷◌, arith, eq_iff, ◌==◌,
  if◌then◌else◌, Bool-cases, length, inl, inr,
}
use open_gfw_next.Cmd.Risk.{Bucket, Settings, has_id, fresh, bucket, put, prune}
use open_gfw_next.Cmd.Risk.Window.{recent, recent-nil, prune-recent}
use open_gfw_next.Cmd.Risk.Add.{prune_all}

-- no two buckets have the same id
pub IsUnique : List Bucket → Type 0
IsUnique [] = ℕ
IsUnique (b ∷ bs) = (bucket b.key_type b.key bs ≡ fresh b.key_type b.key) × IsUnique bs

-- buckets with the same id answer to the same ids
has_id_same :
    (kt k : String) (b c : Bucket)
    → has_id b.key_type b.key c ≡ true
    → has_id kt k c ≡ has_id kt k b
unfolding has_id
has_id_same kt k b c h = ground (
  arith,
  h,
  eq_iff b.key_type kt,
  eq_iff b.key k,
  eq_iff c.key_type kt,
  eq_iff c.key k,
  eq_iff c.key_type b.key_type,
  eq_iff c.key b.key,
)

has_id_apart :
    (kt k : String) (b c : Bucket)
    → has_id b.key_type b.key c ≡ false
    → has_id kt k b ≡ true
    → has_id kt k c ≡ false
unfolding has_id
has_id_apart kt k b c h e = ground (
  arith,
  h,
  e,
  eq_iff b.key_type kt,
  eq_iff b.key k,
  eq_iff c.key_type kt,
  eq_iff c.key k,
  eq_iff c.key_type b.key_type,
  eq_iff c.key b.key,
)

has_id_sym : (b c : Bucket) → has_id b.key_type b.key c ≡ false → has_id c.key_type c.key b ≡ false
unfolding has_id
has_id_sym b c h = ground (
  arith,
  h,
  eq_iff b.key_type c.key_type,
  eq_iff b.key c.key,
  eq_iff c.key_type b.key_type,
  eq_iff c.key b.key,
)

pub has_id_iff :
    (kt k : String) (b : Bucket) → (has_id kt k b ≡ true) ↔ ((b.key_type ≡ kt) × (b.key ≡ k))
unfolding has_id
has_id_iff kt k b = ground (arith, eq_iff b.key_type kt, eq_iff b.key k)

pub empty-IsUnique : IsUnique []
unfolding IsUnique
empty-IsUnique = 0

pub bucket-put :
    (kt k : String) (b : Bucket) (bs : List Bucket)
    → bucket kt k (put b bs) ≡ (if has_id kt k b then b else bucket kt k bs)
unfolding bucket put
bucket-put kt k b [] = refl
bucket-put kt k b (c ∷ bs) = elim (Bool-cases (has_id b.key_type b.key c)) [
  | inl y ↦ ground (arith, y, has_id_same kt k b c y)
  | inr n ↦ elim (Bool-cases (has_id kt k b)) [
    | inl e ↦ ground (arith, n, bucket-put kt k b bs, e, has_id_apart kt k b c n e)
    | inr e ↦ ground (arith, n, bucket-put kt k b bs, e)
  ]
]

pub bucket-id :
    (kt k : String) (bs : List Bucket)
    → ((bucket kt k bs).key_type ≡ kt) × ((bucket kt k bs).key ≡ k)
unfolding bucket
bucket-id kt k [] = (refl, refl)
bucket-id kt k (c ∷ bs) = ground (arith, bucket-id kt k bs, has_id_iff kt k c)

-- what the loop of `BucketCount` leaves of a bucket
abbrev pub swept : ℕ → ℕ → Bucket → Bucket
swept w now b = if length (recent w now b.hits) == 0 then fresh b.key_type b.key else prune w b now

either_way :
    (P : List Bucket → Type 0) (t : Bool) (xs ys : List Bucket)
    → (t ≡ true → P xs)
    → (t ≡ false → P ys)
    → P (if t then xs else ys)
either_way P true xs ys p q = p refl
either_way P false xs ys p q = q refl

pub put-IsUnique : (b : Bucket) (bs : List Bucket) → IsUnique bs → IsUnique (put b bs)
unfolding IsUnique put bucket
put-IsUnique b [] u = (refl, 0)
put-IsUnique b (c ∷ bs) u =
    either_way IsUnique (has_id b.key_type b.key c) (b ∷ bs) (c ∷ put b bs)
      (λ y. (ground (arith, y, u.0, has_id_iff b.key_type b.key c), u.1))
      (λ n. (
        ground (arith, u.0, bucket-put c.key_type c.key b bs, has_id_sym b c n),
        put-IsUnique b bs u.1,
      ))

prune-has_id :
    (w now : ℕ) (kt k : String) (b : Bucket) → has_id kt k (prune w b now) ≡ has_id kt k b
unfolding has_id prune
prune-has_id w now kt k b = refl

fresh_again :
    (kt k : String) (b : Bucket) (bs : List Bucket)
    → has_id kt k b ≡ true
    → bucket b.key_type b.key bs ≡ fresh b.key_type b.key
    → bucket kt k bs ≡ fresh b.key_type b.key
fresh_again kt k b bs h e = ground (arith, h, e, has_id_iff kt k b)

swept-fresh : (w now : ℕ) (kt k : String) → swept w now (fresh kt k) ≡ fresh kt k
swept-fresh w now kt k = ground (arith, recent-nil w now)

-- When no two buckets have the same id, `BucketCount` leaves under each id the hits still in the
-- window, with their weight and the flags as they were, or no bucket if there is none.
pub bucket-prune_all :
    (c : Settings) (now : ℕ) (kt k : String) (bs : List Bucket)
    → IsUnique bs
    → bucket kt k (prune_all c now bs) ≡ swept c.window now (bucket kt k bs)
unfolding IsUnique prune_all bucket
bucket-prune_all c now kt k [] u = sym (swept-fresh c.window now kt k)
bucket-prune_all c now kt k (b ∷ bs) u = elim (Bool-cases (has_id kt k b)) [
  | inl h ↦ ground (
    arith,
    h,
    prune-has_id c.window now kt k b,
    prune-recent c.window b now,
    fresh_again kt k b bs h u.0,
    swept-fresh c.window now b.key_type b.key,
    bucket-prune_all c now kt k bs u.1,
  )
  | inr h ↦ ground (arith, h, prune-has_id c.window now kt k b, bucket-prune_all c now kt k bs u.1)
]

pruned_apart :
    (c : Settings) (now : ℕ) (b : Bucket) (bs : List Bucket)
    → IsUnique bs
    → bucket b.key_type b.key bs ≡ fresh b.key_type b.key
    → (let p = prune c.window b now in
        bucket p.key_type p.key (prune_all c now bs) ≡ fresh p.key_type p.key)
unfolding prune
pruned_apart c now b bs u e =
    bucket-prune_all c now b.key_type b.key bs u
    ∙ ap (swept c.window now) e
    ∙ swept-fresh c.window now b.key_type b.key

pub prune_all-IsUnique :
    (c : Settings) (now : ℕ) (bs : List Bucket) → IsUnique bs → IsUnique (prune_all c now bs)
unfolding IsUnique prune_all
prune_all-IsUnique c now [] u = 0
prune_all-IsUnique c now (b ∷ bs) u =
    either_way IsUnique (length (prune c.window b now).hits == 0) (prune_all c now bs)
      (prune c.window b now ∷ prune_all c now bs) (λ y. prune_all-IsUnique c now bs u.1)
      (λ n. (pruned_apart c now b bs u.1 u.0, prune_all-IsUnique c now bs u.1))
