-- ===== src/Cmd/Allowlist/Domains.antt =====
-- cmd/allowlist.go: what is listed, as tests on the configuration.
use open_gfw_next.Base.{
  is_some, if◌then◌else◌, ap, ◌∙◌, ◌≡◌, refl, Bool, true, false, not, ◌&&◌, ◌||◌, Option, none,
  some, List, [], ◌∷◌, ◌++◌, Bytes, arith,
}
use open_gfw_next.Utils.Strings.{codes, is_empty, same_text, trim_space, has_suffix}
use open_gfw_next.Ruleset.{is_among}
use open_gfw_next.Cmd.Identity.{make_string_set}
use open_gfw_next.Cmd.Allowlist.{normalize_domain, add_domains, find_parent, match_domain}

-- Is the text one of the entries, up to the spaces around them, and not blank?
unfoldable pub names : List Bytes → Bytes → Bool
names [] v = false
names (raw ∷ rest) v =
    (not (is_empty (trim_space raw)) && same_text v (trim_space raw)) || names rest v

pub is_among-make_string_set :
    (vs : List Bytes) (v : Bytes) → is_among v (make_string_set vs) ≡ names vs v
unfolding is_among make_string_set names
is_among-make_string_set [] v = refl
is_among-make_string_set (raw ∷ rest) v = ground (arith, is_among-make_string_set rest v)

-- a domain and those below it
unfoldable pub is_under : Bytes → Bytes → Bool
is_under domain allowed = same_text domain allowed || has_suffix domain (codes "." ++ allowed)

-- Is a domain that is not blank below one of the entries, up to case, spaces, a final dot and "*."?
unfoldable pub covers_domain : List Bytes → Bytes → Bool
unfolding is_under
covers_domain [] domain = false
covers_domain (raw ∷ rest) domain =
    (not (is_empty (normalize_domain raw)) && is_under domain (normalize_domain raw))
    || covers_domain rest domain

-- the tests of `matchDomain`
found : Bytes → List Bytes → Bool
found d ds = is_among d ds || is_some (find_parent d ds)

-- four tests in two orders
regrouped : (a b c d : Bool) → (a || c) || (b || d) ≡ (a || b) || (c || d)
regrouped true b c d = refl
regrouped false true true d = refl
regrouped false true false d = refl
regrouped false false true d = refl
regrouped false false false d = refl

is_some-if :
    {A : Type 0} (b : Bool) (x : A) (o : Option A)
    → is_some (if b then some x else o) ≡ (b || is_some o)
is_some-if true x o = refl
is_some-if false x o = refl

found-cons : (d n : Bytes) (ds : List Bytes) → found d (n ∷ ds) ≡ (is_under d n || found d ds)
unfolding found is_among find_parent is_under
found-cons d n ds =
    ap (λ b. (same_text d n || is_among d ds) || b)
      (is_some-if (has_suffix d (codes "." ++ n)) n (find_parent d ds))
    ∙ regrouped (same_text d n) (has_suffix d (codes "." ++ n)) (is_among d ds)
        (is_some (find_parent d ds))

found-unless :
    (d n : Bytes) (ds : List Bytes) (later : Bool)
    → found d ds ≡ later
    → found d (if is_empty n then ds else n ∷ ds) ≡ ((not (is_empty n) && is_under d n) || later)
found-unless d [] ds later e = e
found-unless d (c ∷ n) ds later e = found-cons d (c ∷ n) ds ∙ ap (λ b. is_under d (c ∷ n) || b) e

found-add_domains :
    (raws : List Bytes) (d : Bytes) → found d (add_domains raws) ≡ covers_domain raws d
unfolding add_domains covers_domain found is_among find_parent
found-add_domains [] d = refl
found-add_domains (raw ∷ rest) d =
    found-unless d (normalize_domain raw) (add_domains rest) (covers_domain rest d)
      (found-add_domains rest d)

is_some-tests :
    (d : Bytes) (ds : List Bytes)
    → is_some (if is_empty d then none else if is_among d ds then some d else find_parent d ds)
      ≡ (not (is_empty d) && found d ds)
unfolding found
is_some-tests [] ds = refl
is_some-tests (c ∷ d) ds = is_some-if (is_among (c ∷ d) ds) (c ∷ d) (find_parent (c ∷ d) ds)

pub match_domain-add_domains :
    (raws : List Bytes) (raw : Bytes)
    → is_some (match_domain (add_domains raws) raw)
      ≡ (not (is_empty (normalize_domain raw)) && covers_domain raws (normalize_domain raw))
unfolding match_domain
match_domain-add_domains raws raw =
    let d = normalize_domain raw in
    is_some-tests d (add_domains raws) ∙ ap (λ b. not (is_empty d) && b) (found-add_domains raws d)
