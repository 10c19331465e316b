-- ===== src/Analyzer/Tls/Listing.antt =====
-- The list of extensions at the end of a hello, written out, and how analyzer/internal/tls.go reads it.
use open_gfw_next.Base.{
  ℕ, zero, suc, ◌≤◌, ◌<◌, ◌≡◌, refl, ap, ◌∙◌, Option, none, some, List, [], ◌∷◌, ◌++◌, Bytes, arith,
  length, length-append,
}
use open_gfw_next.Utils.ByteBuffer.{ByteBuffer}
use open_gfw_next.Analyzer.Tls.{
  Read, value, malformed, no_fuel, ◌>>=◌, give, lift, ended, u16, sub_buffer, Extensions,
  no_extensions, parse_extension,
}
use open_gfw_next.Analyzer.Tls.Hello.{Found, next_extension, extensions, trailing}
use open_gfw_next.Analyzer.Tls.Encode.{
  buffer, u16_bytes, bind_value, sub_buffer_all, u16_lem, get_uint16_lem, sub_buffer_lem,
}

-- an extension: its type and its data
pub record Extension : Type 0 where
  pub kind : ℕ
  pub body : Bytes

abbrev pub kinds : List Extension → List ℕ
kinds [] = []
kinds (x ∷ xs) = x.kind ∷ kinds xs

unfoldable pub extensions_bytes : List Extension → Bytes
extensions_bytes [] = []
extensions_bytes (x ∷ xs) =
    u16_bytes x.kind ++ (u16_bytes (length x.body) ++ (x.body ++ extensions_bytes xs))

abbrev pub AllFit : List Extension → Type 0
AllFit [] = Unit {0}
AllFit (x ∷ xs) = (x.kind < 65536) × (length x.body < 65536) × AllFit xs

abbrev chain : {A B : Type 0} → Read A → (A → Read B) → Read B
chain (value a) f = f a
chain malformed f = malformed
chain no_fuel f = no_fuel

-- what the extensions set, one after the other
unfoldable pub apply_all : List Extension → Extensions → Read Extensions
apply_all [] e = value e
apply_all (x ∷ xs) e = chain (parse_extension x.kind (buffer x.body) e) (apply_all xs)

abbrev pub with_kinds : List ℕ → Read Extensions → ByteBuffer → Read (Found × ByteBuffer)
with_kinds ks (value e) b = value ((ks, e), b)
with_kinds ks malformed b = malformed
with_kinds ks no_fuel b = no_fuel

lifted_kind :
    (k : ℕ) (r : Read Extensions) (b : ByteBuffer)
    → (lift r >>= λ e'. give {A = Found} (k ∷ [], e')) b ≡ with_kinds (k ∷ []) r b
lifted_kind k (value e) b = refl
lifted_kind k malformed b = refl
lifted_kind k no_fuel b = refl

more_kinds :
    (k : ℕ) (ks : List ℕ) (r : Read Extensions) (b : ByteBuffer)
    → ((λ _. with_kinds ks r b) >>= λ g. give {A = Found} (k ∷ g.0, g.1)) b
      ≡ with_kinds (k ∷ ks) r b
more_kinds k ks (value e) b = refl
more_kinds k ks malformed b = refl
more_kinds k ks no_fuel b = refl

rest_kinds :
    (fuel k : ℕ) (xs : List Extension) (r : Read Extensions) (b : ByteBuffer)
    → ((e : Extensions) → extensions fuel e b ≡ with_kinds (kinds xs) (apply_all xs e) (buffer []))
    → ((λ _. with_kinds (k ∷ []) r b) >>= λ f.
          extensions fuel f.1 >>= λ g. give {A = Found} (f.0 ++ g.0, g.1))
        b
      ≡ with_kinds (k ∷ kinds xs) (chain r (apply_all xs)) (buffer [])
rest_kinds fuel k xs (value e) b ih =
    ap (λ q. ((λ _. q) >>= λ g. give {A = Found} (k ∷ g.0, g.1)) b) (ih e)
    ∙ more_kinds k (kinds xs) (apply_all xs e) (buffer [])
rest_kinds fuel k xs malformed b ih = refl
rest_kinds fuel k xs no_fuel b ih = refl

next_extension_lem :
    (x : Extension) (e : Extensions) (rest : Bytes)
    → x.kind < 65536
    → length x.body < 65536
    → next_extension e
        (buffer (u16_bytes x.kind ++ (u16_bytes (length x.body) ++ (x.body ++ rest))))
      ≡ with_kinds (x.kind ∷ []) (parse_extension x.kind (buffer x.body) e) (buffer rest)
unfolding next_extension
next_extension_lem x e rest h k =
    let tail1 = u16_bytes (length x.body) ++ (x.body ++ rest) in
    bind_value u16 _ (buffer (u16_bytes x.kind ++ tail1)) x.kind (buffer tail1)
      (u16_lem x.kind tail1 h)
    ∙ bind_value u16 _ (buffer tail1) (length x.body) (buffer (x.body ++ rest))
        (u16_lem (length x.body) (x.body ++ rest) k)
    ∙ bind_value (sub_buffer (length x.body)) _ (buffer (x.body ++ rest)) (buffer x.body)
        (buffer rest) (sub_buffer_lem x.body rest)
    ∙ lifted_kind x.kind (parse_extension x.kind (buffer x.body) e) (buffer rest)

extensions_lem :
    (fuel : ℕ) (xs : List Extension) (e : Extensions)
    → length (extensions_bytes xs) ≤ fuel
    → AllFit xs
    → extensions fuel e (buffer (extensions_bytes xs))
      ≡ with_kinds (kinds xs) (apply_all xs e) (buffer [])
unfolding extensions extensions_bytes apply_all
extensions_lem zero [] e h fit = refl
extensions_lem zero (x ∷ xs) e h fit = absurd (omega arith)
extensions_lem (suc fuel) [] e h fit = refl
extensions_lem (suc fuel) (x ∷ xs) e h fit =
    let rest = extensions_bytes xs in
    ap
      (λ q.
        ((λ _. q) >>= λ f. extensions fuel f.1 >>= λ g. give {A = Found} (f.0 ++ g.0, g.1))
          (buffer rest))
      (next_extension_lem x e rest fit.0 fit.1)
    ∙ rest_kinds fuel x.kind xs (parse_extension x.kind (buffer x.body) e) (buffer rest)
        (λ e'. extensions_lem fuel xs e' (omega (arith, length-append x.body rest)) fit.2)

settled :
    (ks : List ℕ) (r : Read Extensions) (b b' : ByteBuffer)
    → lift (ended (λ (f : Found × ByteBuffer). f.0) (with_kinds ks r b)) b' ≡ with_kinds ks r b'
settled ks (value e) b b' = refl
settled ks malformed b b' = refl
settled ks no_fuel b b' = refl

pub trailing_lem :
    (xs : List Extension)
    → AllFit xs
    → length (extensions_bytes xs) < 65536
    → trailing (buffer (u16_bytes (length (extensions_bytes xs)) ++ extensions_bytes xs))
      ≡ with_kinds (kinds xs) (apply_all xs no_extensions) (buffer [])
unfolding trailing
trailing_lem xs fit size =
    let list = extensions_bytes xs in
    ap
      (λ (r : ByteBuffer × Option ℕ). elim r.1 [
        | none ↦ value (([], no_extensions), r.0)
        | some n ↦
            (sub_buffer n >>= λ d.
            lift
              (ended (λ (f : Found × ByteBuffer). f.0) (extensions (length d.buf) no_extensions d)))
              r.0
      ])
      (get_uint16_lem (length list) list size)
    ∙ bind_value (sub_buffer (length list)) _ (buffer list) (buffer list) (buffer [])
        (sub_buffer_all list)
    ∙ ap (λ q. lift (ended (λ (r : Found × ByteBuffer). r.0) q) (buffer []))
        (extensions_lem (length list) xs no_extensions (omega arith) fit)
    ∙ settled (kinds xs) (apply_all xs no_extensions) (buffer []) (buffer [])
