-- ===== src/Analyzer/Http/Lines.antt =====
-- What analyzer/tcp/http.go reads of a request line, and of a message without headers.
use open_gfw_next.Base.{
  take-append_all, ℕ, ◌-◌, ◌≡◌, refl, ap, ◌∙◌, true, Option, none, some, [], ◌∷◌, ◌++◌, Bytes,
  arith, length, length-append, take,
}
use open_gfw_next.Utils.ByteBuffer.{ByteBuffer}
use open_gfw_next.Utils.ByteBuffer.Lines.{crlf, line_found}
use open_gfw_next.Utils.Strings.{codes, has_prefix}
use open_gfw_next.Utils.Strings.Split.{fields, fields_from}
use open_gfw_next.Utils.Strings.Words.{
  IsWord, Without, fields_word, one_field, IsWord-Without, Without-append,
}
use open_gfw_next.Utils.Lsm.{next, pause, cancel}
use open_gfw_next.Analyzer.Tls.Encode.{buffer}
use open_gfw_next.Analyzer.Http.{Request, request_of, request_line}

-- a request line: three words between spaces, none empty
abbrev pub line_of : ℕ → Bytes → ℕ → Bytes → ℕ → Bytes → Bytes
line_of a s b t c u = (a ∷ s) ++ (32 ∷ ((b ∷ t) ++ (32 ∷ (c ∷ u))))

three_fields :
    (a b c : ℕ) (s t u : Bytes)
    → IsWord (a ∷ s)
    → IsWord (b ∷ t)
    → IsWord (c ∷ u)
    → fields_from 0 [] (line_of a s b t c u) ≡ (a ∷ s) ∷ ((b ∷ t) ∷ ((c ∷ u) ∷ []))
unfolding fields_from
three_fields a b c s t u h k l =
    fields_word [] s a (32 ∷ ((b ∷ t) ++ (32 ∷ (c ∷ u)))) h
    ∙ ap (λ x. (a ∷ s) ∷ x)
        (fields_word [] t b (32 ∷ (c ∷ u)) k ∙ ap (λ x. (b ∷ t) ∷ x) (one_field u c l))

no_end :
    (a b c : ℕ) (s t u : Bytes)
    → IsWord (a ∷ s)
    → IsWord (b ∷ t)
    → IsWord (c ∷ u)
    → Without 13 (line_of a s b t c u)
no_end a b c s t u h k l =
    Without-append 13 (a ∷ s) _ (IsWord-Without (a ∷ s) h) (
      refl,
      Without-append 13 (b ∷ t) _ (IsWord-Without (b ∷ t) k) (refl, IsWord-Without (c ∷ u) l),
    )

request_lem :
    (m p v : Bytes)
    → has_prefix v (codes "HTTP/") ≡ true
    → request_of (m ∷ (p ∷ (v ∷ [])))
      ≡ some (record { method = m; path = p; version = v; headers = none })
unfolding request_of
request_lem m p v h = rw h refl

-- A request line of three ASCII words, the last an HTTP version, is read back as method, path and version,
-- and what follows it stays in the buffer.
pub request_line-line_of :
    (a b c : ℕ) (s t u rest : Bytes)
    → IsWord (a ∷ s)
    → IsWord (b ∷ t)
    → IsWord (c ∷ u)
    → has_prefix (c ∷ u) (codes "HTTP/") ≡ true
    → request_line (buffer (line_of a s b t c u ++ (13 ∷ (10 ∷ rest)))) ≡ (
      buffer rest,
      next,
      some (record { method = a ∷ s; path = b ∷ t; version = c ∷ u; headers = none }),
    )
unfolding request_line fields request_of
request_line-line_of a b c s t u rest h k l v =
    let line = line_of a s b t c u in
    let short : length (line ++ crlf) - 2 ≡ length line = omega (arith, length-append line crlf) in
    let read : fields (take (length (line ++ crlf) - 2) (line ++ crlf))
        ≡ (a ∷ s) ∷ ((b ∷ t) ∷ ((c ∷ u) ∷ [])) =
      ap (λ n. fields (take n (line ++ crlf))) short
      ∙ (ap fields (take-append_all line crlf) ∙ three_fields a b c s t u h k l) in
    ap
      (λ (r : ByteBuffer × Option Bytes). elim r.1 [
        | none ↦ (r.0, pause, none)
        | some x ↦ elim (request_of (fields (take (length x - 2) x))) [
          | none ↦ (r.0, cancel, none)
          | some m ↦ (r.0, next, some m)
        ]
      ])
      (line_found line rest (no_end a b c s t u h k l))
    ∙ ap
        (λ (x : Option Request). elim x [
          | none ↦ (buffer rest, cancel, none)
          | some m ↦ (buffer rest, next, some m)
        ])
        (ap request_of read ∙ request_lem (a ∷ s) (b ∷ t) (c ∷ u) v)
