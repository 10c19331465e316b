-- ===== src/Analyzer/Ssh/Lines.antt =====
-- Exchange lines that are written out as RFC 4253 says, and what analyzer/tcp/ssh.go reads.
use open_gfw_next.Base.{
  take-append_all, ℕ, ◌-◌, ◌≡◌, refl, ap, ◌∙◌, true, false, Option, none, some, [], ◌∷◌, ◌++◌,
  Bytes, arith, length, length-append,
}
use open_gfw_next.Utils.ByteBuffer.{ByteBuffer, is_prefix}
use open_gfw_next.Utils.Strings.{codes, is_empty, has_prefix}
use open_gfw_next.Utils.Strings.Split.{fields, fields_from, split_three}
use open_gfw_next.Utils.Lsm.{LsmAction, next, pause}
use open_gfw_next.Analyzer.Tls.Encode.{buffer}
use open_gfw_next.Utils.Strings.Words.{
  IsWord, Without, IsWord-append, fields_word, cut_lem, IsWord-Without, Without-append, one_field,
}
use open_gfw_next.Utils.ByteBuffer.Lines.{crlf, line_found}
use open_gfw_next.Analyzer.Ssh.{Exchange, exchange_of, parse_line, parse_exchange_line}

-- what a side sends: protocol and software version, and comments
abbrev pub words : Exchange → Bytes
words x = codes "SSH-" ++ (x.protocol ++ (45 ∷ x.software))

abbrev pub line_of : Exchange → Bytes
line_of x = elim (x.comments) [ none ↦ words x | some c ↦ words x ++ (32 ∷ c) ]

-- the parts are words, the protocol has no `-`, and there are no empty comments
pub record Fits (x : Exchange) : Type 0 where
  pub protocol_word : IsWord x.protocol
  pub protocol_plain : Without 45 x.protocol
  pub software_word : IsWord x.software
  pub comments_word : elim (x.comments) as (λ _. Type 0) [
    | none ↦ Unit {0}
    | some c ↦ IsWord c × (is_empty c ≡ false)
  ]

words-IsWord : (x : Exchange) → Fits x → IsWord (words x)
words-IsWord x fits = (
  refl,
  (
    refl,
    (
      refl,
      (
        refl,
        IsWord-append x.protocol (45 ∷ x.software) fits.protocol_word (refl, fits.software_word),
      ),
    ),
  ),
)

split_lem :
    (x : Exchange)
    → Fits x
    → split_three 45 (words x) ≡ codes "SSH" ∷ (x.protocol ∷ (x.software ∷ []))
unfolding split_three
split_lem x fits =
    rw
      (
        cut_lem 45 (codes "SSH") (x.protocol ++ (45 ∷ x.software)) (refl, (refl, (refl, tt))),
        split_three,
      )
      (rw (cut_lem 45 x.protocol x.software fits.protocol_plain) refl)

two_fields :
    (s t : Bytes) (c d : ℕ)
    → IsWord (c ∷ s)
    → IsWord (d ∷ t)
    → fields_from 0 [] ((c ∷ s) ++ (32 ∷ (d ∷ t))) ≡ (c ∷ s) ∷ ((d ∷ t) ∷ [])
unfolding fields_from
two_fields s t c d h k =
    fields_word [] s c (32 ∷ (d ∷ t)) h ∙ ap (λ x. (c ∷ s) ∷ x) (one_field t d k)

exchange_lem :
    (x : Exchange) (f : Bytes)
    → split_three 45 f ≡ codes "SSH" ∷ (x.protocol ∷ (x.software ∷ []))
    → (exchange_of (f ∷ []) ≡ some (record x { comments = none }))
      × ((d : Bytes) → exchange_of (f ∷ (d ∷ [])) ≡ some (record x { comments = some d }))
unfolding exchange_of
exchange_lem x f e = (rw e refl, λ d. rw e refl)

abbrev mk : Bytes → Bytes → Option Bytes → Exchange
mk p s o = record { protocol = p; software = s; comments = o }

body_lem :
    (p s : Bytes) (o : Option Bytes)
    → Fits (mk p s o)
    → exchange_of (fields (line_of (mk p s o))) ≡ some (mk p s o)
unfolding fields
body_lem p s none fits =
    let x = mk p s none in
    ap exchange_of (one_field (83 ∷ (72 ∷ (45 ∷ (p ++ (45 ∷ s))))) 83 (words-IsWord x fits))
    ∙ (exchange_lem x (words x) (split_lem x fits)).0
body_lem p s (some []) fits = absurd (ground (arith, fits.comments_word.1))
body_lem p s (some (d ∷ t)) fits =
    let x = mk p s (some (d ∷ t)) in
    ap exchange_of (
      two_fields (83 ∷ (72 ∷ (45 ∷ (p ++ (45 ∷ s))))) t 83 d (words-IsWord x fits)
        fits.comments_word.0)
    ∙ (exchange_lem x (words x) (split_lem x fits)).1 (d ∷ t)

starts_lem :
    (p s : Bytes) (o : Option Bytes) → has_prefix (line_of (mk p s o) ++ crlf) (codes "SSH-") ≡ true
unfolding has_prefix is_prefix
starts_lem p s none = refl
starts_lem p s (some c) = refl

no_end : (p s : Bytes) (o : Option Bytes) → Fits (mk p s o) → Without 13 (line_of (mk p s o))
no_end p s none fits = IsWord-Without (words (mk p s none)) (words-IsWord (mk p s none) fits)
no_end p s (some c) fits =
    let x = mk p s (some c) in
    Without-append 13 (words x) (32 ∷ c) (IsWord-Without (words x) (words-IsWord x fits))
      (refl, IsWord-Without c fits.comments_word.0)

parse_line_lem :
    (l : Bytes) (x : Exchange)
    → has_prefix (l ++ crlf) (codes "SSH-") ≡ true
    → exchange_of (fields l) ≡ some x
    → parse_line (l ++ crlf) ≡ (next, some x)
unfolding parse_line
parse_line_lem l x h e =
    let short : length (l ++ crlf) - 2 ≡ length l = omega (arith, length-append l crlf) in
    rw (h, short, take-append_all l crlf, e, parse_line) refl

-- An exchange line is read back: a line with a protocol version, a software version and perhaps a word
-- of comments gives these parts and leaves what follows it, if the parts are ASCII without spaces, the protocol
-- version no `-`, and the comments are not empty.
pub parse_exchange_line-line_of :
    (x : Exchange) (rest : Bytes)
    → Fits x
    → parse_exchange_line (buffer (line_of x ++ (13 ∷ (10 ∷ rest)))) ≡ (buffer rest, next, some x)
unfolding parse_exchange_line
parse_exchange_line-line_of x rest fits =
    let l = line_of x in
    let o = x.comments in
    let found = line_found l rest (no_end x.protocol x.software o fits) in
    let read =
      parse_line_lem l x (starts_lem x.protocol x.software o)
        (body_lem x.protocol x.software o fits) in
    ap
      (λ (r : ByteBuffer × Option Bytes). elim r.1 [
        | none ↦ (r.0, pause, none)
        | some t ↦ (r.0, (parse_line t).0, (parse_line t).1)
      ])
      found
    ∙ ap (λ (q : LsmAction × Option Exchange). (buffer rest, q.0, q.1)) read
