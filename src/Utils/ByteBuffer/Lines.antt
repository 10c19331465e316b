-- ===== src/Utils/ByteBuffer/Lines.antt =====
-- `GetUntil` at the end of a line.
use open_gfw_next.Base.{
  ◌+◌, ◌≡◌, ◌∙◌, true, some, [], ◌∷◌, ◌++◌, append_assoc, Bytes, arith, length, length-append,
}
use open_gfw_next.Utils.ByteBuffer.{index, is_prefix, get_until}
use open_gfw_next.Utils.ByteBuffer.Search.{get_until_at}
use open_gfw_next.Utils.Strings.Words.{Without}
use open_gfw_next.Analyzer.Tls.Encode.{buffer, get_front}

index_lem :
    (s rest : Bytes)
    → Without 13 s
    → index (s ++ (13 ∷ (10 ∷ rest))) (13 ∷ (10 ∷ [])) ≡ some (length s)
unfolding index is_prefix
index_lem [] rest h = ground arith
index_lem (c ∷ s) rest h = ground (arith, h.0, index_lem s rest h.1)

abbrev pub crlf : Bytes
crlf = 13 ∷ (10 ∷ [])

pub line_found :
    (l rest : Bytes)
    → Without 13 l
    → get_until (buffer (l ++ (13 ∷ (10 ∷ rest)))) crlf true true ≡ (buffer rest, some (l ++ crlf))
line_found l rest h =
    let whole : (l ++ crlf) ++ rest ≡ l ++ (13 ∷ (10 ∷ rest)) = append_assoc l crlf rest in
    let reach : length (l ++ crlf) ≡ length l + 2 = omega (arith, length-append l crlf) in
    get_until_at (buffer (l ++ (13 ∷ (10 ∷ rest)))) crlf true true (length l) (index_lem l rest h)
    ∙ rw (whole, reach) at (get_front (l ++ crlf) rest)
