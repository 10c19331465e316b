-- ===== src/Tests/Http.antt =====
-- HTTP requests at concrete inputs.
use open_gfw_next.Base.{◌≡◌, refl, none, some, [], ◌∷◌, ◌++◌, Bytes}
use open_gfw_next.Utils.ByteBuffer.{is_prefix, get_until, index}
use open_gfw_next.Utils.Strings.{codes, has_prefix}
use open_gfw_next.Utils.Lsm.{next, pause}
use open_gfw_next.Analyzer.Tls.Encode.{buffer}
use open_gfw_next.Analyzer.Http.{request_line, parse_headers}
use open_gfw_next.Analyzer.Http.Lines.{line_of, request_line-line_of}

-- the version HTTP/1
abbrev http1 : Bytes
http1 = codes "TTP/1"

request_line-line_of_example :
    request_line (buffer (line_of 71 (codes "ET") 47 [] 72 http1 ++ (13 ∷ (10 ∷ (7 ∷ []))))) ≡ (
      buffer (7 ∷ []),
      next,
      some (record {
        method = codes "GET";
        path = codes "/";
        version = codes "HTTP/1";
        headers = none;
      }),
    )
unfolding is_prefix has_prefix
request_line-line_of_example =
    request_line-line_of 71 47 72 (codes "ET") [] http1 (7 ∷ []) (refl, (refl, (refl, tt)))
      (refl, tt) (refl, (refl, (refl, (refl, (refl, (refl, tt)))))) refl

-- one header
headers_run :
    parse_headers (buffer (codes "Host: a" ++ (13 ∷ (10 ∷ (13 ∷ (10 ∷ []))))))
    ≡ (buffer [], next, some ((codes "host", codes "a") ∷ []))
unfolding parse_headers is_prefix get_until index
headers_run = refl

-- the end of a message without headers is waited for in vain
no_headers_run : parse_headers (buffer (13 ∷ (10 ∷ []))) ≡ (buffer (13 ∷ (10 ∷ [])), pause, none)
unfolding parse_headers is_prefix get_until index
no_headers_run = refl
