-- ===== src/Analyzer/Socks/Domains.antt =====
-- A SOCKS5 request of analyzer/tcp/socks.go for a domain name, and a response that tells one.
use open_gfw_next.Base.{
  drop-append_past, take-append_all, ℕ, ◌+◌, ◌-◌, ◌*◌, ◌%◌, ◌<◌, ◌≡◌, refl, ap, ◌∙◌, true, false,
  some, List, [], ◌∷◌, ◌++◌, Bytes, arith, zero-add, suc-add, length, take, drop, get_or,
  Bool-cases, inl, inr, length-append, ltb, if◌then◌else◌,
}
use open_gfw_next.Utils.ByteBuffer.{get, at}
use open_gfw_next.Utils.Lsm.{next, cancel}
use open_gfw_next.Engine.Props.{insert}
use open_gfw_next.Analyzer.Socks.{Stream, Does, answer, number, text}
use open_gfw_next.Analyzer.Socks.Responses.{parse_resp_conn_info, take_response}
use open_gfw_next.Analyzer.Socks.Requests.{
  parse_req_conn_info, take_request, destination, found, out_of_range, packet_length, is_command,
  put_destination, port_of,
}

module _ {ℓ} {A : Type ℓ} where
  take-append_past : (xs ys : List A) (k : ℕ) → take (length xs + k) (xs ++ ys) ≡ xs ++ take k ys
  take-append_past [] ys k = rw (zero-add k) refl
  take-append_past (x ∷ xs) ys k =
      rw (suc-add (length xs) k) (ap (λ zs. x ∷ zs) (take-append_past xs ys k))

  get_or-append_past :
      (xs ys : List A) (k : ℕ) (d : A) → get_or (xs ++ ys) (length xs + k) d ≡ get_or ys k d
  get_or-append_past [] ys k d = rw (zero-add k) refl
  get_or-append_past (x ∷ xs) ys k d = rw (suc-add (length xs) k) (get_or-append_past xs ys k d)

-- the request's bytes: version, command, reserved byte, kind and length of the address, and the rest
abbrev pub framed : ℕ → ℕ → Bytes → Bytes → Bytes
framed cmd rsv domain tail = 5 ∷ (cmd ∷ (rsv ∷ (3 ∷ (length domain ∷ (domain ++ tail)))))

abbrev pub with_request : Stream → Bytes → Stream
with_request s bytes = record s { req_buf = record { buf = bytes } }

-- such a request up to the end of the address
abbrev head_of : ℕ → ℕ → Bytes → Bytes
head_of cmd rsv domain = 5 ∷ (cmd ∷ (rsv ∷ (3 ∷ (length domain ∷ domain))))

get-framed :
    (cmd rsv hi lo : ℕ) (domain rest : Bytes)
    → get (record { buf = framed cmd rsv domain (hi ∷ (lo ∷ rest)) }) (7 + length domain) true
      ≡ (record { buf = rest }, some (framed cmd rsv domain (hi ∷ (lo ∷ []))))
unfolding get
get-framed cmd rsv hi lo domain rest =
    let head = head_of cmd rsv domain in
    let tail = hi ∷ (lo ∷ rest) in
    let size : 7 + length domain ≡ length head + 2 = omega arith in
    let taken = ap (λ n. take n (head ++ tail)) size ∙ take-append_past head tail 2 in
    let dropped = ap (λ n. drop n (head ++ tail)) size ∙ drop-append_past head tail 2 in
    ground (arith, taken, dropped, length-append domain tail)

port_of-framed :
    (cmd rsv hi lo : ℕ) (domain : Bytes)
    → port_of (framed cmd rsv domain (hi ∷ (lo ∷ []))) (7 + length domain) ≡ hi * 256 + lo
port_of-framed cmd rsv hi lo domain =
    let head = head_of cmd rsv domain in
    let tail = hi ∷ (lo ∷ []) in
    let before : 7 + length domain - 2 ≡ length head + 0 = omega arith in
    let last : 7 + length domain - 1 ≡ length head + 1 = omega arith in
    let first = ap (λ n. at (head ++ tail) n) before ∙ get_or-append_past head tail 0 0 in
    let second = ap (λ n. at (head ++ tail) n) last ∙ get_or-append_past head tail 1 0 in
    ground (arith, first, second)

destination-framed :
    (cmd rsv : ℕ) (domain tail : Bytes)
    → length domain < 256
    → destination (framed cmd rsv domain tail)
      ≡ (if ltb 250 (length domain) then out_of_range else found (text domain))
unfolding destination
destination-framed cmd rsv domain tail h = elim (Bool-cases (ltb 250 (length domain))) [
  | inl y ↦ ground (arith, y)
  | inr n ↦
      let wrap : (5 + length domain) % 256 - 5 ≡ length domain = ground (arith, n) in
      let cut = ap (λ n. take n (domain ++ tail)) wrap ∙ take-append_all domain tail in
      ground (arith, n, cut)
]

-- the first look at the request
get_five :
    (cmd rsv : ℕ) (domain tail : Bytes)
    → (get (record { buf = framed cmd rsv domain tail }) 5 false).1
      ≡ some (5 ∷ (cmd ∷ (rsv ∷ (3 ∷ (length domain ∷ [])))))
unfolding get
get_five cmd rsv domain tail = ground arith

packet_length_domain :
    (cmd rsv n : ℕ) → packet_length (5 ∷ (cmd ∷ (rsv ∷ (3 ∷ (n ∷ []))))) ≡ some (7 + n)
unfolding packet_length
packet_length_domain cmd rsv n = refl

-- what is made of the request once it is taken off the buffer
abbrev pub read_domain : Stream → ℕ → Bytes → ℕ → Does
read_domain s cmd domain port =
    let m = insert "cmd" (number cmd) s.req_map in
    if ltb 250 (length domain)
    then answer (record s { req_map = m; panicked = true }) cancel
    else answer (record s { req_map = put_destination 3 (text domain) port m; req_updated = true })
        next

take_request-framed :
    (s : Stream) (cmd rsv hi lo : ℕ) (domain : Bytes)
    → is_command cmd ≡ true
    → length domain < 256
    → take_request s (7 + length domain) (framed cmd rsv domain (hi ∷ (lo ∷ [])))
      ≡ read_domain s cmd domain (hi * 256 + lo)
unfolding take_request
take_request-framed s cmd rsv hi lo domain c h = ground (
  arith,
  c,
  port_of-framed cmd rsv hi lo domain,
  destination-framed cmd rsv domain (hi ∷ (lo ∷ [])) h,
)

-- A request with a known command for a domain name of at most 250 bytes, whose bytes have all
-- arrived, is read as its command, name and port, and what follows stays in the buffer. For a name of 251 to 255 bytes the
-- end of the slice, a byte, wraps around to less than its start, and the step panics.
pub parse_req_conn_info-domain :
    (s : Stream) (cmd rsv hi lo : ℕ) (domain rest : Bytes)
    → is_command cmd ≡ true
    → length domain < 256
    → parse_req_conn_info (with_request s (framed cmd rsv domain (hi ∷ (lo ∷ rest))))
      ≡ read_domain (with_request s rest) cmd domain (hi * 256 + lo)
unfolding parse_req_conn_info
parse_req_conn_info-domain s cmd rsv hi lo domain rest c h = ground (
  arith,
  get_five cmd rsv domain (hi ∷ (lo ∷ rest)),
  packet_length_domain cmd rsv (length domain),
  get-framed cmd rsv hi lo domain rest,
  take_request-framed (with_request s rest) cmd rsv hi lo domain c h,
)

abbrev pub with_response : Stream → Bytes → Stream
with_response s bytes = record s { resp_buf = record { buf = bytes } }

-- what is made of the response once it is taken off the buffer
abbrev pub bound_domain : Stream → ℕ → Bytes → ℕ → Does
bound_domain s rep domain port =
    let m = insert "rep" (number rep) s.resp_map in
    if ltb 250 (length domain)
    then answer (record s { resp_map = m; panicked = true }) cancel
    else answer
        (record s { resp_map = put_destination 3 (text domain) port m; resp_updated = true }) next

take_response-framed :
    (s : Stream) (rep rsv hi lo : ℕ) (domain : Bytes)
    → length domain < 256
    → take_response s (7 + length domain) (framed rep rsv domain (hi ∷ (lo ∷ [])))
      ≡ bound_domain s rep domain (hi * 256 + lo)
unfolding take_response
take_response-framed s rep rsv hi lo domain h = ground (
  arith,
  port_of-framed rep rsv hi lo domain,
  destination-framed rep rsv domain (hi ∷ (lo ∷ [])) h,
)

-- A response with any reply code and a domain name of at most 250 bytes, whose bytes have all
-- arrived, is read as its code, name and port, and what follows stays in the buffer. For a name of
-- 251 to 255 bytes the step panics, as for a request.
pub parse_resp_conn_info-domain :
    (s : Stream) (rep rsv hi lo : ℕ) (domain rest : Bytes)
    → length domain < 256
    → parse_resp_conn_info (with_response s (framed rep rsv domain (hi ∷ (lo ∷ rest))))
      ≡ bound_domain (with_response s rest) rep domain (hi * 256 + lo)
unfolding parse_resp_conn_info
parse_resp_conn_info-domain s rep rsv hi lo domain rest h = ground (
  arith,
  get_five rep rsv domain (hi ∷ (lo ∷ rest)),
  packet_length_domain rep rsv (length domain),
  get-framed rep rsv hi lo domain rest,
  take_response-framed (with_response s rest) rep rsv hi lo domain h,
)
