-- ===== src/Analyzer/Http.antt =====
-- analyzer/tcp/http.go. `none` for a map is nil. strconv.Atoi is the parameter `atoi`, into the numbers
-- `N`, `none` where it returns 0; a header map is a list of keys and values, each key once.
pub mod Lines
pub mod Stream
use open_gfw_next.Base.{
  ℕ, suc, ◌-◌, Bool, true, false, not, ◌&&◌, ◌||◌, Option, none, some, List, [], ◌∷◌, ◌++◌, Bytes,
  ◌==◌, if◌then◌else◌, length, take,
}
use open_gfw_next.Utils.ByteBuffer
use open_gfw_next.Utils.ByteBuffer.{ByteBuffer}
use open_gfw_next.Utils.Strings.{codes, has_prefix, same_text, to_lower, trim_space}
use open_gfw_next.Utils.Strings.Split.{fields, cut}
use open_gfw_next.Utils.Lsm
use open_gfw_next.Utils.Lsm.{Lsm, Ran, Outcome, LsmAction, pause, next, cancel}
use open_gfw_next.Utils.Lsm.Total.{ahead}

abbrev pub Headers : Type 0
Headers = List (Bytes × Bytes)

-- the maps of a request and of a response
pub record Request : Type 0 where
  pub method : Bytes
  pub path : Bytes
  pub version : Bytes
  pub headers : Option Headers

pub record Response (N : Type 0) : Type 0 where
  pub version : Bytes
  pub status : N
  pub headers : Option Headers

-- headerMap[key] = value
unfoldable pub put_header : Bytes → Bytes → Headers → Headers
unfolding same_text
put_header key value [] = (key, value) ∷ []
put_header key value (e ∷ es) =
    let rest = put_header key value es in if same_text e.0 key then (key, value) ∷ es else e ∷ rest

abbrev add_line : Bytes → List Bytes → List Bytes
add_line c [] = c ∷ []
add_line c (l ∷ ls) = (c ++ l) ∷ ls

-- bytes.Split by CR LF
unfoldable pub split_lines : Bytes → List Bytes
split_lines [] = [] ∷ []
split_lines (c ∷ []) = (c ∷ []) ∷ []
split_lines (c ∷ (d ∷ s)) =
    let after_end = split_lines s in
    let after_one = split_lines (d ∷ s) in
    if c == 13 && d == 10 then [] ∷ after_end else add_line (c ∷ []) after_one

-- the loop over the lines; `none` for a line without a colon
unfoldable pub header_lines : List Bytes → Headers → Option Headers
unfolding cut put_header to_lower trim_space
header_lines [] m = some m
header_lines (l ∷ ls) m = elim (cut 58 l) [
  | none ↦ none
  | some (key, value) ↦
      header_lines ls (put_header (to_lower (trim_space key)) (trim_space value) m)
]

-- parseHeaders: the buffer that is left, the action and the map
unfoldable pub parse_headers : ByteBuffer → ByteBuffer × LsmAction × Option Headers
unfolding split_lines header_lines
parse_headers b =
    let (b', headers) = ByteBuffer.get_until b (13 ∷ (10 ∷ (13 ∷ (10 ∷ [])))) true true in
    elim headers [
      | none ↦ (b', pause, none)
      | some h ↦ elim (header_lines (split_lines (take (length h - 4) h)) []) [
        | none ↦ (b', cancel, none)
        | some m ↦ (b', next, some m)
      ]
    ]

-- three fields, the last an HTTP version
unfoldable pub request_of : List Bytes → Option Request
unfolding has_prefix
request_of (method ∷ (path ∷ (version ∷ []))) =
    if has_prefix version (codes "HTTP/")
    then some (record { method = method; path = path; version = version; headers = none })
    else none
request_of _ = none

-- parseRequestLine, on the buffer
unfoldable pub request_line : ByteBuffer → ByteBuffer × LsmAction × Option Request
unfolding request_of fields
request_line b =
    let (b', line) = ByteBuffer.get_until b (13 ∷ (10 ∷ [])) true true in
    elim line [
      | none ↦ (b', pause, none)
      | some l ↦ elim (request_of (fields (take (length l - 2) l))) [
        | none ↦ (b', cancel, none)
        | some m ↦ (b', next, some m)
      ]
    ]

module _ {N : Type 0} (atoi : Bytes → Option N) where
  -- at least two fields, the first an HTTP version and the second a number that is not 0
  unfoldable pub response_of : List Bytes → Option (Response N)
  unfolding has_prefix
  response_of (version ∷ (status ∷ rest)) = elim (atoi status) [
    | none ↦ none
    | some n ↦
        if has_prefix version (codes "HTTP/")
        then some (record { version = version; status = n; headers = none })
        else none
  ]
  response_of _ = none

  -- parseResponseLine, on the buffer
  unfoldable pub response_line : ByteBuffer → ByteBuffer × LsmAction × Option (Response N)
  unfolding response_of fields
  response_line b =
      let (b', line) = ByteBuffer.get_until b (13 ∷ (10 ∷ [])) true true in
      elim line [
        | none ↦ (b', pause, none)
        | some l ↦ elim (response_of (fields (take (length l - 2) l))) [
          | none ↦ (b', cancel, none)
          | some m ↦ (b', next, some m)
        ]
      ]
