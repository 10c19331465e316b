-- ===== src/Analyzer/Socks.antt =====
-- analyzer/tcp/socks.go: the stream, and the steps of its two machines. A panic of a step sets
-- `panicked` and ends the run, and `Feed` panics then. The entries of the property
-- maps are constructors of `Value`; an address is kept as its bytes, which net.IP prints.
pub mod Requests
pub mod Responses
pub mod Feed
pub mod Total
pub mod Domains
use open_gfw_next.Base.{
  ℕ, ◌+◌, ◌-◌, ◌*◌, ◌%◌, Bool, true, false, not, ◌&&◌, ◌||◌, Option, none, some, List, [], ◌∷◌,
  Bytes, ltb, leb, ◌==◌, if◌then◌else◌, length, take, drop,
}
use open_gfw_next.Utils.ByteBuffer
use open_gfw_next.Utils.ByteBuffer.{ByteBuffer, at}
use open_gfw_next.Utils.Lsm.{Outcome, LsmAction, pause, next, cancel}
use open_gfw_next.Engine.Props.{PropMap, insert}

-- SocksInvalid, Socks4, Socks4A and Socks5
pub data Version : Type 0 where
  socks_invalid socks4 socks4a socks5 : Version

-- what the maps hold
pub data Value : Type 0 where
  number : ℕ → Value
  address : Bytes → Value
  text : Bytes → Value
  auth_method : ℕ → Value
  auth_login : ℕ → Bytes → Bytes → Value
  auth_status : ℕ → ℕ → Value
  auth_user_id : Bytes → Value

-- socksStream, less its machines; `auth_username` and `auth_password` are only in the map
pub record Stream : Type 0 where
  pub req_buf : ByteBuffer
  pub req_map : PropMap Value
  pub req_updated : Bool
  pub resp_buf : ByteBuffer
  pub resp_map : PropMap Value
  pub resp_updated : Bool
  pub version : Version
  pub auth_req_method : ℕ
  pub auth_resp_method : ℕ
  pub panicked : Bool

-- the steps by name
pub data Step : Type 0 where
  req_version ip_and_port user_id hostname req_method req_auth req_conn_info : Step
  resp_version resp_packet resp_method resp_auth resp_conn_info : Step

abbrev pub Does : Type 0
Does = Outcome Step Stream

abbrev pub answer : Stream → LsmAction → Does
answer s a = record { state = s; appended = []; action = a }

-- the slice bytes[from : to] of bounds in range
abbrev pub slice : Bytes → ℕ → ℕ → Bytes
slice bytes from to = take (to - from) (drop from bytes)

abbrev is_socks4 : Version → Bool
is_socks4 socks4 = true
is_socks4 socks4a = true
is_socks4 _ = false

abbrev pub is_socks4a : Version → Bool
is_socks4a socks4a = true
is_socks4a _ = false

abbrev is_socks5 : Version → Bool
is_socks5 socks5 = true
is_socks5 _ = false

-- parseSocksReqVersion
unfoldable pub parse_req_version : Stream → Does
parse_req_version s =
    let (b, o) = ByteBuffer.get_byte s.req_buf true in
    let s' : Stream = record s { req_buf = b } in
    let begun : Stream = record s' { req_map = []; req_updated = true } in
    elim o [
      | none ↦ answer s' pause
      | some v ↦
          if not (v == 4) && not (v == 5)
          then answer s' cancel
          else if v == 4
          then record {
            state = record begun { version = socks4 };
            appended = ip_and_port ∷ (user_id ∷ (hostname ∷ []));
            action = next;
          }
          else record {
            state = record begun { version = socks5 };
            appended = req_method ∷ (req_auth ∷ (req_conn_info ∷ []));
            action = next;
          }
    ]

-- parseSocksRespVersion
unfoldable pub parse_resp_version : Stream → Does
parse_resp_version s =
    let (b, o) = ByteBuffer.get_byte s.resp_buf true in
    let s' : Stream = record s { resp_buf = b } in
    elim o [
      | none ↦ answer s' pause
      | some v ↦
          if is_socks4 s.version && not (v == 0)
            || (is_socks5 s.version && not (v == 5))
            || not (is_socks4 s.version || is_socks5 s.version)
          then answer s' cancel
          else if v == 0
          then record { state = s'; appended = resp_packet ∷ []; action = next }
          else record {
            state = s';
            appended = resp_method ∷ (resp_auth ∷ (resp_conn_info ∷ []));
            action = next;
          }
    ]

-- the loop over the methods that the client offers
unfoldable pub first_method : Bytes → ℕ
first_method [] = 255
first_method (m ∷ ms) =
    let later = first_method ms in if m == 0 then 0 else if m == 2 then 2 else later

-- parseSocks5ReqMethod
unfoldable pub parse_req_method : Stream → Does
parse_req_method s =
    let (b, count) = ByteBuffer.get_byte s.req_buf false in
    elim count [
      | none ↦ answer s pause
      | some n ↦
          let (b', o) = ByteBuffer.get s.req_buf (n + 1) true in
          elim o [
            | none ↦ answer s pause
            | some bytes ↦
                answer (record s { req_buf = b'; auth_req_method = first_method (drop 1 bytes) })
                  next
          ]
    ]
