-- ===== src/Analyzer/Socks/Requests.antt =====
-- analyzer/tcp/socks.go: the steps on what the client sends, after the version.
use open_gfw_next.Base.{
  ℕ, ◌+◌, ◌-◌, ◌*◌, ◌%◌, Bool, true, false, not, ◌&&◌, ◌||◌, Option, none, some, [], ◌∷◌, Bytes,
  ltb, ◌==◌, if◌then◌else◌, length, take, drop,
}
use open_gfw_next.Utils.ByteBuffer
use open_gfw_next.Utils.ByteBuffer.{ByteBuffer, at}
use open_gfw_next.Utils.Lsm.{pause, next, cancel}
use open_gfw_next.Engine.Props.{PropMap, insert}
use open_gfw_next.Analyzer.Socks.{
  Stream, Does, answer, slice, Value, number, address, text, auth_method, auth_login, auth_user_id,
  socks4a, is_socks4a,
}

-- parseSocks5ReqAuth
unfoldable pub parse_req_auth : Stream → Does
parse_req_auth s =
    if s.auth_req_method == 0
    then answer
        (record s {
          req_map = insert "auth" (auth_method s.auth_req_method) s.req_map;
          req_updated = true;
        })
        next
    else if not (s.auth_req_method == 2)
    then answer s cancel
    else elim (ByteBuffer.get s.req_buf 2 false).1 [
      | none ↦ answer s pause
      | some two ↦
          let user = at two 1 in
          if not (at two 0 == 1)
          then answer s cancel
          else elim (ByteBuffer.get s.req_buf (user + 3) false).1 [
            | none ↦ answer s pause
            | some more ↦
                let (b, o) = ByteBuffer.get s.req_buf (user + at more (user + 2) + 3) true in
                elim o [
                  | none ↦ answer s pause
                  | some all ↦
                      let login : Value =
                        auth_login s.auth_req_method (slice all 2 (user + 2))
                          (drop (user + 3) all) in
                      answer
                        (record s {
                          req_buf = b;
                          req_map = insert "auth" login s.req_map;
                          req_updated = true;
                        })
                        next
                ]
          ]
    ]

-- the length of the packet that tells a destination, from its first five bytes
unfoldable pub packet_length : Bytes → Option ℕ
packet_length pre =
    if at pre 3 == 1
    then some 10
    else if at pre 3 == 3
    then some (7 + at pre 4)
    else if at pre 3 == 4
    then some 22
    else none

-- the destination in such a packet, or the panic of a slice whose end, a byte, has wrapped around
pub data Destination : Type 0 where
  found : Value → Destination
  unknown out_of_range : Destination

unfoldable pub destination : Bytes → Destination
destination bytes =
    let to = (5 + at bytes 4) % 256 in
    if at bytes 3 == 1
    then found (address (slice bytes 4 8))
    else if at bytes 3 == 3
    then (if ltb to 5 then out_of_range else found (text (slice bytes 5 to)))
    else if at bytes 3 == 4
    then found (address (slice bytes 4 20))
    else unknown

abbrev pub is_command : ℕ → Bool
is_command n = n == 1 || (n == 2) || n == 3

abbrev pub port_of : Bytes → ℕ → ℕ
port_of bytes n = at bytes (n - 2) * 256 + at bytes (n - 1)

abbrev pub put_destination : ℕ → Value → ℕ → PropMap Value → PropMap Value
put_destination kind v port m =
    insert "port" (number port) (insert "addr" v (insert "addr_type" (number kind) m))

-- the end of parseSocks5ReqConnInfo, on the whole packet
unfoldable pub take_request : Stream → ℕ → Bytes → Does
unfolding destination
take_request s n bytes =
    let m = insert "cmd" (number (at bytes 1)) s.req_map in
    if not (is_command (at bytes 1)) then answer s cancel else elim (destination bytes) [
      | unknown ↦ answer (record s { req_map = m }) cancel
      | out_of_range ↦ answer (record s { req_map = m; panicked = true }) cancel
      | found v ↦
          answer
            (record s {
              req_map = put_destination (at bytes 3) v (port_of bytes n) m;
              req_updated = true;
            })
            next
    ]

-- parseSocks5ReqConnInfo
unfoldable pub parse_req_conn_info : Stream → Does
unfolding take_request packet_length
parse_req_conn_info s = elim (ByteBuffer.get s.req_buf 5 false).1 [
  | none ↦ answer s pause
  | some pre ↦ if not (at pre 0 == 5) then answer s cancel else elim (packet_length pre) [
    | none ↦ answer s cancel
    | some n ↦
        let (b, o) = ByteBuffer.get s.req_buf n true in
        elim o [
          | none ↦ answer s pause
          | some bytes ↦ take_request (record s { req_buf = b }) n bytes
        ]
  ]
]

-- parseSocks4ReqIpAndPort
unfoldable pub parse_ip_and_port : Stream → Does
parse_ip_and_port s =
    let (b, o) = ByteBuffer.get s.req_buf 7 true in
    let s' : Stream = record s { req_buf = b } in
    elim o [
      | none ↦ answer s pause
      | some bytes ↦
          let extended = at bytes 3 == 0 && (at bytes 4 == 0) && at bytes 5 == 0 in
          let m = insert "cmd" (number (at bytes 0)) s.req_map in
          let port = at bytes 1 * 256 + at bytes 2 in
          let dst : Value = address (slice bytes 3 7) in
          if not (at bytes 0 == 1) && not (at bytes 0 == 2)
          then answer s' cancel
          else answer
              (record s' {
                version = if extended then socks4a else s.version;
                req_map = put_destination 1 dst port m;
                req_updated = true;
              })
              next
    ]

-- the string before a terminating zero byte
abbrev pub get_string : ByteBuffer → ByteBuffer × Option Bytes
get_string b = ByteBuffer.get_until b (0 ∷ []) true true

abbrev pub unterminated : Bytes → Bytes
unterminated bytes = take (length bytes - 1) bytes

-- parseSocks4ReqUserId
unfoldable pub parse_user_id : Stream → Does
parse_user_id s =
    let (b, o) = get_string s.req_buf in
    elim o [
      | none ↦ answer s pause
      | some bytes ↦
          answer
            (record s {
              req_buf = b;
              req_map = insert "auth" (auth_user_id (unterminated bytes)) s.req_map;
              req_updated = true;
            })
            next
    ]

-- parseSocks4ReqHostname
unfoldable pub parse_hostname : Stream → Does
parse_hostname s =
    let (b, o) = get_string s.req_buf in
    let pending = answer s pause in
    let named : Bytes → Does = λ bytes.
      answer
        (record s {
          req_buf = b;
          req_map =
              insert "addr_type" (number 3) (insert "addr" (text (unterminated bytes)) s.req_map);
          req_updated = true;
        })
        next in
    if not (is_socks4a s.version)
    then answer s next
    else elim o [ none ↦ pending | some bytes ↦ named bytes ]
