-- ===== src/Analyzer/Socks/Responses.antt =====
-- analyzer/tcp/socks.go: the steps on what the server sends, after the version.
use open_gfw_next.Base.{
  ℕ, ◌+◌, ◌*◌, true, false, not, ◌||◌, none, some, [], ◌∷◌, Bytes, ltb, ◌==◌, if◌then◌else◌,
}
use open_gfw_next.Utils.ByteBuffer
use open_gfw_next.Utils.ByteBuffer.{ByteBuffer, at}
use open_gfw_next.Utils.Lsm.{pause, next, cancel}
use open_gfw_next.Engine.Props.{insert}
use open_gfw_next.Analyzer.Socks.{
  Stream, Does, answer, slice, Value, number, address, auth_method, auth_status,
}
use open_gfw_next.Analyzer.Socks.Requests.{
  packet_length, destination, found, unknown, out_of_range, put_destination, port_of,
}

-- parseSocks5RespMethod
unfoldable pub parse_resp_method : Stream → Does
parse_resp_method s =
    let (b, o) = ByteBuffer.get s.resp_buf 1 true in
    elim o [
      | none ↦ answer s pause
      | some bytes ↦
          answer (record s { resp_buf = b; auth_resp_method = at bytes 0; resp_map = [] }) next
    ]

-- parseSocks5RespAuth
unfoldable pub parse_resp_auth : Stream → Does
parse_resp_auth s =
    let method = s.auth_resp_method in
    let told : Value → Does =
      λ v. answer (record s { resp_map = insert "auth" v s.resp_map; resp_updated = true }) next in
    let (b, o) = ByteBuffer.get s.resp_buf 2 true in
    if method == 0
    then told (auth_method method)
    else if not (method == 2)
    then answer s cancel
    else elim o [
      | none ↦ answer s pause
      | some bytes ↦
          let s' : Stream = record s { resp_buf = b } in
          let status : Value = auth_status method (at bytes 1) in
          if not (at bytes 0 == 1)
          then answer s' cancel
          else answer
              (record s' { resp_map = insert "auth" status s.resp_map; resp_updated = true }) next
    ]

-- the end of parseSocks5RespConnInfo, on the whole packet
unfoldable pub take_response : Stream → ℕ → Bytes → Does
unfolding destination
take_response s n bytes =
    let m = insert "rep" (number (at bytes 1)) s.resp_map in
    elim (destination bytes) [
      | unknown ↦ answer (record s { resp_map = m }) cancel
      | out_of_range ↦ answer (record s { resp_map = m; panicked = true }) cancel
      | found v ↦
          answer
            (record s {
              resp_map = put_destination (at bytes 3) v (port_of bytes n) m;
              resp_updated = true;
            })
            next
    ]

-- parseSocks5RespConnInfo
unfoldable pub parse_resp_conn_info : Stream → Does
unfolding take_response packet_length
parse_resp_conn_info s = elim (ByteBuffer.get s.resp_buf 5 false).1 [
  | none ↦ answer s pause
  | some pre ↦ if not (at pre 0 == 5) then answer s cancel else elim (packet_length pre) [
    | none ↦ answer s cancel
    | some n ↦
        let (b, o) = ByteBuffer.get s.resp_buf n true in
        elim o [
          | none ↦ answer s pause
          | some bytes ↦ take_response (record s { resp_buf = b }) n bytes
        ]
  ]
]

-- parseSocks4RespPacket
unfoldable pub parse_resp_packet : Stream → Does
parse_resp_packet s =
    let (b, o) = ByteBuffer.get s.resp_buf 7 true in
    let s' : Stream = record s { resp_buf = b } in
    elim o [
      | none ↦ answer s pause
      | some bytes ↦
          let port = at bytes 1 * 256 + at bytes 2 in
          let dst : Value = address (slice bytes 3 7) in
          if ltb (at bytes 0) 90 || ltb 93 (at bytes 0)
          then answer s' cancel
          else answer
              (record s' {
                resp_map = put_destination 1 dst port (("rep", number (at bytes 0)) ∷ []);
                resp_updated = true;
              })
              next
    ]
