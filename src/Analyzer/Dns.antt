-- ===== src/Analyzer/Dns.antt =====
-- analyzer/udp/dns.go: the map of a message and the UDP stream. gopacket's decoder is the parameter
-- `decode`, and `net.IP`'s String is `ip_string`; the records hold the fields that the code reads.
pub mod Stream
pub mod Reads
pub mod Feeds
pub mod Chunks
pub mod Udp
use open_gfw_next.Base.{
  ℕ, suc, Bool, true, false, Option, none, some, String, List, [], ◌∷◌, ◌++◌, Bytes, map, leb, ◌==◌,
  if◌then◌else◌,
}
use open_gfw_next.Engine.Props.{PropMap}

abbrev pub invalid_count_threshold : ℕ
invalid_count_threshold = 4

-- layers.DNSQuestion
pub record Question : Type 0 where
  pub name : Bytes
  pub kind : ℕ
  pub class : ℕ

-- layers.DNSResourceRecord
pub record ResourceRecord : Type 0 where
  pub name : Bytes
  pub kind : ℕ
  pub class : ℕ
  pub ttl : ℕ
  pub ip : Bytes
  pub ns : Bytes
  pub cname : Bytes
  pub ptr : Bytes
  pub txts : List Bytes
  pub mx_name : Bytes

-- layers.DNS
pub record Dns : Type 0 where
  pub id : ℕ
  pub qr : Bool
  pub opcode : ℕ
  pub aa : Bool
  pub tc : Bool
  pub rd : Bool
  pub ra : Bool
  pub z : ℕ
  pub response_code : ℕ
  pub questions : List Question
  pub answers : List ResourceRecord
  pub authorities : List ResourceRecord
  pub additionals : List ResourceRecord

-- the values of the inner maps and of the message's map
pub data Field : Type 0 where
  number : ℕ → Field
  text : Bytes → Field
  texts : List Bytes → Field

pub data Value : Type 0 where
  field : Field → Value
  flag : Bool → Value
  maps : List (PropMap Field) → Value

abbrev question_map : Question → PropMap Field
question_map q =
    ("name", text q.name) ∷ (("type", number q.kind) ∷ (("class", number q.class) ∷ []))

-- len(xs) > 0
abbrev section : String → List (PropMap Field) → PropMap Value
section key [] = []
section key (m ∷ ms) = (key, maps (m ∷ ms)) ∷ []

-- the entries of the message's map that do not depend on a section
unfoldable pub head_map : Dns → PropMap Value
head_map d =
    ("id", field (number d.id))
    ∷ (("qr", flag d.qr)
        ∷ (("opcode", field (number d.opcode))
            ∷ (("aa", flag d.aa)
                ∷ (("tc", flag d.tc)
                    ∷ (("rd", flag d.rd)
                        ∷ (("ra", flag d.ra)
                            ∷ (("z", field (number d.z))
                                ∷ (("rcode", field (number d.response_code)) ∷ []))))))))

module _ (ip_string : Bytes → Bytes) where
  -- the switch on rr.Type; NS is 2, CNAME 5, PTR 12, MX 15, TXT 16, AAAA 28
  unfoldable pub data_map : ResourceRecord → PropMap Field
  data_map rr =
      if rr.kind == 1
      then ("a", text (ip_string rr.ip)) ∷ []
      else if rr.kind == 28
      then ("aaaa", text (ip_string rr.ip)) ∷ []
      else if rr.kind == 2
      then ("ns", text rr.ns) ∷ []
      else if rr.kind == 5
      then ("cname", text rr.cname) ∷ []
      else if rr.kind == 12
      then ("ptr", text rr.ptr) ∷ []
      else if rr.kind == 16
      then ("txt", texts rr.txts) ∷ []
      else if rr.kind == 15
      then ("mx", text rr.mx_name) ∷ []
      else []

  -- dnsRRToPropMap
  unfoldable pub rr_map : ResourceRecord → PropMap Field
  unfolding data_map
  rr_map rr =
      ("name", text rr.name)
      ∷ (("type", number rr.kind)
          ∷ (("class", number rr.class) ∷ (("ttl", number rr.ttl) ∷ data_map rr)))

  unfoldable pub message_map : Dns → PropMap Value
  unfolding head_map rr_map
  message_map d =
      head_map d
      ++ (section "questions" (map question_map d.questions)
          ++ (section "answers" (map rr_map d.answers)
              ++ (section "authorities" (map rr_map d.authorities)
                  ++ section "additionals" (map rr_map d.additionals))))

  -- parseDNSMessage
  unfoldable pub parse_message : (Bytes → Option Dns) → Bytes → Option (PropMap Value)
  unfolding message_map
  parse_message decode bytes = elim (decode bytes) [ none ↦ none | some d ↦ some (message_map d) ]

-- dnsUDPStream, less its logger
pub record UdpStream : Type 0 where
  pub invalid_count : ℕ

pub record Fed : Type 0 where
  pub stream : UdpStream
  pub update : Option (PropMap Value)
  pub done : Bool

-- Feed of a UDP stream, where `parse` is `parse_message`
unfoldable pub feed : (Bytes → Option (PropMap Value)) → UdpStream → Bytes → Fed
feed parse s bytes = elim (parse bytes) [
  | none ↦ record {
    stream = record { invalid_count = suc s.invalid_count };
    update = none;
    done = leb invalid_count_threshold (suc s.invalid_count);
  }
  | some m ↦ record { stream = record { invalid_count = 0 }; update = some m; done = false }
]
