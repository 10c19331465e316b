-- ===== src/Analyzer/Quic/Session.antt =====
-- analyzer/udp/quic.go: the first packet of a client, from its bytes to the report.
use mathlib.Core.List.{Perm}
use open_gfw_next.Base.{
  concat, ℕ, zero, suc, ◌+◌, ◌/◌, ◌%◌, ◌^◌, ◌≤◌, ◌<◌, ◌≡◌, sym, ap, ◌∙◌, true, false, ◌||◌, List,
  ◌∷◌, ◌++◌, Bytes, Option, some, arith, ◌==◌, if◌then◌else◌, length, take, drop, take-append_all,
  length-append, append_assoc,
}
use open_gfw_next.Utils.ByteBuffer.{at}
use open_gfw_next.Utils.Strings.{codes}
use open_gfw_next.Analyzer.Tls.{Extensions, no_extensions, value}
use open_gfw_next.Analyzer.Tls.Fingerprint.{add_fingerprint}
use open_gfw_next.Analyzer.Tls.Listing.{apply_all}
use open_gfw_next.Analyzer.Tls.RoundTrip.{Offer, offer_bytes, Fits, hello_of}
use open_gfw_next.Analyzer.Tls.Session.{parse_fingerprinted-offer}
use open_gfw_next.Analyzer.Quic.{done, assemble_crypto_frames}
use open_gfw_next.Analyzer.Quic.Frames.{pieces, AllNonempty}
use open_gfw_next.Analyzer.Quic.Encode.{
  IsVarint, Frame, Fits as FramesFit, crypto_frames, encode_all, assemble-extract-encode_all,
}
use open_gfw_next.Analyzer.Quic.Header.{
  Header, version1, version2, is_initial, parse_initial_header,
}
use open_gfw_next.Analyzer.Quic.Headers.{
  tail_bytes, header_bytes, parse_initial_header-header_bytes,
}
use open_gfw_next.Analyzer.Quic.Protect.{
  Primitives, big_endian, nonce, un_protect, xor_byte, xor_bytes,
}
use open_gfw_next.Analyzer.Quic.PacketNumbers.{xor_byte_high}
use open_gfw_next.Analyzer.Quic.Unprotect.{
  mask_of, protect, un_protect-protect, length-xor_bytes, length-big_endian,
}
use open_gfw_next.Analyzer.Quic.Stream.{
  Stream, initial_key, and_then, read_frames, read_protected, read_behind, read_crypto_payload,
  feed_hello, feed_payload, feed_read, feed,
}

-- a client hello behind its type and its length
unfoldable pub hello_message : Bytes → Bytes
hello_message body = 1 ∷ (big_endian 3 (length body) ++ body)

-- the header of a packet between its first byte and the packet number
unfoldable pub middle_of : (ℕ → Bytes) → Header → Bytes
middle_of append_varint h = big_endian 4 h.version ++ tail_bytes append_varint h

feed_payload-hello_message :
    (md5 sha256 : Bytes → Bytes) (s : Stream) (o : Offer) (e : Extensions)
    → Fits o
    → apply_all o.extensions no_extensions ≡ value e
    → 41 ≤ length (offer_bytes o)
    → length (offer_bytes o) < 16777216
    → feed_payload md5 sha256 s (hello_message (offer_bytes o))
      ≡ done (record {
        stream = s;
        update = some (add_fingerprint md5 sha256 (codes "q") (hello_of o e));
        done = true;
      })
unfolding feed_payload hello_message big_endian feed_hello
feed_payload-hello_message md5 sha256 s o e fits h low high =
    ground (arith, parse_fingerprinted-offer md5 sha256 (codes "q") o e fits h)

known_version : (v : ℕ) → ((v == version1) || (v == version2)) ≡ true → v < 4294967296
known_version v h = ground arith

small_number : (pn n : ℕ) → n ≤ 4 → pn ≤ 3 + 256 ^ n / 2 → pn < 4611686018427387904
small_number pn zero h d = omega arith
small_number pn (suc zero) h d = omega arith
small_number pn (suc (suc zero)) h d = omega arith
small_number pn (suc (suc (suc zero))) h d = omega arith
small_number pn (suc (suc (suc (suc zero)))) h d = omega arith
small_number pn (suc (suc (suc (suc (suc n))))) h d = absurd (omega arith)

module _ (p : Primitives) {append_varint : ℕ → Bytes} (read_varint : Bytes → Option (ℕ × Bytes))
    (v : IsVarint append_varint read_varint) (max_length : ℕ) where
  read_frames-encode_all :
      (b : Bytes) (bs : List Bytes) (fs : List Frame)
      → AllNonempty (b ∷ bs)
      → length (concat (b ∷ bs)) ≤ max_length
      → FramesFit max_length fs
      → Perm (pieces 0 (b ∷ bs)) (crypto_frames fs)
      → read_frames p read_varint max_length (encode_all append_varint fs) ≡ done (concat (b ∷ bs))
  unfolding read_frames and_then
  read_frames-encode_all b bs fs some_bytes h fits perm =
      let (cs, extracted, assembled) =
        assemble-extract-encode_all read_varint max_length v b bs fs some_bytes h fits perm in
      ap (λ a. and_then a (assemble_crypto_frames max_length)) extracted ∙ assembled

  read_protected_lem :
      (packet more beyond plain : Bytes) (h : Header) (offset : ℕ)
      → ((h.version == version1) || (h.version == version2)) ≡ true
      → 1 ≤ offset
      → 1 ≤ h.payload_length
      → length packet ≡ offset + h.payload_length
      → ((rest : Bytes) → un_protect (initial_key p h) packet rest offset 2 ≡ done plain)
      → read_protected p read_varint max_length (packet ++ more) beyond h offset
        ≡ read_frames p read_varint max_length plain
  unfolding read_protected and_then
  read_protected_lem packet more beyond plain h offset ver o l size opens =
      let n = offset + h.payload_length in
      let rest = drop n (packet ++ more) ++ beyond in
      let front : take n (packet ++ more) ≡ packet =
        ap (λ k. take k (packet ++ more)) (sym size) ∙ take-append_all packet more in
      let payload = ap (λ b. un_protect (initial_key p h) b rest offset 2) front ∙ opens rest in
      let frames = ap (λ a. and_then a (read_frames p read_varint max_length)) payload in
      ground (arith, ver, frames, size, length-append packet more)

  read_protected-protect :
      (h : Header) (first n pn : ℕ) (sealed plain more beyond : Bytes)
      → ((h.version == version1) || (h.version == version2)) ≡ true
      → first < 256
      → 192 ≤ first
      → first % 4 + 1 ≡ n
      → 20 ≤ h.payload_length
      → n + length sealed ≡ h.payload_length
      → 3 < pn + 256 ^ n / 2
      → pn ≤ 3 + 256 ^ n / 2
      → (initial_key p h).aead_open
          (nonce (initial_key p h).iv pn)
          sealed
          (first ∷ (middle_of append_varint h ++ big_endian n pn))
        ≡ some plain
      → read_protected p read_varint max_length
          (protect (initial_key p h) first (middle_of append_varint h) n pn sealed ++ more)
          beyond
          h
          (suc (length (middle_of append_varint h)))
        ≡ read_frames p read_varint max_length plain
  unfolding protect
  read_protected-protect h first n pn sealed plain more beyond ver a b e l m c d opens =
      let key = initial_key p h in
      let middle = middle_of append_varint h in
      let pnb = xor_bytes (big_endian n pn) (drop 1 (mask_of key n sealed)) in
      let wide =
        length-xor_bytes (big_endian n pn) (drop 1 (mask_of key n sealed))
        ∙ length-big_endian n pn in
      let size : length (protect key first middle n pn sealed)
          ≡ suc (length middle) + h.payload_length =
        omega (arith, length-append middle (pnb ++ sealed), length-append pnb sealed, wide, m) in
      read_protected_lem (protect key first middle n pn sealed) more beyond plain h
        (suc (length middle)) ver (omega arith) (omega arith) size
        (λ rest.
          un_protect-protect key first n pn 2 middle sealed plain rest a (omega arith) e
            (omega arith) (small_number pn n (omega arith) d) c d opens)

  -- the header as it stands in the packet, with a mask on four bits of the first byte
  parse_initial_header-masked :
      (h : Header) (first x : ℕ) (rest more : Bytes)
      → x / 16 ≡ first / 16
      → first < 256
      → 192 ≤ first
      → h.version < 4294967296
      → is_initial first h.version ≡ true
      → length h.token < 4611686018427387904
      → h.payload_length < 4611686018427387904
      → parse_initial_header read_varint ((x ∷ (middle_of append_varint h ++ rest)) ++ more)
        ≡ some (h, suc (length (middle_of append_varint h)))
  unfolding middle_of header_bytes is_initial
  parse_initial_header-masked h first x rest more e a b w i t k =
      let kind = ap (λ q. q % 4 == (if h.version == version2 then 1 else 0)) e ∙ i in
      ap (λ r. parse_initial_header read_varint (x ∷ r))
        (append_assoc (middle_of append_varint h) rest more)
      ∙ parse_initial_header-header_bytes read_varint v x h (rest ++ more) (omega arith) w kind t k

  read_crypto_payload-protect :
      (h : Header) (first n pn : ℕ) (sealed plain more beyond : Bytes)
      → ((h.version == version1) || (h.version == version2)) ≡ true
      → first < 256
      → 192 ≤ first
      → is_initial first h.version ≡ true
      → first % 4 + 1 ≡ n
      → length h.token < 4611686018427387904
      → h.payload_length < 4611686018427387904
      → 20 ≤ h.payload_length
      → n + length sealed ≡ h.payload_length
      → 3 < pn + 256 ^ n / 2
      → pn ≤ 3 + 256 ^ n / 2
      → (initial_key p h).aead_open
          (nonce (initial_key p h).iv pn)
          sealed
          (first ∷ (middle_of append_varint h ++ big_endian n pn))
        ≡ some plain
      → read_crypto_payload p read_varint max_length
          (protect (initial_key p h) first (middle_of append_varint h) n pn sealed ++ more)
          beyond
        ≡ read_frames p read_varint max_length plain
  unfolding read_crypto_payload read_behind protect
  read_crypto_payload-protect h first n pn sealed plain more beyond ver a b i e t k l m c d opens =
      let key = initial_key p h in
      let middle = middle_of append_varint h in
      let mask = mask_of key n sealed in
      let masked = xor_bytes (big_endian n pn) (drop 1 mask) ++ sealed in
      let parsed =
        parse_initial_header-masked h first (xor_byte first (at mask 0 % 16)) masked more
          (xor_byte_high first (at mask 0 % 16) a (omega arith)) a b (known_version h.version ver) i
          t k in
      ap
        (read_behind p read_varint max_length (protect key first middle n pn sealed ++ more) beyond)
        parsed
      ∙ read_protected-protect h first n pn sealed plain more beyond ver a b e l m c d opens

  -- A client's Initial packet of QUIC version 1 or 2 is reported at once, and the stream is done: the
  -- packet is protected with the key of its connection id, its payload holds a client hello in pieces,
  -- none of them empty and in any order, among padding and PING frames, and its parts fit their
  -- length fields. Nothing that lies behind the packet matters.
  pub feed-protect :
      (md5 sha256 : Bytes → Bytes) (s : Stream) (o : Offer) (e : Extensions) (b : Bytes)
      (bs : List Bytes) (fs : List Frame) (h : Header) (first n pn : ℕ) (sealed more beyond : Bytes)
      → (Fits o)
        × (apply_all o.extensions no_extensions ≡ value e)
        × (41 ≤ length (offer_bytes o))
        × (length (offer_bytes o) < 16777216)
      → (concat (b ∷ bs) ≡ hello_message (offer_bytes o))
        × (AllNonempty (b ∷ bs))
        × (length (concat (b ∷ bs)) ≤ max_length)
        × (FramesFit max_length fs)
        × Perm (pieces 0 (b ∷ bs)) (crypto_frames fs)
      → (((h.version == version1) || (h.version == version2)) ≡ true)
        × (length h.token < 4611686018427387904)
        × (h.payload_length < 4611686018427387904)
        × (20 ≤ h.payload_length)
        × (n + length sealed ≡ h.payload_length)
      → (first < 256) × (192 ≤ first) × (is_initial first h.version ≡ true) × (first % 4 + 1 ≡ n)
      → (3 < pn + 256 ^ n / 2) × (pn ≤ 3 + 256 ^ n / 2)
      → (initial_key p h).aead_open
          (nonce (initial_key p h).iv pn)
          sealed
          (first ∷ (middle_of append_varint h ++ big_endian n pn))
        ≡ some (encode_all append_varint fs)
      → feed md5 sha256 p read_varint max_length s false
          (protect (initial_key p h) first (middle_of append_varint h) n pn sealed ++ more)
          beyond
        ≡ done (record {
          stream = s;
          update = some (add_fingerprint md5 sha256 (codes "q") (hello_of o e));
          done = true;
        })
  unfolding feed feed_read
  feed-protect md5 sha256 s o e b bs fs h first n pn sealed more beyond (fits, ext, low, high)
        (whole, some_bytes, room, frames, perm) (ver, t, k, l, m) (a, c, i, two) (below, above)
        opens =
      ap (feed_read md5 sha256 s) (
        read_crypto_payload-protect h first n pn sealed (encode_all append_varint fs) more beyond
          ver a c i two t k l m below above opens
        ∙ read_frames-encode_all b bs fs some_bytes room frames perm)
      ∙ ap (feed_payload md5 sha256 s) whole
      ∙ feed_payload-hello_message md5 sha256 s o e fits ext low high
