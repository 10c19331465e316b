-- ===== src/Analyzer/Quic/Stream.antt =====
-- analyzer/udp/quic.go, and ReadCryptoPayload of analyzer/udp/internal/quic/payload.go. `beyond` is what
-- lies behind a packet in its array.
use open_gfw_next.Base.{
  ℕ, suc, ◌+◌, ◌*◌, Bool, true, not, ◌||◌, Option, none, some, [], ◌++◌, Bytes, ltb, leb, ◌==◌,
  if◌then◌else◌, length, take, drop,
}
use open_gfw_next.Utils.ByteBuffer.{at}
use open_gfw_next.Utils.Strings.{codes}
use open_gfw_next.Analyzer.Tls.{Read, value, malformed, no_fuel}
use open_gfw_next.Analyzer.Tls.Fingerprint.{Fingerprinted, parse_fingerprinted}
use open_gfw_next.Analyzer.Quic.{
  Attempt, failed, panicked, exhausted, done, extract_crypto_frames, assemble_crypto_frames,
}
use open_gfw_next.Analyzer.Quic.Header.{Header, version1, version2, parse_initial_header}
use open_gfw_next.Analyzer.Quic.Protect.{
  Primitives, ProtectionKey, get_salt, hkdf_expand_label, new_initial_protection_key, un_protect,
}

abbrev pub invalid_count_threshold : ℕ
invalid_count_threshold = 4

abbrev pub min_data_size : ℕ
min_data_size = 41

-- what follows in ReadCryptoPayload where a step has not failed
unfoldable pub and_then : {A B : Type 0} → Attempt A → (A → Attempt B) → Attempt B
and_then failed f = failed
and_then panicked f = panicked
and_then exhausted f = exhausted
and_then (done x) f = f x

-- initialSecret, clientSecret and key
unfoldable pub initial_key : Primitives → Header → ProtectionKey
unfolding get_salt hkdf_expand_label new_initial_protection_key
initial_key p h =
    let initial_secret = p.hkdf_extract h.dest_connection_id (get_salt h.version) in
    let client_secret = hkdf_expand_label p initial_secret (codes "client in") [] 32 in
    new_initial_protection_key p client_secret h.version

module _ (p : Primitives) (read_varint : Bytes → Option (ℕ × Bytes)) (max_length : ℕ) where
  -- extractCryptoFrames and assembleCryptoFrames
  unfoldable pub read_frames : Bytes → Attempt Bytes
  unfolding and_then extract_crypto_frames assemble_crypto_frames
  read_frames payload =
      and_then (extract_crypto_frames read_varint max_length (length payload) payload)
        (assemble_crypto_frames max_length)

  -- behind the header, which ends at the offset
  unfoldable pub read_protected : Bytes → Bytes → Header → ℕ → Attempt Bytes
  unfolding initial_key un_protect read_frames
  read_protected packet beyond h offset =
      let n = offset + h.payload_length in
      let payload =
        and_then (un_protect (initial_key p h) (take n packet) (drop n packet ++ beyond) offset 2)
          read_frames in
      if not ((h.version == version1) || h.version == version2)
      then failed
      else if (offset == 0) || h.payload_length == 0
      then failed
      else if ltb (length packet) n
      then failed
      else payload

  unfoldable pub read_behind : Bytes → Bytes → Option (Header × ℕ) → Attempt Bytes
  unfolding read_protected
  read_behind packet beyond none = failed
  read_behind packet beyond (some (h, offset)) = read_protected packet beyond h offset

  -- ReadCryptoPayload
  unfoldable pub read_crypto_payload : Bytes → Bytes → Attempt Bytes
  unfolding parse_initial_header read_behind
  read_crypto_payload packet beyond =
      read_behind packet beyond (parse_initial_header read_varint packet)

-- quicStream, less its logger
pub record Stream : Type 0 where
  pub invalid_count : ℕ

-- the update merges {"req": map}
pub record Fed : Type 0 where
  pub stream : Stream
  pub update : Option Fingerprinted
  pub done : Bool

unfoldable pub reject : Stream → Attempt Fed
reject s = done (record {
  stream = record { invalid_count = suc s.invalid_count };
  update = none;
  done = leb invalid_count_threshold (suc s.invalid_count);
})

module _ (md5 sha256 : Bytes → Bytes) where
  unfoldable pub feed_hello : Stream → Read Fingerprinted → Attempt Fed
  unfolding reject
  feed_hello s (value m) = done (record { stream = s; update = some m; done = true })
  feed_hello s malformed = reject s
  feed_hello s no_fuel = exhausted

  -- behind ReadCryptoPayload
  unfoldable pub feed_payload : Stream → Bytes → Attempt Fed
  unfolding feed_hello reject
  feed_payload s pl =
      let hello =
        feed_hello s (parse_fingerprinted md5 sha256 (codes "q") (record { buf = drop 4 pl })) in
      if ltb (length pl) 4
      then reject s
      else if not (at pl 0 == 1)
      then reject s
      else if ltb (at pl 1 * 65536 + at pl 2 * 256 + at pl 3) min_data_size
      then reject s
      else hello

  unfoldable pub feed_read : Stream → Attempt Bytes → Attempt Fed
  unfolding feed_payload reject
  feed_read s failed = reject s
  feed_read s panicked = panicked
  feed_read s exhausted = exhausted
  feed_read s (done pl) = feed_payload s pl

  -- Feed
  unfoldable pub feed :
      Primitives → (Bytes → Option (ℕ × Bytes)) → ℕ → Stream → Bool → Bytes → Bytes → Attempt Fed
  unfolding feed_read reject read_crypto_payload
  feed p read_varint max_length s rev packet beyond =
      if rev
      then reject s
      else feed_read s (read_crypto_payload p read_varint max_length packet beyond)
