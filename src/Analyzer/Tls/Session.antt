-- ===== src/Analyzer/Tls/Session.antt =====
-- analyzer/tcp/tls.go: what `Feed` returns for a client hello in one record.
use open_gfw_next.Base.{
  append-nil, ℕ, ◌/◌, ◌%◌, ◌≤◌, ◌<◌, ◌≡◌, Bool, true, false, Option, none, some, [], ◌∷◌, Bytes,
  arith, length,
}
use open_gfw_next.Utils.ByteBuffer
use open_gfw_next.Utils.ByteBuffer.{ByteBuffer, get}
use open_gfw_next.Utils.Lsm.{run, run_loop, next}
use open_gfw_next.Utils.Strings.{codes}
use open_gfw_next.Analyzer.Tls.{value, Extensions, no_extensions}
use open_gfw_next.Analyzer.Tls.Fingerprint.{Fingerprinted, add_fingerprint, parse_fingerprinted}
use open_gfw_next.Analyzer.Tls.Encode.{buffer, get_front}
use open_gfw_next.Analyzer.Tls.Listing.{apply_all}
use open_gfw_next.Analyzer.Tls.RoundTrip.{
  Offer, offer_bytes, Fits, hello_of, parse_client_hello-offer,
}
use open_gfw_next.Analyzer.Tls.Stream.{
  Stream, answer, client_hello_preprocess, parse_client_hello_data, exec_req, new, Update, request,
  Fed, feed, feed_req, after_req,
}

-- a handshake record with a client hello: type, version and length of the record, type and length of
-- the message, and the message
abbrev pub hello_record : ℕ → ℕ → ℕ → ℕ → Bytes → Bytes
hello_record a b c d body =
    let n = length body in
    0x16 ∷ (a ∷ (b ∷ (c ∷ (d ∷ (1 ∷ (n / 65536 ∷ (n / 256 % 256 ∷ (n % 256 ∷ body))))))))

preprocess_lem :
    (s : Stream) (a b c d : ℕ) (body : Bytes)
    → 41 ≤ length body
    → length body < 16777216
    → client_hello_preprocess (record s { req_buf = buffer (hello_record a b c d body) })
      ≡ answer (record s { req_buf = buffer body; client_hello_len = length body }) next
unfolding client_hello_preprocess get
preprocess_lem s a b c d body low high = ground (arith, low, high)

all_of :
    (body : Bytes)
    → ByteBuffer.get_sub_buffer (buffer body) (length body) true ≡ (buffer [], some (buffer body))
unfolding ByteBuffer.get_sub_buffer
all_of body = ground (arith, rw (append-nil body) at (get_front body []))

-- the update and the flag that `Feed` returns
abbrev pub told : Option Fed → Option (Option Update × Bool)
told none = none
told (some f) = some (f.update, f.done)

module _ (md5 sha256 : Bytes → Bytes) where
  data_lem :
      (s : Stream) (body : Bytes) (m : Fingerprinted)
      → parse_fingerprinted md5 sha256 (codes "t") (buffer body) ≡ value m
      → parse_client_hello_data md5 sha256
          (record s { req_buf = buffer body; client_hello_len = length body })
        ≡ answer
            (record s {
              req_buf = buffer [];
              client_hello_len = length body;
              req_updated = true;
              req_map = some m;
            })
            next
  unfolding parse_client_hello_data
  data_lem s body m e = ground (arith, e, all_of body)

  feed-parsed :
      (a b c d : ℕ) (body : Bytes) (m : Fingerprinted)
      → 41 ≤ length body
      → length body < 16777216
      → parse_fingerprinted md5 sha256 (codes "t") (buffer body) ≡ value m
      → told (feed md5 sha256 new false 0 (hello_record a b c d body))
        ≡ some (some (request (some m)), false)
  unfolding feed feed_req run run_loop exec_req after_req new ByteBuffer.append
  feed-parsed a b c d body m low high e =
      let s : Stream = record (new.stream) { req_updated = false } in
      ground (arith, preprocess_lem s a b c d body low high, data_lem s body m e)

pub parse_fingerprinted-offer :
    (md5 sha256 : Bytes → Bytes) (protocol : Bytes) (o : Offer) (e : Extensions)
    → Fits o
    → apply_all o.extensions no_extensions ≡ value e
    → parse_fingerprinted md5 sha256 protocol (buffer (offer_bytes o))
      ≡ value (add_fingerprint md5 sha256 protocol (hello_of o e))
unfolding parse_fingerprinted
parse_fingerprinted-offer md5 sha256 protocol o e fits h =
    ground (arith, h, parse_client_hello-offer o fits)

-- A new connection that is given a client hello in one record reports it at once, with the
-- fingerprints of what was offered, and waits for the server: if the parts fit their length fields,
-- the data of the extensions is in order, and the message has from 41 bytes to less than 2^24. The
-- version and the length in the record's header are not looked at.
pub feed-hello_record :
    (md5 sha256 : Bytes → Bytes) (a b c d : ℕ) (o : Offer) (e : Extensions)
    → Fits o
    → apply_all o.extensions no_extensions ≡ value e
    → 41 ≤ length (offer_bytes o)
    → length (offer_bytes o) < 16777216
    → told (feed md5 sha256 new false 0 (hello_record a b c d (offer_bytes o)))
      ≡ some (some (request (some (add_fingerprint md5 sha256 (codes "t") (hello_of o e)))), false)
feed-hello_record md5 sha256 a b c d o e fits h low high =
    feed-parsed md5 sha256 a b c d (offer_bytes o)
      (add_fingerprint md5 sha256 (codes "t") (hello_of o e)) low high
      (parse_fingerprinted-offer md5 sha256 (codes "t") o e fits h)
