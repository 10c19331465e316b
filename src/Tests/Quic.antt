-- ===== src/Tests/Quic.antt =====
-- QUIC packets at concrete inputs.
use mathlib.Core.List.Perm
use open_gfw_next.Base.{
  concat, ℕ, zero, suc, ◌+◌, ◌≤◌, ◌≡◌, ◌≢◌, ◌⊎◌, refl, ap, true, false, Option, none, some, List,
  [], ◌∷◌, ◌++◌, Bytes, arith, if◌then◌else◌, ltb, length, take, drop,
}
use open_gfw_next.Utils.Strings.{codes}
use open_gfw_next.Analyzer.Tls.{no_extensions}
use open_gfw_next.Analyzer.Tls.RoundTrip.{offer_bytes, hello_of}
use open_gfw_next.Analyzer.Tls.Fingerprint.{add_fingerprint}
use open_gfw_next.Analyzer.Quic.{
  zeros, failed, panicked, exhausted, done, CryptoFrame, extract_crypto_frames,
  assemble_crypto_frames, are_contiguous, sort_frames,
}
use open_gfw_next.Analyzer.Quic.Frames.{pieces, AllNonempty}
use open_gfw_next.Analyzer.Tls.Encode.{u16s_bytes}
use open_gfw_next.Analyzer.Tls.Listing.{extensions_bytes}
use open_gfw_next.Analyzer.Quic.Messages.{contents, assemble_crypto_frames_lem}
use open_gfw_next.Analyzer.Quic.Extract.{Shrinks, extract_crypto_frames_ends}
use open_gfw_next.Analyzer.Quic.Encode.{
  Fits, IsVarint, Frame, padding, crypto, encode_all, crypto_frames,
}
use open_gfw_next.Analyzer.Quic.Header.{is_initial, Header}
use open_gfw_next.Analyzer.Quic.Protect.{
  big_endian, Primitives, ProtectionKey, un_protect, decode_packet_number,
}
use open_gfw_next.Analyzer.Quic.PacketNumbers.{decode_packet_number_window}
use open_gfw_next.Analyzer.Quic.Unprotect.{protect, un_protect-protect}
use open_gfw_next.Analyzer.Quic.Stream.{initial_key, feed, read_crypto_payload}
use open_gfw_next.Analyzer.Quic.Session.{hello_message, middle_of, feed-protect}
use open_gfw_next.Tests.Tls.{to_a, to_a-Fits, to_a_applied, to_a_short, kept}

-- numbers in unary, ended by 0
abbrev put_unary : ℕ → Bytes
put_unary zero = 0 ∷ []
put_unary (suc n) = 1 ∷ put_unary n

abbrev one_more : Option (ℕ × Bytes) → Option (ℕ × Bytes)
one_more none = none
one_more (some (n, r)) = some (suc n, r)

abbrev get_unary : Bytes → Option (ℕ × Bytes)
get_unary [] = none
get_unary (zero ∷ r) = some (0, r)
get_unary (suc x ∷ r) = one_more (get_unary r)

get_put : (n : ℕ) (rest : Bytes) → get_unary (put_unary n ++ rest) ≡ some (n, rest)
get_put zero rest = refl
get_put (suc n) rest = ap one_more (get_put n rest)

put_nonempty : (n : ℕ) → 1 ≤ length (put_unary n)
put_nonempty zero = omega arith
put_nonempty (suc n) = omega arith

unary : IsVarint put_unary get_unary
unary = record { nonempty = put_nonempty; read_append = λ n rest h. get_put n rest }

one_more-some :
    (o : Option (ℕ × Bytes)) (r : Bytes) (n : ℕ)
    → one_more o ≡ some (n, r)
    → (k : ℕ) × (o ≡ some (k, r))
one_more-some none r n e = cc
one_more-some (some (k, s)) r n e = (k, cc)

unary-Shrinks : Shrinks get_unary
unfolding Shrinks
unary-Shrinks [] r n e = cc
unary-Shrinks (zero ∷ b) r n e = ground (arith, e)
unary-Shrinks (suc x ∷ b) r n e =
    let (k, e') = one_more-some (get_unary b) r n e in omega (arith, unary-Shrinks b r k e')

-- a padding frame, and a CRYPTO frame whose data is cut short
extract_crypto_frames_ends_example :
    extract_crypto_frames get_unary 9 9 (0 ∷ (1 ∷ (1 ∷ (1 ∷ (1 ∷ (1 ∷ (1 ∷ (0 ∷ []))))))))
    ≢ exhausted
extract_crypto_frames_ends_example =
    extract_crypto_frames_ends get_unary 9 unary-Shrinks 9
      (0 ∷ (1 ∷ (1 ∷ (1 ∷ (1 ∷ (1 ∷ (1 ∷ (0 ∷ [])))))))) (ground arith)

abbrev frame_at : ℕ → Bytes → CryptoFrame
frame_at offset bytes = record { offset = offset; bytes = bytes }

assemble_crypto_frames_lem_example :
    ((are_contiguous (sort_frames (frame_at 2 (7 ∷ []) ∷ (frame_at 1 (5 ∷ []) ∷ []))) ≡ false)
      × (assemble_crypto_frames 9 (frame_at 2 (7 ∷ []) ∷ (frame_at 1 (5 ∷ []) ∷ [])) ≡ failed))
    ⊎ ((h : CryptoFrame) × (hs : List CryptoFrame) × (sort_frames
            (frame_at 2 (7 ∷ []) ∷ (frame_at 1 (5 ∷ []) ∷ []))
          ≡ h ∷ hs)
        × (are_contiguous (h ∷ hs) ≡ true)
        × (assemble_crypto_frames 9 (frame_at 2 (7 ∷ []) ∷ (frame_at 1 (5 ∷ []) ∷ [])) ≡ (
            if ltb 9 (h.offset + length (concat (contents (h ∷ hs))))
            then panicked
            else done (zeros h.offset ++ concat (contents (h ∷ hs))))))
assemble_crypto_frames_lem_example =
    assemble_crypto_frames_lem 9 (frame_at 2 (7 ∷ [])) (frame_at 1 (5 ∷ [])) []

-- frames that begin at 1 are put together behind a zero
gap_run :
    assemble_crypto_frames 9 (frame_at 2 (7 ∷ []) ∷ (frame_at 1 (5 ∷ []) ∷ []))
    ≡ done (0 ∷ (5 ∷ (7 ∷ [])))
unfolding assemble_crypto_frames sort_frames
gap_run = refl

decode_packet_number_window_example : decode_packet_number 250 4 1 ≡ 260
decode_packet_number_window_example =
    decode_packet_number_window 250 260 1 (ground arith) (ground arith) (ground arith)
      (ground arith) (ground arith)

-- ciphers that change nothing, and masks that are the sample
abbrev plain_key : ProtectionKey
plain_key = record {
  aead_open = λ nonce sealed hdr. some sealed;
  header_protection = λ sample. sample;
  iv = zeros 12;
}

un_protect-protect_example :
    un_protect plain_key (protect plain_key 192 (1 ∷ (2 ∷ [])) 1 2 (zeros 20)) [] 3 2
    ≡ done (zeros 20)
un_protect-protect_example =
    un_protect-protect plain_key 192 1 2 2 (1 ∷ (2 ∷ [])) (zeros 20) (zeros 20) [] (ground arith)
      (ground arith) refl (ground arith) (ground arith) (ground arith) (ground arith) refl

abbrev no_crypto : Primitives
no_crypto = record {
  hkdf_extract = λ secret salt. [];
  hkdf_expand = λ secret info n. zeros n;
  gcm_open = λ key nonce sealed hdr. some sealed;
  gcm_nonce_size = 12;
  aes_encrypt = λ key block. block;
}

-- a packet with the form bit clear, whose length is 1: the sample lies past the end of the array
short_header_run :
    read_crypto_payload no_crypto get_unary 9
      (64 ∷ (0 ∷ (0 ∷ (0 ∷ (1 ∷ (0 ∷ (0 ∷ (0 ∷ (1 ∷ (0 ∷ (7 ∷ [])))))))))))
      []
    ≡ panicked
unfolding read_crypto_payload
short_header_run = refl

-- the hello in two pieces, the second one first, with padding between them
abbrev message : Bytes
message = hello_message (offer_bytes to_a)

abbrev frames : List Frame
frames =
    crypto (frame_at 10 (drop 10 message))
    ∷ (padding ∷ (crypto (frame_at 0 (take 10 message)) ∷ []))

abbrev payload : Bytes
payload = encode_all put_unary frames

abbrev header : Header
header = record {
  version = 1;
  src_connection_id = [];
  dest_connection_id = 5 ∷ (6 ∷ []);
  payload_length = 1 + length payload;
  token = [];
}

feed-protect_example :
    feed kept kept no_crypto get_unary 100
      (record { invalid_count = 2 })
      false
      (protect (initial_key no_crypto header) 192 (middle_of put_unary header) 1 2 payload ++ [])
      []
    ≡ done (record {
      stream = record { invalid_count = 2 };
      update = some (
          add_fingerprint kept kept
            (codes "q")
            (hello_of to_a (record no_extensions { sni = some (97 ∷ []) })));
      done = true;
    })
unfolding hello_message big_endian u16s_bytes extensions_bytes AllNonempty is_initial initial_key
    Fits crypto_frames encode_all pieces
feed-protect_example =
    feed-protect no_crypto get_unary unary 100 kept kept (record { invalid_count = 2 }) to_a
      (record no_extensions { sni = some (97 ∷ []) }) (take 10 message) (drop 10 message ∷ [])
      frames header 192 1 2 payload [] []
      (to_a-Fits, to_a_applied, ground (arith, to_a_short), ground (arith, to_a_short))
      (
        refl,
        (ground arith, (ground arith, tt)),
        ground arith,
        (ground arith, ground arith, ground arith, (ground arith, ground arith, ground arith, tt)),
        Perm.swap _ _ [],
      )
      (refl, ground arith, ground arith, ground arith, refl)
      (ground arith, ground arith, refl, refl) (ground arith, ground arith) refl
