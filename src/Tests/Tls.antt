-- ===== src/Tests/Tls.antt =====
-- Hello messages at concrete inputs.
use mathlib.Core.List.Perm
use open_gfw_next.Base.{false, length, none, ◌≡◌, ◌≢◌, refl, some, [], ◌∷◌, Bytes, arith}
use open_gfw_next.Analyzer.Tls.{parse_extension, value, no_fuel, no_extensions}
use open_gfw_next.Utils.ByteBuffer.{get_uint16, get_byte, get_sub_buffer, skip}
use open_gfw_next.Utils.Strings.{codes}
use open_gfw_next.Analyzer.Tls.Fingerprint.{add_fingerprint, filter_grease, build_ja4}
use open_gfw_next.Analyzer.Tls.Fingerprint.Laws.{build_ja4-perm}
use open_gfw_next.Analyzer.Tls.Stream
use open_gfw_next.Analyzer.Tls.Stream.{Fed, request}
use open_gfw_next.Analyzer.Tls.Session.{told, hello_record, feed-hello_record}
use open_gfw_next.Analyzer.Tls.Returns.{Returns, feed-Returns}
use open_gfw_next.Analyzer.Tls.Hello.{parse_client_hello, parse_server_hello}
use open_gfw_next.Analyzer.Tls.Ends.{parse_server_hello-ends}
use open_gfw_next.Analyzer.Tls.Encode.{u16s_bytes, buffer}
use open_gfw_next.Analyzer.Tls.Listing.{extensions_bytes, apply_all}
use open_gfw_next.Analyzer.Tls.RoundTrip.{Offer, offer_bytes, Fits, hello_of}

parse_server_hello-ends_example : parse_server_hello (buffer (3 ∷ (3 ∷ []))) ≢ no_fuel
parse_server_hello-ends_example = parse_server_hello-ends (buffer (3 ∷ (3 ∷ [])))

abbrev eight : Bytes → Bytes
eight s = 1 ∷ (2 ∷ (3 ∷ (4 ∷ (5 ∷ (6 ∷ (7 ∷ (8 ∷ s)))))))

-- TLS 1.2 with two ciphers, the server's name "a", and an extension that is not read
abbrev pub to_a : Offer
to_a = record {
  version = 0x0303;
  random = eight (eight (eight (eight [])));
  session = 9 ∷ [];
  ciphers = 0x1301 ∷ (0x1302 ∷ []);
  compression = 0 ∷ [];
  extensions =
      record { kind = 0; body = 0 ∷ (4 ∷ (0 ∷ (0 ∷ (1 ∷ (97 ∷ []))))) }
      ∷ (record { kind = 23; body = [] } ∷ []);
}

pub to_a-Fits : Fits to_a
unfolding extensions_bytes
to_a-Fits = record {
  version_fits = ground arith;
  random_size = refl;
  ciphers_short = (ground arith, (ground arith, tt));
  ciphers_fit = ground arith;
  extensions_short = (ground arith, ground arith, (ground arith, ground arith, tt));
  extensions_fit = ground arith;
}

to_a_run :
    parse_client_hello (buffer (offer_bytes to_a))
    ≡ value (hello_of to_a (record no_extensions { sni = some (97 ∷ []) }), buffer [])
unfolding parse_client_hello get_uint16 u16s_bytes extensions_bytes get_byte get_sub_buffer skip
to_a_run = refl

-- a digest that keeps the text
abbrev pub kept : Bytes → Bytes
kept s = s

-- two ciphers in the other order, with a GREASE value before them
build_ja4-perm_example :
    build_ja4 kept (codes "t") 0x0303 none none (0x1301 ∷ (0x1302 ∷ [])) (5 ∷ []) none []
    ≡ build_ja4 kept
        (codes "t")
        0x0303
        none
        none
        (0x0a0a ∷ (0x1302 ∷ (0x1301 ∷ [])))
        (5 ∷ [])
        none
        []
unfolding filter_grease
build_ja4-perm_example =
    build_ja4-perm kept (codes "t") 0x0303 none none (0x1301 ∷ (0x1302 ∷ []))
      (0x0a0a ∷ (0x1302 ∷ (0x1301 ∷ []))) (5 ∷ []) (5 ∷ []) none [] (Perm.swap 0x1302 0x1301 [])
      (Perm.refl (5 ∷ []))

feed-Returns_example : Returns (Stream.feed kept kept Stream.new false 0 (22 ∷ []))
feed-Returns_example =
    feed-Returns kept kept Stream.new false 0 (22 ∷ []) (unfold Stream.new in refl)

pub to_a_applied :
    apply_all to_a.extensions no_extensions ≡ value (record no_extensions { sni = some (97 ∷ []) })
unfolding apply_all parse_extension get_uint16 get_byte skip
to_a_applied = refl

pub to_a_short : length (offer_bytes to_a) ≡ 60
unfolding extensions_bytes u16s_bytes
to_a_short = refl

feed-hello_record_example :
    told (Stream.feed kept kept Stream.new false 0 (hello_record 3 1 0 64 (offer_bytes to_a)))
    ≡ some (
      some (
          request (
            some (
              add_fingerprint kept kept
                (codes "t")
                (hello_of to_a (record no_extensions { sni = some (97 ∷ []) }))))),
      false,
    )
feed-hello_record_example =
    feed-hello_record kept kept 3 1 0 64 to_a (record no_extensions { sni = some (97 ∷ []) })
      to_a-Fits to_a_applied (ground (arith, to_a_short)) (ground (arith, to_a_short))
