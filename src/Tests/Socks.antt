-- ===== src/Tests/Socks.antt =====
-- SOCKS connections at concrete inputs.
use open_gfw_next.Base.{◌≢◌, ◌≡◌, refl, false, [], ◌∷◌, Bytes, arith}
use open_gfw_next.Analyzer.Quic.{zeros}
use open_gfw_next.Analyzer.Socks.Requests.{parse_req_conn_info}
use open_gfw_next.Analyzer.Socks.Feed
use open_gfw_next.Analyzer.Socks.Feed.{no_fuel}
use open_gfw_next.Analyzer.Socks.Total.{feed_all, feed_all_ends}
use open_gfw_next.Analyzer.Socks.Domains.{
  framed, with_request, read_domain, parse_req_conn_info-domain,
}

-- version 5 with the method that needs no authentication, and a request to connect to `a` at port 80
abbrev to_a : Bytes
to_a = 5 ∷ (1 ∷ (0 ∷ (5 ∷ (1 ∷ (0 ∷ (3 ∷ (1 ∷ (97 ∷ (0 ∷ (80 ∷ []))))))))))

-- the same with a name of 251 bytes, on which the call panics
abbrev to_long : Bytes
to_long = 5 ∷ (1 ∷ (0 ∷ (5 ∷ (1 ∷ (0 ∷ (3 ∷ (251 ∷ zeros 253)))))))

feed_all_ends_example : feed_all Feed.new ((false, 0, to_a) ∷ ((false, 0, to_long) ∷ [])) ≢ no_fuel
feed_all_ends_example = feed_all_ends ((false, 0, to_a) ∷ ((false, 0, to_long) ∷ []))

parse_req_conn_info-domain_example :
    parse_req_conn_info (with_request Feed.new.stream (framed 1 0 (97 ∷ []) (0 ∷ (80 ∷ []))))
    ≡ read_domain (with_request Feed.new.stream []) 1 (97 ∷ []) 80
parse_req_conn_info-domain_example =
    parse_req_conn_info-domain Feed.new.stream 1 0 0 80 (97 ∷ []) [] refl (ground arith)
