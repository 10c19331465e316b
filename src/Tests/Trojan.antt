-- ===== src/Tests/Trojan.antt =====
-- analyzer/tcp/trojan.go at concrete inputs.
use open_gfw_next.Base.{inr, ◌≡◌, refl, Bool, true, false, some, List, [], ◌∷◌, ◌++◌, Bytes, length}
use open_gfw_next.Analyzer.Trojan.Tree.{Seq, is_trojan_seq}
use open_gfw_next.Analyzer.Trojan.{new, ccs_pattern, is_ccs}
use open_gfw_next.Analyzer.Trojan.Runs.{groups, verdict, only}
use open_gfw_next.Analyzer.Trojan.Connection.{feed_all, sizes, feed_all-verdict}

abbrev positive : Seq
positive = record { length1 = 300; length2 = 150; length3 = 500; length4 = 100 }

positive_is_trojan : is_trojan_seq positive ≡ true
unfolding is_trojan_seq
positive_is_trojan = refl

-- no TLS record begins the connection, and it is judged all the same
abbrev before : List (Bool × Bytes)
before = (false, 71 ∷ 69 ∷ 84 ∷ []) ∷ []

abbrev chunks : List (Bool × Bytes)
chunks =
    (true, 1 ∷ []) ∷ (true, 2 ∷ 3 ∷ []) ∷ (false, 4 ∷ []) ∷ (true, 5 ∷ []) ∷ (false, 6 ∷ []) ∷ []

feed_all-verdict_example :
    feed_all new (before ++ (false, ccs_pattern) ∷ chunks)
    ≡ some (only (verdict (groups false (length ccs_pattern) (sizes chunks))))
feed_all-verdict_example =
    feed_all-verdict before ccs_pattern chunks (inr (unfold is_ccs in refl), tt)
      (unfold is_ccs in refl) (λ e. cc, (λ e. cc, (λ e. cc, (λ e. cc, (λ e. cc, tt)))))
