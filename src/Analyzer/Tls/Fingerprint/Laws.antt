-- ===== src/Analyzer/Tls/Fingerprint/Laws.antt =====
-- What the fingerprints of analyzer/internal/tls.go do not depend on.
use mathlib.Core.List
use mathlib.Core.List.{Perm, Permᴰ}
use mathlib.Core.Logic.{∥∥₁_elim}
use native.Mathlib.Nat.{ℕ_set}
use open_gfw_next.Base.{
  ℕ, suc, ◌<◌, ◌≡◌, refl, sym, ap, ◌∙◌, Bool, false, ◌||◌, Option, List, [], ◌∷◌, Bytes, arith,
  ◌==◌, length,
}
use open_gfw_next.Utils.Sorting.{sort, insert_swap, sort-perm, length-sort}
use open_gfw_next.Utils.Strings.{codes}
use open_gfw_next.Utils.Strings.Format.{join}
use open_gfw_next.Analyzer.Tls.{Versions}
use open_gfw_next.Analyzer.Tls.Fingerprint.{
  is_grease, filter_grease, ja4_hex_parts, hashed_extensions, hash_parts, ja4_sha12,
  ja4_hash_hex_values, ja4_extension_hash, build_ja4,
}

-- the values that RFC 8701 reserves
abbrev pub grease_values : List ℕ
grease_values =
    0x0a0a
    ∷ (0x1a1a
        ∷ (0x2a2a
            ∷ (0x3a3a
                ∷ (0x4a4a
                    ∷ (0x5a5a
                        ∷ (0x6a6a
                            ∷ (0x7a7a
                                ∷ (0x8a8a
                                    ∷ (0x9a9a
                                        ∷ (0xaaaa
                                            ∷ (0xbaba
                                                ∷ (0xcaca
                                                    ∷ (0xdada
                                                        ∷ (0xeaea ∷ (0xfafa ∷ [])))))))))))))))

abbrev pub is_one_of : ℕ → List ℕ → Bool
is_one_of v [] = false
is_one_of v (w ∷ ws) = v == w || is_one_of v ws

-- A 16-bit number counts as GREASE exactly if it is one of the 16 values of RFC 8701.
pub is_grease-reserved : (v : ℕ) → v < 65536 → is_grease v ≡ is_one_of v grease_values
unfolding is_grease
is_grease-reserved v h = ground (arith, h)

hashed-Permᴰ :
    {vs ws : List ℕ} → Permᴰ vs ws → sort (hashed_extensions vs) ≡ sort (hashed_extensions ws)
unfolding hashed_extensions sort
hashed-Permᴰ Permᴰ.nil = refl
hashed-Permᴰ (Permᴰ.cons e p) = ground (arith, e, hashed-Permᴰ p)
hashed-Permᴰ (Permᴰ.swap {a = a} {b = b} {l = l} e f) =
    ground (arith, e, f, insert_swap a b (sort (hashed_extensions l)))
hashed-Permᴰ (Permᴰ.trans p q) = hashed-Permᴰ p ∙ hashed-Permᴰ q

hashed-perm :
    {vs ws : List ℕ} → Perm vs ws → sort (hashed_extensions vs) ≡ sort (hashed_extensions ws)
hashed-perm p = ∥∥₁_elim p (List.is_set ℕ_set _ _) hashed-Permᴰ

length-perm : (vs ws : List ℕ) → Perm vs ws → length vs ≡ length ws
length-perm vs ws p = sym (length-sort vs) ∙ (ap length (sort-perm p) ∙ length-sort ws)

hash_parts-some :
    (sha256 : Bytes → Bytes) (ws : List ℕ) (n : ℕ)
    → length ws ≡ suc n
    → ja4_sha12 sha256 (join (codes ",") (ja4_hex_parts ws))
      ≡ hash_parts sha256 (ja4_hex_parts ws) []
unfolding hash_parts ja4_hex_parts
hash_parts-some sha256 [] n h = absurd (omega arith)
hash_parts-some sha256 (w ∷ ws) n h = refl

ja4_hash_hex_values-sorted :
    (sha256 : Bytes → Bytes) (vs : List ℕ)
    → ja4_hash_hex_values sha256 vs ≡ hash_parts sha256 (ja4_hex_parts (sort vs)) []
unfolding ja4_hash_hex_values hash_parts
ja4_hash_hex_values-sorted sha256 [] = refl
ja4_hash_hex_values-sorted sha256 (v ∷ vs) =
    hash_parts-some sha256 (sort (v ∷ vs)) (length vs) (length-sort (v ∷ vs))

-- The JA4 fingerprint depends neither on the order of the cipher suites and of the extensions, nor
-- on GREASE values among them.
pub build_ja4-perm :
    (sha256 : Bytes → Bytes) (protocol : Bytes) (version : ℕ) (supported : Option Versions)
    (sni : Option Bytes) (ciphers ciphers' types types' : List ℕ) (alpn : Option (List Bytes))
    (algorithms : List ℕ)
    → Perm (filter_grease ciphers) (filter_grease ciphers')
    → Perm (filter_grease types) (filter_grease types')
    → build_ja4 sha256 protocol version supported sni ciphers types alpn algorithms
      ≡ build_ja4 sha256 protocol version supported sni ciphers' types' alpn algorithms
unfolding build_ja4
build_ja4-perm sha256 protocol version supported sni ciphers ciphers' types types' alpn algorithms p
      q =
    let count = length-perm (filter_grease ciphers) (filter_grease ciphers') p in
    let count' = length-perm (filter_grease types) (filter_grease types') q in
    let hash =
      ja4_hash_hex_values-sorted sha256 (filter_grease ciphers)
      ∙ (ap (λ vs. hash_parts sha256 (ja4_hex_parts vs) []) (sort-perm p)
          ∙ sym (ja4_hash_hex_values-sorted sha256 (filter_grease ciphers'))) in
    let hash' : ja4_extension_hash sha256 (filter_grease types) algorithms
        ≡ ja4_extension_hash sha256 (filter_grease types') algorithms =
      ap (λ vs. hash_parts sha256 (ja4_hex_parts vs) (ja4_hex_parts (filter_grease algorithms)))
        (hashed-perm q) in
    cc
