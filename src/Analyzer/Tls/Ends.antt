-- ===== src/Analyzer/Tls/Ends.antt =====
-- The hello parsers of analyzer/internal/tls.go end, on every buffer.
use open_gfw_next.Base.{
  ℕ, ◌%◌, ◌/◌, ◌≤◌, ◌≢◌, true, false, Option, none, some, [], Bytes, arith, ◌==◌, if◌then◌else◌,
  length, Bool-cases, inl, inr,
}
use open_gfw_next.Utils.ByteBuffer
use open_gfw_next.Utils.ByteBuffer.{ByteBuffer, get}
use open_gfw_next.Analyzer.Tls.{
  Read, value, no_fuel, Parser, ◌>>=◌, lift, ended, fail, u8, u16, bytes, sub_buffer, u16s,
  no_extensions,
}
use open_gfw_next.Analyzer.Tls.Hello.{
  extensions, trailing, opening, client_body, parse_client_hello, parse_server_hello, Found,
}
use open_gfw_next.Analyzer.Tls.Total.{
  Uses, after, weaker, lift-Uses, give-Uses, fail-Uses, u8-Uses, u16-Uses, bytes-Uses,
  sub_buffer-Uses, or_zero-Uses, get-length, get_uint16-length, get_byte-length, u16s-Uses,
  ended-ends, extensions-Uses,
}

all_extensions-ends :
    (d : ByteBuffer)
    → ended (λ (r : Found × ByteBuffer). r.0) (extensions (length d.buf) no_extensions d) ≢ no_fuel
all_extensions-ends d =
    ended-ends _ _ (extensions-Uses (length d.buf) no_extensions d.buf (omega arith)).0

sized-Uses :
    (n : ℕ) (b : ByteBuffer)
    → Uses 0 b (
        (sub_buffer n >>= λ d.
        lift (ended (λ (r : Found × ByteBuffer). r.0) (extensions (length d.buf) no_extensions d)))
          b)
sized-Uses n b =
    after 0 0 b (sub_buffer n b)
      (λ d.
        lift (ended (λ (r : Found × ByteBuffer). r.0) (extensions (length d.buf) no_extensions d)))
      (weaker n 0 b (sub_buffer n b) (omega arith) (sub_buffer-Uses n b))
      (λ d b1 _. lift-Uses _ b1 (all_extensions-ends d))

trailing-Uses : (b : ByteBuffer) → Uses 0 b (trailing b)
unfolding trailing
trailing-Uses b = from (ByteBuffer.get_uint16 b false true).1 (get_uint16-length b)
  where
    from :
        (size : Option ℕ)
        → length (ByteBuffer.get_uint16 b false true).0.buf ≤ length b.buf
        → Uses {A = Found} 0 b (elim size [
          | none ↦ value (([], no_extensions), (ByteBuffer.get_uint16 b false true).0)
          | some n ↦
              (sub_buffer n >>= λ d.
              lift (
                ended
                  (λ (r : Found × ByteBuffer). r.0)
                  (extensions (length d.buf) no_extensions d)))
                (ByteBuffer.get_uint16 b false true).0
        ])
    from none h = (λ e. cc, λ a b' e. ground (arith, e, h))
    from (some n) h =
        let u = sized-Uses n (ByteBuffer.get_uint16 b false true).0 in
        (u.0, λ a b' e. omega (arith, u.1 a b' e, h))

-- a step after one that leaves no longer a buffer
next :
    {A B : Type 0} (b : ByteBuffer) (r : Read (A × ByteBuffer)) (f : A → Parser B)
    → Uses 0 b r
    → ((a : A) (b' : ByteBuffer) → Uses 0 b' (f a b'))
    → Uses 0 b ((◌>>=◌ (λ _. r) f) b)
next b r f u v = after 0 0 b r f u (λ a b' _. v a b')

some_bytes-Uses : (n : ℕ) (b : ByteBuffer) → Uses 0 b (bytes n b)
some_bytes-Uses n b = weaker n 0 b (bytes n b) (omega arith) (bytes-Uses n b)

some_u8-Uses : (b : ByteBuffer) → Uses 0 b (u8 b)
some_u8-Uses b = weaker 1 0 b (u8 b) (omega arith) (u8-Uses b)

some_u16-Uses : (b : ByteBuffer) → Uses 0 b (u16 b)
some_u16-Uses b = weaker 2 0 b (u16 b) (omega arith) (u16-Uses b)

opening-Uses : (b : ByteBuffer) → Uses 0 b (opening b)
unfolding opening
opening-Uses b =
    next {A = ℕ} b _ _ (or_zero-Uses 0 b (ByteBuffer.get_uint16 b false true) (get_uint16-length b))
      (λ v b1.
        next {A = Bytes} b1 _ _ (or_zero-Uses [] b1 (get b1 32 true) (get-length b1 32)) (λ r b2.
          next {A = ℕ} b2 _ _ (or_zero-Uses 0 b2 (ByteBuffer.get_byte b2 true) (get_byte-length b2))
            (λ n b3. next b3 _ _ (some_bytes-Uses n b3) (λ s b4. give-Uses _ b4))))

cipher_list-Uses :
    (n : ℕ) (b : ByteBuffer) → Uses 0 b ((if n % 2 == 0 then u16s (n / 2) else fail) b)
cipher_list-Uses n b = elim (Bool-cases (n % 2 == 0)) [
  | inl y ↦ rw y (u16s-Uses (n / 2) b)
  | inr y ↦ rw y (fail-Uses b)
]

client_body-Uses : (b : ByteBuffer) → Uses 0 b (client_body b)
unfolding client_body
client_body-Uses b = next b _ _ (some_u16-Uses b) (λ n b1.
    next b1 _ _ (cipher_list-Uses n b1) (λ cs b2.
      next b2 _ _ (some_u8-Uses b2)
        (λ m b3. next b3 _ _ (some_bytes-Uses m b3) (λ c b4. give-Uses _ b4))))

-- The parser of client hellos ends on every buffer, with a map or with nil.
pub parse_client_hello-ends : (b : ByteBuffer) → parse_client_hello b ≢ no_fuel
unfolding parse_client_hello
parse_client_hello-ends b =
    (next b _ _ (opening-Uses b) (λ o b1.
      next b1 _ _ (client_body-Uses b1)
        (λ body b2. next b2 _ _ (trailing-Uses b2) (λ found b3. give-Uses _ b3)))).0

-- The parser of server hellos ends on every buffer, with a map or with nil.
pub parse_server_hello-ends : (b : ByteBuffer) → parse_server_hello b ≢ no_fuel
unfolding parse_server_hello
parse_server_hello-ends b =
    (next b _ _ (opening-Uses b) (λ o b1. next b1 _ _ (some_u16-Uses b1) (λ c b2.
      next b2 _ _ (some_u8-Uses b2)
        (λ m b3. next b3 _ _ (trailing-Uses b3) (λ found b4. give-Uses _ b4))))).0
