-- ===== src/Analyzer/Udpflow.antt =====
-- analyzer/udp/udpflow.go. Times are nanoseconds, the clock's reading comes with the packet and does
-- not go back. A ratio of the property map is an exact fraction, numerator and denominator, 0 over 1
-- where the source gives 0; the thresholds 0.80 and 0.20 are compared with exactly, which agrees with
-- the source's 64-bit floats for counts below 2^50.
pub mod History
pub mod Counters
pub mod Summary
use open_gfw_next.Base.{
  ℕ, zero, suc, ◌+◌, ◌-◌, ◌*◌, Bool, true, false, not, ◌&&◌, ◌||◌, Option, none, some, List, [],
  ◌∷◌, Bytes, ltb, leb, ◌==◌, if◌then◌else◌, length, get_or,
}

-- udpFlowLongLivedThreshold
abbrev pub long_lived_threshold : ℕ
long_lived_threshold = 30000000000

-- udpFlowStream, less its clock; `none` for `started` is the zero time
pub record Stream : Type 0 where
  pub src_port : ℕ
  pub dst_port : ℕ
  pub started : Option ℕ
  pub last_seen : ℕ
  pub packet_count : ℕ
  pub tx_packet_count : ℕ
  pub rx_packet_count : ℕ
  pub first_packet_len : ℕ
  pub min_packet_len : ℕ
  pub max_packet_len : ℕ
  pub total_bytes : ℕ
  pub tx_bytes : ℕ
  pub rx_bytes : ℕ
  pub len_buckets : List ℕ
  pub first_lens : List ℕ
  pub first_tx_len : ℕ
  pub first_rx_len : ℕ
  pub last_direction : ℕ
  pub current_run : ℕ
  pub max_run : ℕ
  pub direction_turns : ℕ

-- NewUDP
unfoldable pub new : ℕ → ℕ → Stream
new src dst = record {
  src_port = src;
  dst_port = dst;
  started = none;
  last_seen = 0;
  packet_count = 0;
  tx_packet_count = 0;
  rx_packet_count = 0;
  first_packet_len = 0;
  min_packet_len = 0;
  max_packet_len = 0;
  total_bytes = 0;
  tx_bytes = 0;
  rx_bytes = 0;
  len_buckets = 0 ∷ (0 ∷ (0 ∷ (0 ∷ (0 ∷ (0 ∷ (0 ∷ (0 ∷ [])))))));
  first_lens = 0 ∷ (0 ∷ (0 ∷ (0 ∷ [])));
  first_tx_len = 0;
  first_rx_len = 0;
  last_direction = 0;
  current_run = 0;
  max_run = 0;
  direction_turns = 0;
}

-- udpFlowLenBucket
unfoldable pub len_bucket : ℕ → ℕ
len_bucket n =
    if n == 0
    then 0
    else if leb n 64
    then 1
    else if leb n 128
    then 2
    else if leb n 256
    then 3
    else if leb n 512
    then 4
    else if leb n 1024
    then 5
    else if leb n 1200
    then 6
    else 7

-- xs[i] = v and xs[i]++
unfoldable pub put_at : ℕ → ℕ → List ℕ → List ℕ
put_at i v [] = []
put_at zero v (x ∷ xs) = v ∷ xs
put_at (suc i) v (x ∷ xs) = x ∷ put_at i v xs

unfoldable pub bump_at : ℕ → List ℕ → List ℕ
bump_at i [] = []
bump_at zero (x ∷ xs) = (x + 1) ∷ xs
bump_at (suc i) (x ∷ xs) = x ∷ bump_at i xs

-- updateDirectionRun
unfoldable pub update_direction_run : Stream → Bool → Stream
update_direction_run s rev =
    let direction = if rev then 2 else 1 in
    let turned = not (s.last_direction == direction) in
    let run = if turned then 1 else s.current_run + 1 in
    if s.last_direction == 0
    then record s { current_run = 1; max_run = 1; last_direction = direction }
    else record s {
      direction_turns = if turned then s.direction_turns + 1 else s.direction_turns;
      current_run = run;
      last_direction = direction;
      max_run = if ltb s.max_run run then run else s.max_run;
    }

-- the counters of Feed, for a packet of that length
unfoldable pub count_packet : Stream → Bool → ℕ → ℕ → Stream
unfolding len_bucket put_at bump_at update_direction_run
count_packet s rev now n =
    let is_first = s.packet_count == 0 in
    let s' = update_direction_run s rev in
    record s' {
      started = if is_first then some now else s.started;
      first_packet_len = if is_first then n else s.first_packet_len;
      last_seen = now;
      packet_count = s.packet_count + 1;
      rx_packet_count = if rev then s.rx_packet_count + 1 else s.rx_packet_count;
      tx_packet_count = if rev then s.tx_packet_count else s.tx_packet_count + 1;
      first_lens =
          if leb (s.packet_count + 1) 4 then put_at s.packet_count n s.first_lens else s.first_lens;
      first_rx_len = if rev && s.first_rx_len == 0 then n else s.first_rx_len;
      first_tx_len = if not rev && s.first_tx_len == 0 then n else s.first_tx_len;
      total_bytes = s.total_bytes + n;
      rx_bytes = if rev then s.rx_bytes + n else s.rx_bytes;
      tx_bytes = if rev then s.tx_bytes else s.tx_bytes + n;
      min_packet_len =
          if s.min_packet_len == 0 || ltb n s.min_packet_len then n else s.min_packet_len;
      max_packet_len = if ltb s.max_packet_len n then n else s.max_packet_len;
      len_buckets = bump_at (len_bucket n) s.len_buckets;
    }

-- duration
unfoldable pub duration : Stream → ℕ → ℕ
duration s now = elim (s.started) [ none ↦ 0 | some t ↦ now - t ]

-- udpFlowRatio, which is also each other ratio of two counters
unfoldable pub flow_ratio : ℕ → ℕ → ℕ × ℕ
flow_ratio count total = if total == 0 then (0, 1) else (count, total)

-- a count over a duration in seconds
unfoldable pub rate : ℕ → ℕ → ℕ × ℕ
rate count nanoseconds = if nanoseconds == 0 then (0, 1) else (count * 1000000000, nanoseconds)

-- is a ratio at least n fifths?
abbrev at_least_fifths : ℕ → ℕ × ℕ → Bool
at_least_fifths n (a, b) = leb (n * b) (5 * a)

-- the map of propMap; the entries that are the counters themselves are `counters`
pub record PropMap : Type 0 where
  pub counters : Stream
  pub tx_packet_ratio : ℕ × ℕ
  pub rx_packet_ratio : ℕ × ℕ
  pub avg_packet_len : ℕ × ℕ
  pub tx_byte_ratio : ℕ × ℕ
  pub rx_byte_ratio : ℕ × ℕ
  pub duration : ℕ
  pub packet_rate : ℕ × ℕ
  pub byte_rate : ℕ × ℕ
  pub long_lived : Bool
  pub bidirectional : Bool
  pub large_packet_count : ℕ
  pub large_packet_ratio : ℕ × ℕ
  pub small_packet_count : ℕ
  pub small_packet_ratio : ℕ × ℕ
  pub tx_dominant : Bool
  pub rx_dominant : Bool
  pub balanced_directions : Bool
  pub bucket_ratios : List (ℕ × ℕ)
  pub udp443 : Bool

unfoldable pub bucket_ratios_of : ℕ → List ℕ → List (ℕ × ℕ)
unfolding flow_ratio
bucket_ratios_of total [] = []
bucket_ratios_of total (x ∷ xs) = flow_ratio x total ∷ bucket_ratios_of total xs

-- propMap
unfoldable pub prop_map : Stream → ℕ → PropMap
unfolding duration flow_ratio rate bucket_ratios_of
prop_map s now =
    let large = get_or s.len_buckets 6 0 + get_or s.len_buckets 7 0 in
    let small = get_or s.len_buckets 1 0 + get_or s.len_buckets 2 0 in
    let tx = flow_ratio s.tx_packet_count s.packet_count in
    let rx = flow_ratio s.rx_packet_count s.packet_count in
    let d = duration s now in
    record {
      counters = s;
      tx_packet_ratio = tx;
      rx_packet_ratio = rx;
      avg_packet_len = flow_ratio s.total_bytes s.packet_count;
      tx_byte_ratio = flow_ratio s.tx_bytes s.total_bytes;
      rx_byte_ratio = flow_ratio s.rx_bytes s.total_bytes;
      duration = d;
      packet_rate = rate s.packet_count d;
      byte_rate = rate s.total_bytes d;
      long_lived = leb long_lived_threshold d;
      bidirectional = ltb 0 s.tx_packet_count && ltb 0 s.rx_packet_count;
      large_packet_count = if s.packet_count == 0 then 0 else large;
      large_packet_ratio = flow_ratio large s.packet_count;
      small_packet_count = if s.packet_count == 0 then 0 else small;
      small_packet_ratio = flow_ratio small s.packet_count;
      tx_dominant = at_least_fifths 4 tx;
      rx_dominant = at_least_fifths 4 rx;
      balanced_directions = at_least_fifths 1 tx && at_least_fifths 1 rx;
      bucket_ratios = bucket_ratios_of s.packet_count s.len_buckets;
      udp443 = s.dst_port == 443;
    }

-- Feed: the stream, and the map that it merges; it is never done
unfoldable pub feed : Stream → Bool → ℕ → Bytes → Stream × PropMap
unfolding count_packet prop_map
feed s rev now bytes = let s' = count_packet s rev now (length bytes) in (s', prop_map s' now)
