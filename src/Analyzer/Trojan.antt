-- ===== src/Analyzer/Trojan.antt =====
-- analyzer/tcp/trojan.go. The counters stay plain numbers: the engine feeds a stream at most 512000
-- bytes (`Limit`). `Feed` faults where it would write past the end of `seq`.
pub mod Tree
pub mod Runs
pub mod Connection
use open_gfw_next.Base.{
  ℕ, suc, ◌+◌, Bool, true, false, not, ◌&&◌, ◌||◌, Option, none, some, List, [], ◌∷◌, Bytes, ltb,
  leb, ◌==◌, if◌then◌else◌, length, take, beq,
}
use open_gfw_next.Utils.ByteBuffer.{at}
use Tree.{Seq, is_trojan_seq}

-- Limit
abbrev pub limit : ℕ
limit = 512000

abbrev pub ccs_pattern : Bytes
ccs_pattern = 20 ∷ 3 ∷ 3 ∷ 0 ∷ 1 ∷ 1 ∷ []

-- trojanStream, less its logger
pub record Stream : Type 0 where
  pub first : Bool
  pub count : Bool
  pub rev : Bool
  pub seq : Seq
  pub seq_index : ℕ

abbrev pub zero_seq : Seq
zero_seq = record { length1 = 0; length2 = 0; length3 = 0; length4 = 0 }

-- newTrojanStream
unfoldable pub new : Stream
new = record { first = false; count = false; rev = false; seq = zero_seq; seq_index = 0 }

-- what `Feed` returns: no update, or the replacement {"seq", "yes"}
pub record Report : Type 0 where
  pub seq : Seq
  pub yes : Bool

pub record Fed : Type 0 where
  pub stream : Stream
  pub update : Option Report
  pub done : Bool

-- s.seq[i] += n; `none` is the run-time panic of an index out of range
pub add_at : Seq → ℕ → ℕ → Option Seq
add_at q i n =
    if i == 0
    then some (record q { length1 = q.length1 + n })
    else if i == 1
    then some (record q { length2 = q.length2 + n })
    else if i == 2
    then some (record q { length3 = q.length3 + n })
    else if i == 3
    then some (record q { length4 = q.length4 + n })
    else none

-- the check on the first chunk: it looks like a TLS record from the client
pub is_tls_start : Bool → Bytes → Bool
is_tls_start rev bytes =
    not rev
    && leb 3 (length bytes)
    && leb 0x16 (at bytes 0)
    && leb (at bytes 0) 0x17
    && (at bytes 1 == 0x03)
    && leb (at bytes 2) 0x09

unfoldable pub equal : Bytes → Bytes → Bool
equal [] (b ∷ bs) = false
equal (a ∷ rest) [] = false
equal [] [] = true
equal (a ∷ rest) (b ∷ bs) = (a == b) && equal rest bs

-- the client's Change Cipher Spec
unfoldable pub is_ccs : Bytes → Bool
unfolding equal
is_ccs bytes = leb 6 (length bytes) && equal (take 6 bytes) ccs_pattern

abbrev quiet : Stream → Fed
quiet s = record { stream = s; update = none; done = false }

abbrev store : Stream → Option Seq → Option Fed
store s none = none
store s (some q) = some (quiet (record s { seq = q }))

-- the block under `if s.count`
pub tally : Stream → Bool → ℕ → Option Fed
unfolding add_at is_trojan_seq
tally s rev n =
    let same = store s (add_at s.seq s.seq_index n) in
    let turned : Stream = record s { seq_index = s.seq_index + 1 } in
    let report : Report = record { seq = s.seq; yes = is_trojan_seq s.seq } in
    let moved = store (record turned { rev = rev }) (add_at s.seq turned.seq_index n) in
    if beq rev s.rev
    then same
    else if turned.seq_index == 4
    then some (record { stream = turned; update = some report; done = true })
    else moved

-- Feed from the search for the Change Cipher Spec on
pub feed_counted : Stream → Bool → Bytes → Option Fed
feed_counted s rev bytes =
    let s' : Stream =
      if not rev && not s.count && is_ccs bytes then record s { count = true } else s in
    let t = tally s' rev (length bytes) in if s'.count then t else some (quiet s')

-- Feed
pub feed : Stream → Bool → ℕ → Bytes → Option Fed
feed s rev skip bytes =
    let refused : Stream = record s { first = false } in
    if not (skip == 0)
    then some (record { stream = s; update = none; done = true })
    else if length bytes == 0
    then some (quiet s)
    else if s.first && not (is_tls_start rev bytes)
    then some (record { stream = refused; update = none; done = true })
    else feed_counted refused rev bytes
