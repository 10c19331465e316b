-- ===== src/Analyzer/Dns/Stream.antt =====
-- analyzer/udp/dns.go: the TCP stream. The fields and the machine of one direction are a `Half`,
-- since the code of the two directions is the same. A map is of any type `M` here, and `parse` stands
-- for parseDNSMessage.
use open_gfw_next.Base.{
  ℕ, suc, ◌+◌, ◌*◌, Bool, true, false, not, ◌&&◌, ◌||◌, Option, none, some, [], ◌∷◌, Bytes, ◌==◌,
  if◌then◌else◌, length,
}
use open_gfw_next.Utils.ByteBuffer
use open_gfw_next.Utils.ByteBuffer.{ByteBuffer, at}
use open_gfw_next.Utils.Lsm
use open_gfw_next.Utils.Lsm.{Lsm, Ran, Outcome, LsmAction, pause, next, reset, cancel}

-- the two steps of a direction's machine
pub data Step : Type 0 where
  message_length message : Step

-- the fields that the steps of a direction use
pub record Reader (M : Type 0) : Type 0 where
  pub buf : ByteBuffer
  pub map : Option M
  pub updated : Bool
  pub msg_len : ℕ

pub record Half (M : Type 0) : Type 0 where
  pub reader : Reader M
  pub lsm : Lsm Step
  pub done : Bool

-- dnsTCPStream, less its logger
pub record Stream (M : Type 0) : Type 0 where
  pub req : Half M
  pub resp : Half M

pub record Fed (M : Type 0) : Type 0 where
  pub stream : Stream M
  pub update : Option M
  pub done : Bool

abbrev pub steps_at : ℕ → Lsm Step
steps_at i = record { steps = message_length ∷ (message ∷ []); index = i; cancelled = false }

abbrev pub new_half : {M : Type 0} → Half M
new_half = record {
  reader = record { buf = ByteBuffer.empty; map = none; updated = false; msg_len = 0 };
  lsm = Lsm.new (message_length ∷ (message ∷ []));
  done = false;
}

-- NewTCP
unfoldable pub new : {M : Type 0} → Stream M
new = record { req = new_half; resp = new_half }

module _ {M : Type 0} where
  -- getReqMessageLength and getRespMessageLength
  unfoldable pub get_message_length : Reader M → Outcome Step (Reader M)
  get_message_length s =
      let (b, bytes) = ByteBuffer.get s.buf 2 true in
      elim bytes [
        | none ↦ record { state = record s { buf = b }; appended = []; action = pause }
        | some bs ↦ record {
          state = record s { buf = b; msg_len = at bs 0 * 256 + at bs 1 };
          appended = [];
          action = next;
        }
      ]

  -- getReqMessage and getRespMessage
  unfoldable pub get_message : (Bytes → Option M) → Reader M → Outcome Step (Reader M)
  get_message parse s =
      let (b, bytes) = ByteBuffer.get s.buf s.msg_len true in
      elim bytes [
        | none ↦ record { state = record s { buf = b }; appended = []; action = pause }
        | some bs ↦ elim (parse bs) [
          | none ↦ record { state = record s { buf = b }; appended = []; action = cancel }
          | some m ↦ record {
            state = record s { buf = b; map = some m; updated = true };
            appended = [];
            action = reset;
          }
        ]
      ]

module _ {M : Type 0} (parse : Bytes → Option M) where
  unfoldable pub exec : Step → Reader M → Outcome Step (Reader M)
  unfolding get_message_length get_message
  exec message_length s = get_message_length s
  exec message s = get_message parse s

  -- each pair of steps takes two bytes at least
  abbrev pub fuel : Reader M → ℕ
  fuel s = suc (suc (2 * length s.buf.buf))

  -- what `Feed` makes of a run: the half it leaves, the update, and `cancelled`
  unfoldable pub conclude : Option (Ran Step (Reader M)) → Option (Half M × Option M × Bool)
  conclude none = none
  conclude (some r) = some (
    record { reader = record (r.state) { updated = false }; lsm = r.machine; done = r.done },
    if r.state.updated then r.state.map else none,
    r.cancelled,
  )

  -- one direction's share of `Feed`
  unfoldable pub feed_half : Half M → Bytes → Option (Half M × Option M × Bool)
  unfolding exec conclude
  feed_half h bytes =
      let s : Reader M = record (h.reader) {
        buf = ByteBuffer.append h.reader.buf bytes;
        updated = false;
      } in
      conclude (Lsm.run exec (fuel s) h.lsm s)

  -- Feed
  unfoldable pub feed : Stream M → Bool → ℕ → Bytes → Option (Fed M)
  unfolding feed_half
  feed s rev skip bytes =
      if not (skip == 0)
      then some (record { stream = s; update = none; done = true })
      else if length bytes == 0
      then some (record { stream = s; update = none; done = false })
      else if rev
      then elim (feed_half s.resp bytes) [
        | none ↦ none
        | some (h, u, c) ↦ some (record {
          stream = record s { resp = h };
          update = u;
          done = c || (s.req.done && h.done);
        })
      ]
      else elim (feed_half s.req bytes) [
        | none ↦ none
        | some (h, u, c) ↦ some (record {
          stream = record s { req = h };
          update = u;
          done = c || (h.done && s.resp.done);
        })
      ]

-- Close, which returns no update
unfoldable pub close : {M : Type 0} → Stream M → Stream M
close s = record {
  req = record (s.req) { reader = record (s.req.reader) { buf = ByteBuffer.empty; map = none } };
  resp = record (s.resp) { reader = record (s.resp.reader) { buf = ByteBuffer.empty; map = none } };
}
