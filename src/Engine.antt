-- ===== src/Engine.antt =====
-- The engine: how the streams of engine/tcp.go and engine/udp.go feed their analyzers and take verdicts.
pub mod Props
pub mod Tcp
pub mod Udp
use open_gfw_next.Base.{Bool, true, false}

-- io.Verdict; tcpVerdict and udpVerdict are subsets of it
pub data Verdict : Type 0 where
  accept accept_modify accept_stream drop_packet drop_stream : Verdict

abbrev pub is_accept : Verdict → Bool
is_accept accept = true
is_accept _ = false

-- ruleset.Action
pub data Action : Type 0 where
  maybe allow block drop_action modify : Action

-- the calls of the engine's Logger that concern one stream
pub data LogEvent : Type 0 where
  prop_update : Bool → LogEvent
  stream_action : Action → Bool → LogEvent
  modify_error : LogEvent
