-- ===== src/Session/Signal.antt =====
-- server/src/session/webrtc_signal.rs: the relay of messages between browsers and agents. A channel is the
-- messages that wait in it, with whether its receiver is still there; a relay that finds it full waits, and
-- is tried again.
pub mod Calls
pub mod Balanced
pub mod Mailbox
use oxmux.Prelude.{
  ℕ, zero, suc, Bool, true, false, List, [], ◌∷◌, ◌++◌, Option, none, some, if◌then◌else◌, ltb,
  length,
}
use oxmux.Prelude.Text.{Text}
use oxmux.Prelude.Maps.{Map, get, insert, remove, modify, values, contains_key}

pub record AgentInfo : Type 0 where
  pub agent_id : Text
  pub hostname : Text
  pub quic_addr : Option Text
  pub webrtc_capable : Bool
  pub last_seen : ℕ

pub data SignalMessage : Type 0 where
  offer : (from to sdp : Text) → SignalMessage
  answer : (from to sdp : Text) → SignalMessage
  ice_candidate :
      (from to candidate : Text) (sdp_mid : Option Text) (sdp_mline_index : Option ℕ)
      → SignalMessage
  ready : (agent_id : Text) → SignalMessage
  bye : (from : Text) → SignalMessage

pub record Channel : Type 0 where
  pub waiting : List SignalMessage
  pub has_receiver : Bool

pub record WebRtcSignaler : Type 0 where
  pub agents : Map AgentInfo
  pub signal_channels : Map Channel

unfoldable pub new : WebRtcSignaler
new = record { agents = []; signal_channels = [] }

unfoldable pub register_agent : AgentInfo → WebRtcSignaler → WebRtcSignaler
register_agent info s = record s { agents = insert info.agent_id info s.agents }

unfoldable pub unregister_agent : Text → WebRtcSignaler → WebRtcSignaler
unregister_agent agent_id s = record s {
  agents = remove agent_id s.agents;
  signal_channels = remove agent_id s.signal_channels;
}

unfoldable pub list_agents : WebRtcSignaler → List AgentInfo
list_agents s = values s.agents

unfoldable pub is_agent_online : Text → WebRtcSignaler → Bool
is_agent_online agent_id s = contains_key agent_id s.agents

abbrev pub capacity : ℕ
capacity = 64

-- a new channel takes the place of the peer's old one
unfoldable pub create_signal_channel : Text → WebRtcSignaler → WebRtcSignaler
create_signal_channel peer_id s = record s {
  signal_channels = insert peer_id (record { waiting = []; has_receiver = true }) s.signal_channels;
}

unfoldable pub remove_signal_channel : Text → WebRtcSignaler → WebRtcSignaler
remove_signal_channel peer_id s = record s { signal_channels = remove peer_id s.signal_channels }

-- how a relay ends
pub data Relayed : Type 0 where
  sent : Relayed
  -- no channel for the peer, or nobody to tell
  dropped : Relayed
  closed : Relayed
  waits : Relayed

-- whom a message is for
unfoldable pub target : SignalMessage → Option Text
target (offer from to sdp) = some to
target (answer from to sdp) = some to
target (ice_candidate from to candidate sdp_mid sdp_mline_index) = some to
target (ready agent_id) = some agent_id
target (bye from) = none

abbrev pub add_message : SignalMessage → Channel → Channel
add_message msg c = record c { waiting = c.waiting ++ msg ∷ [] }

-- `tx.send`
abbrev pub send_on : Text → SignalMessage → Channel → WebRtcSignaler → Relayed × WebRtcSignaler
send_on peer msg c s =
    if c.has_receiver
    then if ltb (length c.waiting) capacity
      then (sent, record s { signal_channels = modify peer (add_message msg) s.signal_channels })
      else (waits, s)
    else (closed, s)

unfoldable pub relay_signal : SignalMessage → WebRtcSignaler → Relayed × WebRtcSignaler
unfolding target
relay_signal msg s = elim (target msg) [
  | none ↦ (dropped, s)
  | some peer ↦ elim (get peer s.signal_channels) [
    | none ↦ (dropped, s)
    | some c ↦ send_on peer msg c s
  ]
]

abbrev pub first_waiting : List SignalMessage → Option SignalMessage
first_waiting [] = none
first_waiting (msg ∷ msgs) = some msg

abbrev rest_waiting : List SignalMessage → List SignalMessage
rest_waiting [] = []
rest_waiting (msg ∷ msgs) = msgs

abbrev pub without_first : Channel → Channel
without_first c = record c { waiting = rest_waiting c.waiting }

-- the peer takes a message off its receiver
unfoldable pub receive : Text → WebRtcSignaler → Option SignalMessage × WebRtcSignaler
receive peer s = elim (get peer s.signal_channels) [
  | none ↦ (none, s)
  | some c ↦ (
    first_waiting c.waiting,
    record s { signal_channels = modify peer without_first s.signal_channels },
  )
]
