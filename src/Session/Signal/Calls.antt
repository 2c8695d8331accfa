-- ===== src/Session/Signal/Calls.antt =====
-- server/src/session/webrtc_signal.rs: calls of the methods, one after the other, and what came of them.
use oxmux.Prelude.{
  ◌≤◌, ◌≡◌, ltb, ◌&&◌, Bool, false, List, [], ◌∷◌, ◌++◌, Option, none, some, if◌then◌else◌, length,
}
use oxmux.Prelude.Text.{Text, text_eq}
use oxmux.Prelude.Maps.{Map, get}
use oxmux.Session.Signal.{
  offer, answer, ice_candidate, ready, bye, AgentInfo, SignalMessage, Channel, WebRtcSignaler,
  register_agent, unregister_agent, create_signal_channel, remove_signal_channel, Relayed, sent,
  dropped, closed, waits, relay_signal, receive, capacity,
}

-- a call of the relay, or of a peer on its receiver
pub data Call : Type 0 where
  registers : AgentInfo → Call
  unregisters : (agent_id : Text) → Call
  creates : (peer : Text) → Call
  removes : (peer : Text) → Call
  relays : SignalMessage → Call
  receives : (peer : Text) → Call

-- what came back: a message that was accepted, or one that was received
pub data Came : Type 0 where
  accepted : SignalMessage → Came
  received : (peer : Text) → SignalMessage → Came
  nothing : Came

abbrev pub relayed_as : SignalMessage → Relayed × WebRtcSignaler → Came × WebRtcSignaler
relayed_as msg (sent, s) = (accepted msg, s)
relayed_as msg (dropped, s) = (nothing, s)
relayed_as msg (closed, s) = (nothing, s)
relayed_as msg (waits, s) = (nothing, s)

abbrev pub received_as : Text → Option SignalMessage × WebRtcSignaler → Came × WebRtcSignaler
received_as peer (none, s) = (nothing, s)
received_as peer (some msg, s) = (received peer msg, s)

unfoldable pub call : Call → WebRtcSignaler → Came × WebRtcSignaler
call (registers info) s = (nothing, register_agent info s)
call (unregisters agent_id) s = (nothing, unregister_agent agent_id s)
call (creates peer) s = (nothing, create_signal_channel peer s)
call (removes peer) s = (nothing, remove_signal_channel peer s)
call (relays msg) s = relayed_as msg (relay_signal msg s)
call (receives peer) s = received_as peer (receive peer s)

unfoldable pub calls : List Call → WebRtcSignaler → List Came × WebRtcSignaler
unfolding call
calls [] s = ([], s)
calls (c ∷ cs) s = let (came, s1) = call c s in let (later, s2) = calls cs s1 in (came ∷ later, s2)

-- the messages for a peer that were accepted, and those that it received
-- A message is for the peer that it names as its receiver, `ready` for the agent itself, `bye` for none.
abbrev pub is_for : Text → SignalMessage → Bool
is_for peer (offer from to sdp) = text_eq to peer
is_for peer (answer from to sdp) = text_eq to peer
is_for peer (ice_candidate from to candidate sdp_mid sdp_mline_index) = text_eq to peer
is_for peer (ready agent_id) = text_eq agent_id peer
is_for peer (bye from) = false

abbrev pub given_one : Text → Came → List SignalMessage
given_one peer (accepted msg) = if is_for peer msg then msg ∷ [] else []
given_one peer (received from msg) = []
given_one peer nothing = []

abbrev pub taken_one : Text → Came → List SignalMessage
taken_one peer (accepted msg) = []
taken_one peer (received by msg) = if text_eq by peer then msg ∷ [] else []
taken_one peer nothing = []

abbrev pub given : Text → List Came → List SignalMessage
given peer [] = []
given peer (c ∷ cs) = given_one peer c ++ given peer cs

abbrev pub taken : Text → List Came → List SignalMessage
taken peer [] = []
taken peer (c ∷ cs) = taken_one peer c ++ taken peer cs

abbrev pub after_first : List SignalMessage → List SignalMessage
after_first [] = []
after_first (msg ∷ msgs) = msgs

-- what a call does to the peer's mailbox: a message for the peer is put behind the others when there is
-- a receiver and fewer than 64 messages wait, and the peer takes the first
abbrev pub mailbox_after : Text → Call → Channel → Channel
mailbox_after peer (relays msg) c =
    if is_for peer msg && c.has_receiver && ltb (length c.waiting) 64
    then record c { waiting = c.waiting ++ msg ∷ [] }
    else c
mailbox_after peer (receives other) c =
    if text_eq other peer then record c { waiting = after_first c.waiting } else c
mailbox_after peer _ c = c

abbrev pub mailbox : Text → List Call → Channel → Channel
mailbox peer [] c = c
mailbox peer (k ∷ ks) c = mailbox peer ks (mailbox_after peer k c)

-- No call makes or takes away the peer's channel.
abbrev pub KeepsOne : Text → Call → Type 0
KeepsOne peer (registers info) = Unit
KeepsOne peer (unregisters agent_id) = text_eq agent_id peer ≡ false
KeepsOne peer (creates other) = text_eq other peer ≡ false
KeepsOne peer (removes other) = text_eq other peer ≡ false
KeepsOne peer (relays msg) = Unit
KeepsOne peer (receives other) = Unit

abbrev pub Keeps : Text → List Call → Type 0
Keeps peer [] = Unit
Keeps peer (c ∷ cs) = KeepsOne peer c × Keeps peer cs

-- one call: what was in the channel and what came in is what went out and what is in it
abbrev pub Balance : Text → List SignalMessage → Came → Map Channel → Type 0
Balance peer before came m =
    (c : Channel) × (get peer m ≡ some c)
    × (before ++ given_one peer came ≡ taken_one peer came ++ c.waiting)
    × (length before ≤ capacity → length c.waiting ≤ capacity)
