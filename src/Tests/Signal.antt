-- ===== src/Tests/Signal.antt =====
-- server/src/session/webrtc_signal.rs, server/src/ws/webrtc_transport.rs and the peer connection of
-- agent/src/quic/server.rs with a few peers.
use oxmux.Prelude.{ℕ, ◌≡◌, ◌≤◌, refl, true, List, [], ◌∷◌, ◌++◌, none, some, length}
use oxmux.Prelude.Text.{Text, codes, text_eq, split, trim}
use oxmux.Prelude.Maps.{get, insert, remove}
use oxmux.Prelude.Decimal.{show}
use oxmux.Ice.{stun_server}
use oxmux.Agent.WebRtc.{ice_servers, on_channel, on_open, on_close}
use oxmux.Ws.WebRtc.{WebRtcLibrary, WebRtcManager, handle_offer, remove_peer}
use oxmux.Tests.Agent.{fresh}
use oxmux.Tests.Server.{coturn}
use oxmux.Result.{ok, err}
use oxmux.Session.Signal.{
  SignalMessage, offer, bye, Channel, WebRtcSignaler, new, relay_signal, create_signal_channel,
  dropped,
}
use oxmux.Session.Signal.Mailbox.{calls-InOrder}
use oxmux.Session.Signal.Calls.{Call, relays, receives, creates, calls, mailbox, given, taken}

abbrev channel : Channel
channel = record { waiting = []; has_receiver = true }

abbrev relay : WebRtcSignaler
relay = create_signal_channel (codes "agent") new

ready_relay : get (codes "agent") relay.signal_channels ≡ some channel
unfolding create_signal_channel new get insert text_eq
ready_relay = refl

abbrev to_agent : Text → SignalMessage
to_agent sdp = offer (codes "browser") (codes "agent") sdp

abbrev talk : List Call
talk =
    relays (to_agent (codes "1"))
    ∷ creates (codes "browser")
    ∷ relays (to_agent (codes "2"))
    ∷ receives (codes "agent")
    ∷ []

calls-InOrder_example :
    (get (codes "agent") (calls talk relay).1.signal_channels
      ≡ some (mailbox (codes "agent") talk channel))
    × ((c : Channel) × (get (codes "agent") (calls talk relay).1.signal_channels ≡ some c)
        × ([] ++ given (codes "agent") (calls talk relay).0
            ≡ taken (codes "agent") (calls talk relay).0 ++ c.waiting)
        × (0 ≤ 64 → length c.waiting ≤ 64))
unfolding text_eq
calls-InOrder_example =
    calls-InOrder (codes "agent") talk channel relay (tt, (refl, (tt, (tt, tt)))) ready_relay

-- Nobody is told that a peer has left.
left_silently : relay_signal (bye (codes "browser")) relay ≡ (dropped, relay)
unfolding relay_signal
left_silently = refl

-- a library that numbers the connections by their offers
abbrev webrtc : WebRtcLibrary ℕ
webrtc = record {
  new_peer_connection = λ servers. ok 5;
  set_remote_description = λ pc offer. ok tt;
  create_answer = λ pc. ok (codes "answer");
  set_local_description = λ pc answer. ok tt;
  add_ice_candidate = λ pc candidate. ok tt;
}

abbrev one_peer : WebRtcManager ℕ
one_peer = record { peers = (codes "p", 4) ∷ []; closed = [] }

-- The connection 4 is neither in the table any longer nor closed.
replaced_open :
    remove_peer
      (codes "p")
      (handle_offer webrtc (λ secret name. err []) 0 coturn (codes "p") (codes "offer") one_peer).1
    ≡ record { peers = []; closed = 5 ∷ [] }
unfolding remove_peer handle_offer get insert remove text_eq
replaced_open = refl

-- A secret without servers gives a server without an address.
empty_address :
    ice_servers
      (λ secret name. [])
      0
      (record { coturn_auth_secret = some (codes "k"); coturn_servers = none; public_ip = none })
    ≡ stun_server
      ∷ record {
        urls = codes "turn:" ∷ [];
        username = some (codes "86400:oxmux-agent");
        credential = some [];
      }
      ∷ []
unfolding ice_servers show split trim
empty_address = refl

-- The close of channel 1 makes the session forget channel 2.
newer_forgotten : (on_channel (on_close 1) (on_channel (on_open 2) fresh)).webrtc_dc ≡ none
unfolding on_channel
newer_forgotten = refl
