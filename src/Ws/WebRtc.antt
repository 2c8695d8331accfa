-- ===== src/Ws/WebRtc.antt =====
-- server/src/ws/webrtc_transport.rs: browsers over a WebRTC data channel. The library `webrtc` is a parameter;
-- a peer connection is a value of its type `Peer`.
use oxmux.Prelude.{ℕ, List, [], ◌∷◌, Option, none, some, map}
use oxmux.Prelude.Text.{Text, codes}
use oxmux.Prelude.Maps.{Map, get, insert, remove}
use oxmux.Result.{Result, ok, err, ok_or, ◌>>=◌}
use oxmux.Ice.{IceServer, CoturnConfig, TurnCredentials, stun_server, generate_turn_credentials}
use oxmux.Ws.Protocol.{ServerMsg, ClientMsg}
use oxmux.Ws.State.{Outside}
use oxmux.Ws.Socket.{Receiver, Socket, add_frames, on_client_msg, drain_pane_outputs}

pub record Candidate : Type 0 where
  pub candidate : Text
  pub sdp_mid : Option Text
  pub sdp_mline_index : Option ℕ

pub record WebRtcLibrary (Peer : Type 0) : Type 0 where
  pub new_peer_connection : List IceServer → Result Peer
  pub set_remote_description : Peer → (offer : Text) → Result (Unit {0})
  pub create_answer : Peer → Result Text
  pub set_local_description : Peer → (answer : Text) → Result (Unit {0})
  pub add_ice_candidate : Peer → Candidate → Result (Unit {0})

pub record WebRtcManager (Peer : Type 0) : Type 0 where
  pub peers : Map Peer
  -- the connections that were closed
  pub closed : List Peer

abbrev turn_server : TurnCredentials → Text → IceServer
turn_server creds uri = record {
  urls = uri ∷ [];
  username = some creds.username;
  credential = some creds.credential;
}

-- a server for each address, TURNS too
abbrev pub turn_servers : Result TurnCredentials → List IceServer
turn_servers (err e) = []
turn_servers (ok creds) = map (turn_server creds) creds.uris

unfoldable pub ice_servers : (Text → Text → Result Text) → ℕ → CoturnConfig → Text → List IceServer
unfolding generate_turn_credentials
ice_servers mac now coturn peer_id =
    stun_server ∷ turn_servers (generate_turn_credentials mac now coturn peer_id)

module _ {Peer : Type 0} (webrtc : WebRtcLibrary Peer) where
  -- the connection with its answer
  unfoldable pub answer_offer : List IceServer → Text → Result (Peer × Text)
  answer_offer servers sdp_offer = webrtc.new_peer_connection servers >>= λ pc.
      webrtc.set_remote_description pc sdp_offer >>= λ u. webrtc.create_answer pc >>= λ sdp_answer.
      webrtc.set_local_description pc sdp_answer >>= λ v. ok (pc, sdp_answer)

  abbrev stored :
      Text → Result (Peer × Text) → WebRtcManager Peer → Result Text × WebRtcManager Peer
  stored peer_id (err e) m = (err e, m)
  stored peer_id (ok (pc, sdp_answer)) m =
      (ok sdp_answer, record m { peers = insert peer_id pc m.peers })

  -- a connection that the peer had before is replaced, and not closed
  unfoldable pub handle_offer :
      (Text → Text → Result Text)
      → ℕ
      → CoturnConfig
      → (peer_id sdp_offer : Text) → WebRtcManager Peer
      → Result Text × WebRtcManager Peer
  unfolding answer_offer ice_servers
  handle_offer mac now coturn peer_id sdp_offer m =
      stored peer_id (answer_offer (ice_servers mac now coturn peer_id) sdp_offer) m

  unfoldable pub add_ice_candidate : Text → Candidate → WebRtcManager Peer → Result (Unit {0})
  add_ice_candidate peer_id candidate m =
      ok_or (get peer_id m.peers) (codes "peer not found") >>= λ pc.
      webrtc.add_ice_candidate pc candidate

unfoldable pub remove_peer : {Peer : Type 0} → Text → WebRtcManager Peer → WebRtcManager Peer
remove_peer peer_id m = elim (get peer_id m.peers) [
  | none ↦ m
  | some pc ↦ record m { peers = remove peer_id m.peers; closed = pc ∷ m.closed }
]

-- a message of the data channel: the reply first, then the panes' output; what cannot be sent is lost
unfoldable pub on_message :
    {Payload Usd : Type 0}
    → (ServerMsg Payload Usd → Option (List ℕ))
    → (Text → Receiver)
    → Outside
    → Option (ClientMsg Payload)
    → Socket (List ℕ)
    → Socket (List ℕ)
unfolding on_client_msg drain_pane_outputs
on_message encode receiver o none k = k
on_message encode receiver o (some msg) k =
    let k1 = on_client_msg encode o msg k in
    add_frames encode (drain_pane_outputs encode receiver k1.conn.pane_subs) k1
