-- ===== src/Agent/WebRtc.antt =====
-- agent/src/quic/server.rs, `create_webrtc_answer`: the ICE servers, the answer, and the data channel of the
-- browser. The library `webrtc`, HMAC-SHA1 with base64, the time and the environment are parameters.
use oxmux.Prelude.{
  ℕ, ◌+◌, ◌%◌, ◌^◌, List, [], ◌∷◌, ◌++◌, Option, none, some, map, unwrap_or, is_empty,
  if◌then◌else◌,
}
use oxmux.Prelude.Text.{Text, codes, split}
use oxmux.Prelude.Decimal.{show}
use oxmux.Result.{Result, ok, ok_or, ◌>>=◌}
use oxmux.Ice.{IceServer, stun_server, turn_url}
use oxmux.Agent.Messages.{AgentState}

-- `COTURN_AUTH_SECRET`, `COTURN_SERVERS` and `PUBLIC_IP`
pub record Environment : Type 0 where
  pub coturn_auth_secret : Option Text
  pub coturn_servers : Option Text
  pub public_ip : Option Text

-- a key of any length is accepted
unfoldable pub turn_server : (Text → Text → Text) → ℕ → (secret servers : Text) → IceServer
turn_server mac now secret servers =
    let username = show ((now + 86400) % 2 ^ 64) ++ codes ":oxmux-agent" in
    record {
      urls = map turn_url (split b',' servers);
      username = some username;
      credential = some (mac secret username);
    }

unfoldable pub ice_servers : (Text → Text → Text) → ℕ → Environment → List IceServer
unfolding turn_server
ice_servers mac now env =
    let secret = unwrap_or env.coturn_auth_secret [] in
    stun_server
    ∷ (if is_empty secret
        then []
        else turn_server mac now secret (unwrap_or env.coturn_servers []) ∷ [])

pub record WebRtcLibrary (Peer : Type 0) : Type 0 where
  -- with the address for the 1:1 mapping
  pub new_peer_connection : Option Text → List IceServer → Result Peer
  pub set_remote_description : Peer → (offer : Text) → Result (Unit {0})
  pub create_answer : Peer → Result Text
  pub set_local_description : Peer → (answer : Text) → Result (Unit {0})
  -- after the gathering, or ten seconds
  pub local_description : Peer → Option Text

-- the connection and its answer; the number of candidates in it, which is only logged, is left out
unfoldable pub create_webrtc_answer :
    {Peer : Type 0}
    → WebRtcLibrary Peer
    → (Text → Text → Text)
    → ℕ
    → Environment
    → (offer_sdp : Text) → Result (Peer × Text)
unfolding ice_servers
create_webrtc_answer webrtc mac now env offer_sdp =
    webrtc.new_peer_connection env.public_ip (ice_servers mac now env) >>= λ pc.
    webrtc.set_remote_description pc offer_sdp >>= λ u. webrtc.create_answer pc >>= λ answer.
    webrtc.set_local_description pc answer >>= λ v.
    ok_or (webrtc.local_description pc) (codes "no local description after gathering")
    >>= λ final_sdp. ok (pc, final_sdp)

-- what happens to a data channel; its messages go to the loop of the session
pub data ChannelEvent (Channel : Type 0) : Type 0 where
  on_open : Channel → ChannelEvent Channel
  on_close : Channel → ChannelEvent Channel

-- whichever channel is closed, the one in use is forgotten
unfoldable pub on_channel :
    {Peer Channel : Type 0}
    → ChannelEvent Channel
    → AgentState Peer Channel
    → AgentState Peer Channel
on_channel (on_open dc) a = record a { webrtc_dc = some dc }
on_channel (on_close dc) a = record a { webrtc_dc = none }
