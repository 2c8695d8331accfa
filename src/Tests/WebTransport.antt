-- ===== src/Tests/WebTransport.antt =====
-- server/src/ws/webtransport.rs in two rounds.
use oxmux.Prelude.{ℕ, ◌≡◌, refl, true, false, List, [], ◌∷◌, Option, none, some}
use oxmux.Prelude.Text.{Text, codes}
use oxmux.Result.{ok}
use oxmux.Agent.Frames.{read_chunks}
use oxmux.Agent.Frames.Stream.{AreSendable, join}
use oxmux.Ws.Protocol.{ServerMsg, ClientMsg}
use oxmux.Ws.Socket.{Receiver}
use oxmux.Ws.WebTransport.{
  Codec, Read, bytes, stream_end, Round, Wire, authenticate, handle_incoming,
}
use oxmux.Ws.WebTransport.Client.{by_socket, handle_incoming-by_socket}
use oxmux.Tests.Server.{outside, app, jwt, json}

-- a pong is a byte, and any byte a ping
abbrev in_bytes : ServerMsg Text ℕ → Option (List ℕ)
in_bytes (ServerMsg.pong ts) = some (ts ∷ [])
in_bytes _ = none

abbrev ping : List ℕ → Option (ClientMsg Text)
ping [] = none
ping (b ∷ bs) = some (ClientMsg.ping b)

abbrev codec : Codec Text ℕ Text
codec = record {
  encode_server_msg = in_bytes;
  decode_client_msg = ping;
  from_msgpack = λ buf. none;
  from_json = λ buf. some buf;
  token = λ buf. some buf;
  auth_ok = 9 ∷ [];
}

abbrev silent : Text → Receiver
silent pane_id = record { missed = 0; waiting = []; closed = false }

abbrev round_of : Read → Round
round_of r = record { receiver = silent; up = true; read = r; outside = outside }

abbrev rounds : List Round
rounds = round_of (bytes (5 ∷ [])) ∷ round_of stream_end ∷ []

let_in : authenticate codec jwt 1000 app.jwt_secret (some (codes "token")) ≡ ok (codes "a1")
unfolding authenticate
let_in = refl

handle_incoming-by_socket_example :
    (w : Wire) × (handle_incoming codec jwt json 1000 true (some (codes "token")) rounds app ≡ ok w)
    × (w.app ≡ (by_socket codec json true (codes "a1") rounds app).app)
    × (w.conn ≡ (by_socket codec json true (codes "a1") rounds app).conn)
    × ((chunks : List (List ℕ))
        → AreSendable (codec.auth_ok ∷ (by_socket codec json true (codes "a1") rounds app).frames)
        → join chunks ≡ w.stream
        → read_chunks [] chunks
          ≡ (codec.auth_ok ∷ (by_socket codec json true (codes "a1") rounds app).frames, []))
handle_incoming-by_socket_example =
    handle_incoming-by_socket codec json true (codes "a1") rounds app jwt 1000
      (some (codes "token")) let_in (refl, (refl, tt))
