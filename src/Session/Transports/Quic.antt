-- ===== src/Session/Transports/Quic.antt =====
-- server/src/session/quic_transport.rs: the transport to an agent. The library `quinn` is a parameter: the
-- bytes that come on the control stream, whose writes succeed. `serde_json` and `base64` are parameters.
use oxmux.Prelude.{
  ℕ, ◌+◌, Bool, true, false, List, [], ◌∷◌, ◌++◌, Option, none, some, leb, if◌then◌else◌, length,
  take, drop,
}
use oxmux.Prelude.Text.{Text, codes}
use oxmux.Prelude.Maps.{Map, get}
use oxmux.Result.{Result, ok, err, ok_or}
use oxmux.Ws.Tree.{TmuxSessionInfo}
use oxmux.Agent.Frames.{send_raw, from_be_bytes}
use oxmux.Session.Manager.Connect.{listing_pane_ids}
use oxmux.Session.Transports.{TransportStatus, connecting, add_channels}

-- the objects that `json!` makes
pub data Command : Type 0 where
  ensure_session : (name : Text) → Command
  list_sessions : (name : Text) → Command
  send_input_cmd : (pane : Text) (base64 : Text) → Command
  resize : (pane : Text) (cols rows : ℕ) → Command
  tmux : (args : Text) → Command

-- `serde_json`, and what is read out of a response
pub record Codec (Value : Type 0) : Type 0 where
  pub to_vec : Command → Option (List ℕ)
  pub from_slice : List ℕ → Option Value
  -- the member `sessions`, an empty list when it is missing
  pub sessions : Value → Option (List TmuxSessionInfo)
  -- the member `output`, empty when it is no string
  pub output : Value → Text
  pub base64 : List ℕ → Text

pub record QuicTransport : Type 0 where
  pub host : Text
  pub port : ℕ
  pub session_name : Text
  pub status : TransportStatus
  pub has_connection : Bool
  -- the bytes written to the control stream, and those that are still to be read from it
  pub control_send : Option (List ℕ)
  pub control_recv : Option (List ℕ)
  pub pane_channels : Map ℕ
  pub tmux_state : List TmuxSessionInfo
  -- how many channels have been made
  pub made : ℕ

unfoldable pub new : Text → ℕ → Text → QuicTransport
new host port session_name = record {
  host = host;
  port = port;
  session_name = session_name;
  status = TransportStatus.disconnected;
  has_connection = false;
  control_send = none;
  control_recv = none;
  pane_channels = [];
  tmux_state = [];
  made = 0;
}

-- the two `read_exact`: the response, and what is left; nothing is left of a stream that ends early
unfoldable pub read_response : List ℕ → Option (List ℕ) × List ℕ
unfolding from_be_bytes
read_response (a ∷ b ∷ c ∷ d ∷ s) =
    let resp_len = from_be_bytes a b c d in
    if leb resp_len (length s) then (some (take resp_len s), drop resp_len s) else (none, [])
read_response _ = (none, [])

abbrev pub written_to : List ℕ → List ℕ → QuicTransport → QuicTransport
written_to send payload q = record q { control_send = some (send ++ send_raw payload) }

-- a listing that can be read is kept
abbrev pub with_sessions :
    Option (List TmuxSessionInfo) → QuicTransport → Result (List TmuxSessionInfo) × QuicTransport
with_sessions none q = (err (codes "invalid sessions"), q)
with_sessions (some sessions) q = (ok sessions, record q { tmux_state = sessions })

-- the channels of the listed panes
abbrev pub with_channels : List TmuxSessionInfo → QuicTransport → QuicTransport
with_channels listing q = record q {
  status = TransportStatus.connected;
  pane_channels = add_channels q.made (listing_pane_ids listing) q.pane_channels;
  made = q.made + length (listing_pane_ids listing);
}

abbrev pub after_listing :
    Result (List TmuxSessionInfo) × QuicTransport → Result (Unit {0}) × QuicTransport
after_listing (err e, q) = (err e, q)
after_listing (ok listing, q) = (ok tt, with_channels listing q)

module _ {Value : Type 0} (json : Codec Value) where
  abbrev pub response_of : Option (List ℕ) × List ℕ → QuicTransport → Result Value × QuicTransport
  response_of (none, left) q =
      (err (codes "early end of stream"), record q { control_recv = some left })
  response_of (some bytes, left) q = (
    ok_or (json.from_slice bytes) (codes "invalid response"),
    record q { control_recv = some left },
  )

  abbrev pub receive : Option (List ℕ) → QuicTransport → Result Value × QuicTransport
  receive none q = (err (codes "QUIC control recv not open"), q)
  receive (some stream) q = response_of (read_response stream) q

  abbrev pub exchange :
      Option (List ℕ) → Option (List ℕ) → QuicTransport → Result Value × QuicTransport
  exchange none payload q = (err (codes "QUIC control stream not open"), q)
  exchange (some send) none q = (err (codes "command not serialised"), q)
  exchange (some send) (some payload) q = receive q.control_recv (written_to send payload q)

  unfoldable pub send_control_command : Command → QuicTransport → Result Value × QuicTransport
  unfolding read_response send_raw
  send_control_command cmd q = exchange q.control_send (json.to_vec cmd) q

  abbrev pub listed : Result Value × QuicTransport → Result (List TmuxSessionInfo) × QuicTransport
  listed (err e, q) = (err e, q)
  listed (ok resp, q) = with_sessions (json.sessions resp) q

  unfoldable pub list_tmux_sessions : QuicTransport → Result (List TmuxSessionInfo) × QuicTransport
  unfolding send_control_command
  list_tmux_sessions q = listed (send_control_command (list_sessions q.session_name) q)

  abbrev acknowledged : Result Value × QuicTransport → Result (Unit {0}) × QuicTransport
  acknowledged (err e, q) = (err e, q)
  acknowledged (ok resp, q) = (ok tt, q)

  unfoldable pub send_input : Text → List ℕ → QuicTransport → Result (Unit {0}) × QuicTransport
  unfolding send_control_command
  send_input pane_id bytes q =
      acknowledged (send_control_command (send_input_cmd pane_id (json.base64 bytes)) q)

  unfoldable pub resize_pane :
      Text → (cols rows : ℕ) → QuicTransport → Result (Unit {0}) × QuicTransport
  unfolding send_control_command
  resize_pane pane_id cols rows q = acknowledged (send_control_command (resize pane_id cols rows) q)

  abbrev output_of : Result Value × QuicTransport → Result Text × QuicTransport
  output_of (err e, q) = (err e, q)
  output_of (ok resp, q) = (ok (json.output resp), q)

  unfoldable pub run_tmux_command : Text → QuicTransport → Result Text × QuicTransport
  unfolding send_control_command
  run_tmux_command cmd q = output_of (send_control_command (tmux cmd) q)

  -- `opened`: whether the connection and its control stream open, and the bytes that will come on it.
  -- The answer to `ensure-session` is not looked at.
  unfoldable pub connect : Result (List ℕ) → QuicTransport → Result (Unit {0}) × QuicTransport
  unfolding send_control_command list_tmux_sessions
  connect (err e) q = (err e, record q { status = connecting })
  connect (ok incoming) q =
      let q1 = record q {
        status = connecting;
        has_connection = true;
        control_send = some [];
        control_recv = some incoming;
      } in
      after_listing (list_tmux_sessions (send_control_command (ensure_session q.session_name) q1).1)

unfoldable pub disconnect : QuicTransport → QuicTransport
disconnect q = record q {
  has_connection = false;
  control_send = none;
  control_recv = none;
  pane_channels = [];
  status = TransportStatus.disconnected;
}

unfoldable pub subscribe_output : Text → QuicTransport → Option ℕ
subscribe_output pane_id q = get pane_id q.pane_channels
