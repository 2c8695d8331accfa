-- ===== src/Ws/WebTransport.antt =====
-- server/src/ws/webtransport.rs: a browser over a WebTransport stream, from the token to the end of the loop.
-- Each message to the browser stands behind its length; each read is taken as one message of the browser.
-- `rmp_serde` and `serde_json` are parameters.
pub mod Client
use oxmux.Prelude.{
  ℕ, Bool, true, false, ◌&&◌, ◌||◌, not, List, [], ◌∷◌, ◌++◌, Option, none, some, if◌then◌else◌,
  map, is_empty,
}
use oxmux.Prelude.Text.{Text, codes}
use oxmux.Result.{Result, ok, err, ok_or, ◌>>=◌}
use oxmux.Jwt.{JwtLibrary, Claims, validate_token}
use oxmux.Db.Repo.{Json}
use oxmux.Session.Types.{ManagedSession, sanitized}
use oxmux.Session.Manager.{SessionManager, load_user_sessions}
use oxmux.Agent.Frames.{send_raw}
use oxmux.Ws.Protocol.{ServerMsg, ClientMsg}
use oxmux.Ws.Handler.{handle_client_msg}
use oxmux.Ws.State.{Outside, AppState, ConnectionState}
use oxmux.Ws.Socket.{Receiver, frame_of, reply_frame, drain_pane_outputs}

-- the libraries: a message to the browser in bytes, and what a read holds
pub record Codec (Payload Usd Value : Type 0) : Type 0 where
  pub encode_server_msg : ServerMsg Payload Usd → Option (List ℕ)
  pub decode_client_msg : List ℕ → Option (ClientMsg Payload)
  pub from_msgpack : List ℕ → Option Value
  pub from_json : List ℕ → Option Value
  -- the member `token`, if it is a string
  pub token : Value → Option Text
  -- `{"t": "auth_ok"}` in bytes
  pub auth_ok : List ℕ

pub data Read : Type 0 where
  -- of no bytes at the end of the stream
  bytes : List ℕ → Read
  stream_end : Read
  failed : Read
  tick : Read

-- a round of the loop; `up`: whether a write in it succeeds
pub record Round : Type 0 where
  pub receiver : Text → Receiver
  pub up : Bool
  pub read : Read
  pub outside : Outside

-- the state, with all bytes written to the stream
pub record Wire : Type 0 where
  pub app : AppState
  pub conn : ConnectionState
  pub stream : List ℕ

abbrev pub or_else {ℓ} : {A : Type ℓ} → Option A → Option A → Option A
or_else none b = b
or_else (some a) b = some a

-- messages, each behind its length
abbrev pub write_all : List (List ℕ) → Wire → Wire
write_all [] w = w
write_all (frame ∷ frames) w = write_all frames (record w { stream = w.stream ++ send_raw frame })

module _ {Payload Usd Value : Type 0} (codec : Codec Payload Usd Value) where
  -- the user's id by the first read
  unfoldable pub authenticate : JwtLibrary → ℕ → (jwt_secret : Text) → Option (List ℕ) → Result Text
  unfolding validate_token
  authenticate jwt now jwt_secret auth_buf =
      ok_or auth_buf (codes "stream closed before auth") >>= λ buf.
      ok_or (or_else (codec.from_msgpack buf) (codec.from_json buf))
        (codes "failed to decode auth message")
      >>= λ auth_msg.
          ok_or (codec.token auth_msg) (codes "missing token in auth message") >>= λ token.
          validate_token jwt now token jwt_secret >>= λ claims. ok claims.sub

  -- a reply that cannot be written is lost
  unfoldable pub on_client_msg : Bool → Outside → ClientMsg Payload → Wire → Wire
  unfolding handle_client_msg
  on_client_msg up o msg w =
      let (reply, app, conn) =
        handle_client_msg {Payload = Payload} {Usd = Usd} o msg w.app w.conn in
      let w1 = record w { app = app; conn = conn } in
      if up then write_all (reply_frame codec.encode_server_msg reply) w1 else w1

  abbrev pub on_decoded : Bool → Outside → Option (ClientMsg Payload) → Wire → Wire
  on_decoded up o none w = w
  on_decoded up o (some msg) w = on_client_msg up o msg w

  -- whether the loop goes on, and the state
  unfoldable pub on_read : Bool → Outside → Read → Wire → Bool × Wire
  unfolding on_client_msg
  on_read up o (bytes []) w = (false, w)
  on_read up o (bytes (b ∷ bs)) w = (true, on_decoded up o (codec.decode_client_msg (b ∷ bs)) w)
  on_read up o stream_end w = (false, w)
  on_read up o failed w = (false, w)
  on_read up o tick w = (true, w)

  -- pane output first; the handler returns when it cannot be written
  unfoldable pub round : Round → Wire → Bool × Wire
  unfolding drain_pane_outputs on_read
  round t w =
      let frames = drain_pane_outputs codec.encode_server_msg t.receiver w.conn.pane_subs in
      if is_empty frames || t.up
      then on_read t.up t.outside t.read (write_all frames w)
      else (false, w)

  unfoldable pub stream_loop : List Round → Wire → Wire
  unfolding round
  stream_loop [] w = w
  stream_loop (t ∷ rounds) w =
      let (goes_on, w') = round t w in
      let rest = stream_loop rounds w' in if goes_on then rest else w'

  abbrev pub greeting : Result (List ManagedSession) → List (List ℕ)
  greeting (err e) = []
  greeting (ok sessions) =
      frame_of codec.encode_server_msg (ServerMsg.session_list (map sanitized sessions))

  -- after the acknowledgment, and the list of sessions if it could be loaded
  abbrev pub opened : Text → AppState → Result (List ManagedSession) × SessionManager → Wire
  opened user_id app (loaded, m) = write_all (codec.auth_ok ∷ greeting loaded) (record {
    app = record app { session_manager = m };
    conn = record { user_id = user_id; pane_subs = [] };
    stream = [];
  })

  -- an error, with nothing written; or the state at the end of the loop, after which nothing is done.
  -- The two first writes succeed.
  unfoldable pub handle_incoming :
      JwtLibrary
      → Json
      → (now : ℕ) (up : Bool) → Option (List ℕ)
      → List Round
      → AppState
      → Result Wire
  unfolding authenticate stream_loop
  handle_incoming jwt json now up auth_buf rounds app =
      authenticate jwt now app.jwt_secret auth_buf >>= λ user_id. ok (
        stream_loop rounds
          (opened user_id app (load_user_sessions json up user_id app.session_manager)))
