-- ===== src/Ws/Socket.antt =====
-- server/src/ws/handler.rs: a browser's WebSocket, from the upgrade to the clean-up; and
-- `drain_pane_outputs` of server/src/ws/session_handler.rs. A run of the loop is the list of its rounds, with
-- what each meets. The encoding of messages is a parameter, and sending on the socket is not seen to fail.
pub mod CleanUp
pub mod Drain
use oxmux.Prelude.{
  ℕ, zero, suc, ◌+◌, ◌==◌, Bool, true, false, List, [], ◌∷◌, ◌++◌, Option, none, some,
  if◌then◌else◌, map, length,
}
use oxmux.Prelude.Text.{Text, codes}
use oxmux.Prelude.Maps.{Map, get}
use oxmux.Result.{Result, ok, err}
use oxmux.Jwt.{JwtLibrary, Claims, validate_token}
use oxmux.Session.Types.{SessionId, SessionStatus, ManagedSession, sanitized}
use oxmux.Session.Manager.{SessionManager, load_user_sessions}
use oxmux.Session.Manager.Connect.{disconnect}
use oxmux.Db.Repo.{Json}
use oxmux.Ws.Protocol.{ServerMsg, ClientMsg}
use oxmux.Ws.Handler.{handle_client_msg}
use oxmux.Ws.State.{Outside, AppState, ConnectionState}

-- a `broadcast::Receiver`: how many messages it has missed since it was last asked, and those that wait
pub record Receiver : Type 0 where
  pub missed : ℕ
  pub waiting : List (List ℕ)
  pub closed : Bool

pub data Tried : Type 0 where
  received : List ℕ → Tried
  lagged : ℕ → Tried
  empty_now : Tried
  closed_now : Tried

-- `try_recv`: a receiver that has missed messages says so once
unfoldable pub try_recv : Receiver → Tried × Receiver
try_recv r = next r.missed r.waiting r
  where
    next : ℕ → List (List ℕ) → Receiver → Tried × Receiver
    next (suc n) waiting r = (lagged (suc n), record r { missed = 0 })
    next zero (bytes ∷ waiting) r = (received bytes, record r { waiting = waiting })
    next zero [] r = (if r.closed then closed_now else empty_now, r)

abbrev pub is_connected : SessionStatus → Bool
is_connected SessionStatus.connected = true
is_connected _ = false

-- the loop of the clean-up; `answer` is what the session's transport says, and errors are logged only
unfoldable pub disconnect_all :
    (up : Bool) (answer : SessionId → Result (Unit {0}))
    → List ManagedSession
    → SessionManager
    → SessionManager
disconnect_all up answer [] m = m
disconnect_all up answer (s ∷ sessions) m =
    let next = if is_connected s.status then (disconnect up s.id (answer s.id) m).1 else m in
    disconnect_all up answer sessions next

abbrev after_load :
    (up : Bool) (answer : SessionId → Result (Unit {0}))
    → Result (List ManagedSession) × SessionManager
    → SessionManager
after_load up answer (err e, m) = m
after_load up answer (ok sessions, m) = disconnect_all up answer sessions m

-- "Cleanup: disconnect all connected sessions for this user"
unfoldable pub clean_up :
    (json : Json) (up1 up2 : Bool) (user_id : Text) (answer : SessionId → Result (Unit {0}))
    → SessionManager
    → SessionManager
unfolding disconnect_all
clean_up json up1 up2 user_id answer m =
    after_load up2 answer (load_user_sessions json up1 user_id m)

-- what `rx.next()` gives: a binary message, decoded or not; the end; an error; another message
pub data Incoming (Payload : Type 0) : Type 0 where
  binary : Option (ClientMsg Payload) → Incoming Payload
  closing : Incoming Payload
  failed : Incoming Payload
  other : Incoming Payload
  -- the interval's tick comes first
  tick : Incoming Payload

-- a round of the loop
pub record Round (Payload Usd : Type 0) : Type 0 where
  pub receiver : Text → Receiver
  pub async_msgs : List (ServerMsg Payload Usd)
  pub incoming : Incoming Payload
  pub outside : Outside

pub record Socket (Frame : Type 0) : Type 0 where
  pub app : AppState
  pub conn : ConnectionState
  pub frames : List Frame

module _ {Payload Usd Frame : Type 0} (encode : ServerMsg Payload Usd → Option Frame) where
  -- a message that cannot be encoded is left out
  abbrev pub frame_of : ServerMsg Payload Usd → List Frame
  frame_of msg = elim (encode msg) [ none ↦ [] | some frame ↦ frame ∷ [] ]

  abbrev pub frames_of : List (ServerMsg Payload Usd) → List Frame
  frames_of [] = []
  frames_of (msg ∷ msgs) = frame_of msg ++ frames_of msgs

  -- the inner loop for one pane, at most that many rounds
  unfoldable pub drain_pane : ℕ → Text → Receiver → List Frame × Receiver
  unfolding try_recv
  drain_pane zero pane_id r = ([], r)
  drain_pane (suc f) pane_id r =
      let (tried, r') = try_recv r in
      let (frames, r'') = drain_pane f pane_id r' in
      elim tried [
        | received bytes ↦ (frame_of (ServerMsg.output pane_id bytes none) ++ frames, r'')
        | lagged n ↦ (frames, r'')
        | empty_now ↦ ([], r')
        | closed_now ↦ ([], r')
      ]

  -- the receivers of the panes; the order of a map's entries is any
  unfoldable pub drain_pane_outputs : (Text → Receiver) → List Text → List Frame
  unfolding drain_pane
  drain_pane_outputs receiver [] = []
  drain_pane_outputs receiver (pane_id ∷ pane_subs) =
      (drain_pane (length (receiver pane_id).waiting + 2) pane_id (receiver pane_id)).0
      ++ drain_pane_outputs receiver pane_subs

  abbrev pub add_frames : List Frame → Socket Frame → Socket Frame
  add_frames frames k = record k { frames = k.frames ++ frames }

  abbrev pub reply_frame : Option (ServerMsg Payload Usd) → List Frame
  reply_frame none = []
  reply_frame (some reply) = frame_of reply

  -- a decoded message goes to the handler, and its reply to the browser
  unfoldable pub on_client_msg : Outside → ClientMsg Payload → Socket Frame → Socket Frame
  unfolding handle_client_msg
  on_client_msg o msg k =
      let (reply, app, conn) =
        handle_client_msg {Payload = Payload} {Usd = Usd} o msg k.app k.conn in
      record { app = app; conn = conn; frames = k.frames ++ reply_frame reply }

  -- whether the loop goes on, and the state
  unfoldable pub on_incoming : Outside → Incoming Payload → Socket Frame → Bool × Socket Frame
  unfolding on_client_msg
  on_incoming o (binary (some msg)) k = (true, on_client_msg o msg k)
  on_incoming o (binary none) k = (true, k)
  on_incoming o closing k = (false, k)
  on_incoming o failed k = (false, k)
  on_incoming o other k = (true, k)
  on_incoming o tick k = (true, k)

  -- first the frames that wait, then a message or the tick
  unfoldable pub round : Round Payload Usd → Socket Frame → Bool × Socket Frame
  unfolding drain_pane_outputs on_incoming
  round t k =
      let drained = add_frames (drain_pane_outputs t.receiver k.conn.pane_subs) k in
      on_incoming t.outside t.incoming (add_frames (frames_of t.async_msgs) drained)

  -- the loop: after the last round the browser is gone
  unfoldable pub socket_loop : List (Round Payload Usd) → Socket Frame → Socket Frame
  unfolding round
  socket_loop [] k = k
  socket_loop (t ∷ rounds) k =
      let (goes_on, k') = round t k in
      let rest = socket_loop rounds k' in if goes_on then rest else k'

  abbrev pub greeting : Result (List ManagedSession) → List Frame
  greeting (err e) = []
  greeting (ok sessions) = frame_of (ServerMsg.session_list (map sanitized sessions))

  abbrev pub opened : Text → AppState → Result (List ManagedSession) × SessionManager → Socket Frame
  opened user_id app (loaded, m) = record {
    app = record app { session_manager = m };
    conn = record { user_id = user_id; pane_subs = [] };
    frames = greeting loaded;
  }

  -- `up0`, `up1`, `up2`: the database's answers to the first loading and in the clean-up
  unfoldable pub handle_socket :
      (json : Json) (up0 up1 up2 : Bool) (user_id : Text)
      → (answer : SessionId → Result (Unit {0})) → List (Round Payload Usd)
      → AppState
      → SessionManager × List Frame
  unfolding socket_loop clean_up
  handle_socket json up0 up1 up2 user_id answer rounds app =
      let k =
        socket_loop rounds
          (opened user_id app (load_user_sessions json up0 user_id app.session_manager)) in
      (clean_up json up1 up2 user_id answer k.app.session_manager, k.frames)

-- the upgrade: the user's id, or status 401
unfoldable pub ws_handler : JwtLibrary → ℕ → Text → Map Text → Result Text
unfolding validate_token
ws_handler jwt now secret params = elim (get (codes "token") params) [
  | none ↦ err (codes "missing token")
  | some token ↦ elim (validate_token jwt now token secret) [
    | err e ↦ err (codes "invalid token")
    | ok claims ↦ ok claims.sub
  ]
]
