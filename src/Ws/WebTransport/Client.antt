-- ===== src/Ws/WebTransport/Client.antt =====
-- server/src/ws/webtransport.rs beside server/src/ws/handler.rs: a stream and a WebSocket with the
-- same messages.
use oxmux.Prelude.{
  ℕ, ◌≡◌, refl, sym, ap, ◌∙◌, Bool, true, false, ◌||◌, List, [], ◌∷◌, ◌++◌, Option, none, some,
  append_assoc, append-nil, is_empty, All, Bool-cases, inl, inr,
}
use oxmux.Prelude.Text.{Text}
use oxmux.Result.{Result, ok, err}
use oxmux.Jwt.{JwtLibrary}
use oxmux.Db.Repo.{Json}
use oxmux.Session.Types.{ManagedSession}
use oxmux.Session.Manager.{SessionManager, load_user_sessions}
use oxmux.Agent.Frames.{send_raw, read_chunks}
use oxmux.Agent.Frames.Stream.{send_all, AreSendable, join, read_chunks-send_all}
use oxmux.Ws.Protocol.{ClientMsg}
use oxmux.Ws.Handler.{handle_client_msg}
use oxmux.Ws.State.{Outside, AppState}
use oxmux.Ws.Socket.{
  Socket, Incoming, binary, closing, add_frames, frames_of, reply_frame, drain_pane_outputs,
  socket_loop,
}
use oxmux.Ws.Socket
use oxmux.Ws.WebTransport.{
  Codec, Read, bytes, stream_end, Round, Wire, write_all, authenticate, on_client_msg, on_decoded,
  on_read, round, stream_loop, greeting, opened, handle_incoming,
}

write_all-stream :
    (frames : List (List ℕ)) (w : Wire)
    → write_all frames w ≡ record w { stream = w.stream ++ send_all frames }
write_all-stream [] w = rw (append-nil w.stream) refl
write_all-stream (frame ∷ frames) w =
    write_all-stream frames _ ∙ rw (append_assoc w.stream (send_raw frame) (send_all frames)) refl

module _ {Payload Usd Value : Type 0} (codec : Codec Payload Usd Value) where
  -- a read as what a WebSocket would have brought
  abbrev pub incoming_of : Read → Incoming Payload
  incoming_of (bytes []) = closing
  incoming_of (bytes (b ∷ bs)) = binary (codec.decode_client_msg (b ∷ bs))
  incoming_of stream_end = closing
  incoming_of Read.failed = Incoming.failed
  incoming_of Read.tick = Incoming.tick

  -- a round with no message from the background
  abbrev pub as_round : Round → Socket.Round Payload Usd
  as_round t = record {
    receiver = t.receiver;
    async_msgs = [];
    incoming = incoming_of t.read;
    outside = t.outside;
  }

  abbrev pub as_socket : List Round → List (Socket.Round Payload Usd)
  as_socket [] = []
  as_socket (t ∷ rounds) = as_round t ∷ as_socket rounds

  abbrev wire : Socket (List ℕ) → Wire
  wire k = record { app = k.app; conn = k.conn; stream = send_all (codec.auth_ok ∷ k.frames) }

  send_all-append : (fs gs : List (List ℕ)) → send_all (fs ++ gs) ≡ send_all fs ++ send_all gs
  send_all-append [] gs = refl
  send_all-append (f ∷ fs) gs =
      ap (λ t. send_raw f ++ t) (send_all-append fs gs)
      ∙ sym (append_assoc (send_raw f) (send_all fs) (send_all gs))

  write_all-wire :
      (frames : List (List ℕ)) (k : Socket (List ℕ))
      → write_all frames (wire k) ≡ wire (record k { frames = k.frames ++ frames })
  write_all-wire frames k =
      write_all-stream frames (wire k)
      ∙ rw (sym (send_all-append (codec.auth_ok ∷ k.frames) frames)) refl

  client_msg-wire :
      (o : Outside) (msg : ClientMsg Payload) (k : Socket (List ℕ))
      → on_client_msg codec true o msg (wire k)
        ≡ wire (Socket.on_client_msg codec.encode_server_msg o msg k)
  unfolding on_client_msg Socket.on_client_msg
  client_msg-wire o msg k =
      let handled = handle_client_msg {Payload = Payload} {Usd = Usd} o msg k.app k.conn in
      write_all-wire (reply_frame codec.encode_server_msg handled.0)
        (record { app = handled.1; conn = handled.2; frames = k.frames })

  abbrev wired : Bool × Socket (List ℕ) → Bool × Wire
  wired (goes_on, k) = (goes_on, wire k)

  decoded-wire :
      (o : Outside) (decoded : Option (ClientMsg Payload)) (k : Socket (List ℕ))
      → ◌≡◌ {A = Bool × Wire}
          (true, on_decoded codec true o decoded (wire k))
          (wired (Socket.on_incoming codec.encode_server_msg o (binary decoded) k))
  unfolding Socket.on_incoming
  decoded-wire o none k = refl
  decoded-wire o (some msg) k = ap (λ w. (true, w)) (client_msg-wire o msg k)

  read-wire :
      (o : Outside) (r : Read) (k : Socket (List ℕ))
      → on_read codec true o r (wire k)
        ≡ wired (Socket.on_incoming codec.encode_server_msg o (incoming_of r) k)
  unfolding on_read Socket.on_incoming
  read-wire o (bytes []) k = refl
  read-wire o (bytes (b ∷ bs)) k = decoded-wire o (codec.decode_client_msg (b ∷ bs)) k
  read-wire o stream_end k = refl
  read-wire o Read.failed k = refl
  read-wire o Read.tick k = refl

  or-true : (b : Bool) → (b || true) ≡ true
  or-true true = refl
  or-true false = refl

  round-wire :
      (t : Round) (k : Socket (List ℕ))
      → t.up ≡ true
      → round codec t (wire k) ≡ wired (Socket.round codec.encode_server_msg (as_round t) k)
  unfolding round Socket.round
  round-wire t k up =
      let frames = drain_pane_outputs codec.encode_server_msg t.receiver k.conn.pane_subs in
      let drained : Socket (List ℕ) = record k { frames = (k.frames ++ frames) ++ [] } in
      let written : write_all frames (wire k) ≡ wire drained =
        write_all-wire frames k ∙ rw (append-nil (k.frames ++ frames)) refl in
      rw up (rw (or-true (is_empty frames)) (rw written (read-wire t.outside t.read drained)))

  loop-wire :
      (rounds : List Round) (k : Socket (List ℕ))
      → All (λ t. t.up ≡ true) rounds
      → stream_loop codec rounds (wire k)
        ≡ wire (socket_loop codec.encode_server_msg (as_socket rounds) k)
  unfolding stream_loop socket_loop
  loop-wire [] k ups = refl
  loop-wire (t ∷ rounds) k ups =
      let next = Socket.round codec.encode_server_msg (as_round t) k in
      rw (round-wire t k ups.0) (elim (Bool-cases next.0) [
        | inl on ↦ rw on (loop-wire rounds next.1 ups.1)
        | inr off ↦ rw off refl
      ])

  opened-wire :
      (user_id : Text) (app : AppState) (loaded : Result (List ManagedSession) × SessionManager)
      → opened codec user_id app loaded
        ≡ wire (Socket.opened codec.encode_server_msg user_id app loaded)
  opened-wire user_id app (err e, m) = rw (append-nil (send_raw codec.auth_ok)) refl
  opened-wire user_id app (ok sessions, m) =
      write_all-stream (codec.auth_ok ∷ greeting codec (ok sessions)) (record {
        app = record app { session_manager = m };
        conn = record { user_id = user_id; pane_subs = [] };
        stream = [];
      })

  module _ (json : Json) (up : Bool) (user_id : Text) (rounds : List Round) (app : AppState) where
    -- the end of a WebSocket's loop over the same rounds
    abbrev pub by_socket : Socket (List ℕ)
    by_socket = socket_loop codec.encode_server_msg (as_socket rounds) (
        Socket.opened codec.encode_server_msg user_id app
          (load_user_sessions json up user_id app.session_manager))

    -- While the writes succeed, a browser whose token is valid is served as by the loop of a WebSocket
    -- that brings the same messages and gets none from the background: the application's state and the
    -- panes subscribed are the same at the end; and the browser, however its stream is cut into chunks,
    -- reads the acknowledgment and then exactly the frames that the WebSocket would have sent, in order,
    -- if each is shorter than 2^32 bytes.
    pub handle_incoming-by_socket :
        (jwt : JwtLibrary) (now : ℕ) (auth_buf : Option (List ℕ))
        → authenticate codec jwt now app.jwt_secret auth_buf ≡ ok user_id
        → All (λ t. t.up ≡ true) rounds
        → (w : Wire) × (handle_incoming codec jwt json now up auth_buf rounds app ≡ ok w)
          × (w.app ≡ by_socket.app)
          × (w.conn ≡ by_socket.conn)
          × ((chunks : List (List ℕ))
              → AreSendable (codec.auth_ok ∷ by_socket.frames)
              → join chunks ≡ w.stream
              → read_chunks [] chunks ≡ (codec.auth_ok ∷ by_socket.frames, []))
    unfolding handle_incoming
    handle_incoming-by_socket jwt now auth_buf valid ups = (
      wire by_socket,
      rw valid (
          rw (opened-wire user_id app (load_user_sessions json up user_id app.session_manager))
            (rw (loop-wire rounds _ ups) refl)),
      refl,
      refl,
      λ chunks short whole.
          read_chunks-send_all (codec.auth_ok ∷ by_socket.frames) [] chunks short
            (unfold read_chunks in refl)
            (whole ∙ sym (append-nil (send_all (codec.auth_ok ∷ by_socket.frames)))),
    )
