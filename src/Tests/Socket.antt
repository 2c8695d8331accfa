-- ===== src/Tests/Socket.antt =====
-- server/src/ws/handler.rs at a socket of a few rounds.
use oxmux.Prelude.{◌≡◌, ◌≢◌, refl, true, [], ◌∷◌, Option, none, some, ℕ}
use oxmux.Prelude.Text.{Text, codes, text_eq}
use oxmux.Prelude.Maps.{get, insert, modify}
use oxmux.Result.{ok, err}
use oxmux.Session.Types.{ManagedSession}
use oxmux.Db.Repo.{
  insert_session, list_sessions_for_user, row_to_managed_session, update_session_status,
}
use oxmux.Session.Manager.{
  new, new_session, create, load_user_sessions, load_rows, add_missing, current, reply_session,
  get_session,
}
use oxmux.Session.Manager.Connect.{
  listed, mark_connected, connect, connect_start, connect_finish, find_session_for_pane,
}
use oxmux.Session.Manager.Reach.{Reach, start, next, creating, connecting}
use oxmux.Ws.Protocol.{ServerMsg, ClientMsg}
use oxmux.Ws.Socket.{Receiver, Round, binary, closing, try_recv, drain_pane_outputs, clean_up}
use oxmux.Ws.Socket.CleanUp.{clean_up-disconnects}
use oxmux.Tests.Session.{listing, json, local_request, made, connected}
use oxmux.Tests.Server.{outside}

-- every message is its own frame
abbrev plainly : ServerMsg Text ℕ → Option (ServerMsg Text ℕ)
plainly msg = some msg

-- what was missed is not sent, what waits is
abbrev receiver : Text → Receiver
receiver pane_id = record { missed = 3; waiting = codes "ab" ∷ codes "c" ∷ []; closed = true }

drained :
    drain_pane_outputs plainly receiver (codes "%1" ∷ [])
    ≡ ServerMsg.output (codes "%1") (codes "ab") none
      ∷ ServerMsg.output (codes "%1") (codes "c") none
      ∷ []
unfolding drain_pane_outputs try_recv
drained = refl

abbrev reached : Reach json [] connected
reached =
    next (next start (creating true (codes "id1") (codes "u1") local_request (new [])))
      (connecting true true (codes "id1") (listed listing) made)

abbrev up_session : ManagedSession
up_session = mark_connected listing (new_session (codes "id1") local_request)

loaded : (load_user_sessions json true (codes "u1") connected).0 ≡ ok (up_session ∷ [])
unfolding create insert_session new load_user_sessions list_sessions_for_user load_rows add_missing
    current row_to_managed_session get insert modify text_eq connect connect_start connect_finish
    reply_session get_session update_session_status
loaded = refl

clean_up-disconnects_example :
    find_session_for_pane
      (codes "%1")
      (clean_up json true true (codes "u1") (λ id. err (codes "gone")) connected)
    ≢ some (codes "id1")
unfolding text_eq
clean_up-disconnects_example =
    clean_up-disconnects json [] connected true true (codes "u1") (codes "%1") (codes "id1")
      (λ id. err (codes "gone")) (up_session ∷ []) reached loaded refl

abbrev a_round : Round Text ℕ
a_round = record {
  receiver = receiver;
  async_msgs = ServerMsg.pong 1 ∷ [];
  incoming = binary (some (ClientMsg.connect_session (codes "id1")));
  outside = record outside { json = json };
}

abbrev last_round : Round Text ℕ
last_round = record a_round { incoming = closing }
