-- ===== src/Session/Manager/Reach.antt =====
-- server/src/session/manager.rs: the routes over every sequence of calls.
use oxmux.Prelude.{◌≡◌, Bool, true, List, some, Option-cases, inl, inr}
use oxmux.Prelude.Text.{Text}
use oxmux.Prelude.Maps.{get, contains_key, AllValues-get}
use oxmux.Result.{Result, ok}
use oxmux.Db.Repo.{Json, Rows}
use oxmux.Ws.Tree.{TmuxSessionInfo}
use oxmux.Session.Types.{SessionId, CreateSessionRequest, UpdateSessionRequest}
use oxmux.Session.Manager.{
  Transport, SessionManager, new, load_user_sessions, create, update, delete,
}
use oxmux.Session.Manager.Connect.{
  Connected, connect, disconnect, refresh_tmux_state, find_session_for_pane, pane_transport,
}
use oxmux.Session.Manager.Routes.{IsLive, IsRouted}
use oxmux.Session.Manager.Kept.{
  load-IsRouted, create-IsRouted, update-IsRouted, delete-IsRouted, connect-IsRouted,
  disconnect-IsRouted, refresh-IsRouted,
}

-- A call of a method, with any answers of the transports and of the database, from one state of the
-- manager to the next.
pub data Step (json : Json) : SessionManager → SessionManager → Type 0 where
  load :
      (up : Bool) (user_id : Text) (m : SessionManager)
      → Step json m (load_user_sessions json up user_id m).1
  creating :
      (up : Bool) (id user_id : Text) (req : CreateSessionRequest) (m : SessionManager)
      → Step json m (create json up id user_id req m).1
  updating :
      (up : Bool) (id : SessionId) (req : UpdateSessionRequest) (m : SessionManager)
      → Step json m (update up id req m).1
  deleting : (up : Bool) (id : SessionId) (m : SessionManager) → Step json m (delete up id m).1
  connecting :
      (up1 up2 : Bool) (id : SessionId) (answer : Connected) (m : SessionManager)
      → Step json m (connect up1 up2 id answer m).1
  disconnecting :
      (up : Bool) (id : SessionId) (answer : Result (Unit {0})) (m : SessionManager)
      → Step json m (disconnect up id answer m).1
  refreshing :
      (id : SessionId) (answer : Result (List TmuxSessionInfo)) (m : SessionManager)
      → Step json m (refresh_tmux_state id answer m).1

-- The states of a manager that was new over a table of sessions.
pub data Reach (json : Json) (db : Rows) : SessionManager → Type 0 where
  start : Reach json db (new db)
  next : {m m' : SessionManager} → Reach json db m → Step json m m' → Reach json db m'

Step-IsRouted : (json : Json) {m m' : SessionManager} → Step json m m' → IsRouted m → IsRouted m'
Step-IsRouted json (load up user_id m) = load-IsRouted json up user_id
Step-IsRouted json (creating up id user_id req m) = create-IsRouted json up id user_id req
Step-IsRouted json (updating up id req m) = update-IsRouted up id req
Step-IsRouted json (deleting up id m) = delete-IsRouted up id
Step-IsRouted json (connecting up1 up2 id answer m) = connect-IsRouted up1 up2 id answer
Step-IsRouted json (disconnecting up id answer m) = disconnect-IsRouted up id answer
Step-IsRouted json (refreshing id answer m) = refresh-IsRouted id answer

new-IsRouted : (db : Rows) → IsRouted (new db)
unfolding new
new-IsRouted db = record { live = tt; unique = tt }

pub Reach-IsRouted : (json : Json) (db : Rows) {m : SessionManager} → Reach json db m → IsRouted m
Reach-IsRouted json db start = new-IsRouted db
Reach-IsRouted json db (next r step) = Step-IsRouted json step (Reach-IsRouted json db r)

-- After any calls of the manager's methods, one after the other, whatever the transports and the
-- database answer: a pane that has an owner is owned by a session in memory, and a call on it reaches
-- a transport.
pub Reach-find :
    (json : Json) (db : Rows) (m : SessionManager)
    → Reach json db m
    → (pane : Text) (id : SessionId) → find_session_for_pane pane m ≡ some id
    → (contains_key id m.sessions ≡ true)
      × ((transport : Transport) × (pane_transport pane m ≡ ok transport))
unfolding find_session_for_pane pane_transport
Reach-find json db m r pane id found =
    let live =
      AllValues-get (IsLive m.sessions) pane m.pane_to_session (Reach-IsRouted json db r).live
        found in
    elim (Option-cases (get id m.sessions)) [
      | inl e ↦ absurd (cc)
      | inr (entry, e) ↦
          (live, (entry.transport, rw (found, e, pane_transport, find_session_for_pane)))
    ]
