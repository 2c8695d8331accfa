-- ===== src/Session/Manager/Kept.antt =====
-- server/src/session/manager.rs: the routes of panes, method by method.
use oxmux.Prelude.{◌≡◌, refl, Bool, true, List, [], ◌∷◌, Option-cases, Bool-cases, inl, inr}
use oxmux.Prelude.Text.{Text}
use oxmux.Prelude.Maps.{get, contains_key}
use oxmux.Result.{Result, Result-cases}
use oxmux.Db.Repo.{
  Json, Rows, insert_session, list_sessions_for_user, update_session_name, delete_session,
  row_to_managed_session,
}
use oxmux.Ws.Tree.{TmuxSessionInfo}
use oxmux.Session.Types.{SessionId, ManagedSession, CreateSessionRequest, UpdateSessionRequest}
use oxmux.Session.Manager.{
  SessionManager, entry_of, new_session, add_missing, load_rows, load_user_sessions, create, update,
  delete,
}
use oxmux.Session.Manager.Connect.{
  Connected, listed, failed, connect_finish, connect, connect-none, connect-some, disconnect,
  refresh_tmux_state,
}
use oxmux.Session.Manager.Routes.{IsRouted}
use oxmux.Session.Manager.Routed.{
  IsRouted-more, Keeps-insert, Keeps-modify, IsRouted-set_meta, IsRouted-store, IsRouted-add_routes,
  IsRouted-drop_routes, IsRouted-remove, IsRouted-reply,
}

pub delete-IsRouted :
    (up : Bool) (id : SessionId) {m : SessionManager} → IsRouted m → IsRouted (delete up id m).1
unfolding delete
delete-IsRouted up id {m} h = elim (Option-cases (get id m.sessions)) [
  | inl e ↦ rw (e, delete) (IsRouted-drop_routes id h)
  | inr (entry, e) ↦ elim (Result-cases (delete_session up id m.db).0) [
    | inl (u, done) ↦ rw (e, done, delete) (IsRouted-store _ (IsRouted-remove id _ h))
    | inr (x, lost) ↦ rw (e, lost, delete) (IsRouted-remove id _ h)
  ]
]

pub create-IsRouted :
    (json : Json) (up : Bool) (id user_id : Text) (req : CreateSessionRequest) {m : SessionManager}
    → IsRouted m
    → IsRouted (create json up id user_id req m).1
unfolding create
create-IsRouted json up id user_id req {m} h =
    elim (Result-cases (insert_session json up id user_id req.name req.transport m.db).0) [
      | inl (u, done) ↦
          rw (done, create)
            (IsRouted-more _ (Keeps-insert id (entry_of (new_session id req)) m.sessions) refl h)
      | inr (x, lost) ↦ rw (lost, create) h
    ]

pub update-IsRouted :
    (up : Bool) (id : SessionId) (req : UpdateSessionRequest) {m : SessionManager}
    → IsRouted m
    → IsRouted (update up id req m).1
unfolding update
update-IsRouted up id req {m} h = elim (Option-cases (get id m.sessions)) [
  | inl e ↦ rw (e, update) h
  | inr (entry, e) ↦ elim (Option-cases req.name) [
    | inl unnamed ↦ rw (e, unnamed, update) h
    | inr (name, named) ↦ elim (Result-cases (update_session_name up id name m.db).0) [
      | inl (u, done) ↦ rw (e, named, done, update) (IsRouted-store _ (IsRouted-set_meta id _ h))
      | inr (x, lost) ↦ rw (e, named, lost, update) (IsRouted-set_meta id _ h)
    ]
  ]
]

add_missing-IsRouted :
    (meta : ManagedSession) {m : SessionManager} → IsRouted m → IsRouted (add_missing meta m)
unfolding add_missing
add_missing-IsRouted meta {m} h = elim (Bool-cases (contains_key meta.id m.sessions)) [
  | inl e ↦ rw e h
  | inr e ↦ rw e (IsRouted-more _ (Keeps-insert meta.id (entry_of meta) m.sessions) refl h)
]

load_rows-IsRouted :
    (json : Json) (rows : Rows) (loaded : List ManagedSession) {m : SessionManager}
    → IsRouted m
    → IsRouted (load_rows json rows loaded m).1
unfolding load_rows
load_rows-IsRouted json [] loaded {m} h = h
load_rows-IsRouted json (row ∷ rows) loaded {m} h =
    elim (Result-cases (row_to_managed_session json row)) [
      | inl (meta, e) ↦
          rw (e, load_rows) (load_rows-IsRouted json rows _ (add_missing-IsRouted meta h))
      | inr (x, e) ↦ rw (e, load_rows) h
    ]

pub load-IsRouted :
    (json : Json) (up : Bool) (user_id : Text) {m : SessionManager}
    → IsRouted m
    → IsRouted (load_user_sessions json up user_id m).1
unfolding load_user_sessions
load-IsRouted json up user_id {m} h =
    elim (Result-cases (list_sessions_for_user json up user_id m.db)) [
      | inl (rows, e) ↦ rw (e, load_user_sessions) (load_rows-IsRouted json rows [] h)
      | inr (x, e) ↦ rw (e, load_user_sessions) h
    ]

connect_finish-IsRouted :
    (up : Bool) (id : SessionId) (answer : Connected) {m : SessionManager}
    → contains_key id m.sessions ≡ true
    → IsRouted m
    → IsRouted (connect_finish up id answer m).1
unfolding connect_finish
connect_finish-IsRouted up id (listed listing) {m} known h =
    IsRouted-reply id
      (IsRouted-store _ (IsRouted-set_meta id _ (IsRouted-add_routes id listing known h)))
connect_finish-IsRouted up id (failed e) {m} known h = IsRouted-store _ (IsRouted-set_meta id _ h)

pub connect-IsRouted :
    (up1 up2 : Bool) (id : SessionId) (answer : Connected) {m : SessionManager}
    → IsRouted m
    → IsRouted (connect up1 up2 id answer m).1
connect-IsRouted up1 up2 id answer {m} h = elim (Option-cases (get id m.sessions)) [
  | inl e ↦ rw (connect-none up1 up2 id answer m e) h
  | inr (entry, e) ↦ rw (connect-some up1 up2 id answer m entry e) (
      connect_finish-IsRouted up2 id answer (Keeps-modify id _ m.sessions id (rw e))
        (IsRouted-store _ (IsRouted-set_meta id _ h)))
]

pub disconnect-IsRouted :
    (up : Bool) (id : SessionId) (answer : Result (Unit {0})) {m : SessionManager}
    → IsRouted m
    → IsRouted (disconnect up id answer m).1
unfolding disconnect
disconnect-IsRouted up id answer {m} h = elim (Option-cases (get id m.sessions)) [
  | inl e ↦ rw (e, disconnect) (IsRouted-drop_routes id h)
  | inr (entry, e) ↦ elim (Result-cases answer) [
    | inl (u, done) ↦
        rw (e, done, disconnect)
          (IsRouted-reply id
            (IsRouted-store _ (IsRouted-set_meta id _ (IsRouted-drop_routes id h))))
    | inr (x, lost) ↦ rw (e, lost, disconnect) (IsRouted-drop_routes id h)
  ]
]

pub refresh-IsRouted :
    (id : SessionId) (answer : Result (List TmuxSessionInfo)) {m : SessionManager}
    → IsRouted m
    → IsRouted (refresh_tmux_state id answer m).1
unfolding refresh_tmux_state
refresh-IsRouted id answer {m} h = elim (Option-cases (get id m.sessions)) [
  | inl e ↦ rw (e, refresh_tmux_state) h
  | inr (entry, e) ↦ elim (Result-cases answer) [
    | inl (listing, done) ↦
        rw (e, done, refresh_tmux_state)
          (IsRouted-reply id (IsRouted-set_meta id _ (IsRouted-add_routes id listing (rw e) h)))
    | inr (x, lost) ↦ rw (e, lost, refresh_tmux_state) h
  ]
]
