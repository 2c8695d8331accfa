-- ===== src/Session/Manager.antt =====
-- server/src/session/manager.rs. Each method returns its result and the new state. The transports,
-- the database's availability and the fresh identifiers are arguments. `connect` awaits the
-- transport between reading the session and writing the outcome, so it is two steps.
pub mod Connect
pub mod Routes
pub mod Routed
pub mod Kept
pub mod Reach
pub mod Outcome
pub mod Offline
pub mod Load
use oxmux.Prelude.{
  ℕ, Bool, true, false, not, List, [], ◌∷◌, ◌++◌, Option, none, some, if◌then◌else◌, map,
}
use oxmux.Prelude.Text.{Text, codes, text_eq}
use oxmux.Prelude.Maps.{Map, get, insert, remove, modify, retain, contains_key, values}
use oxmux.Result.{Result, ok, err}
use oxmux.Session.Types.{
  SessionId, SecretString, SshAuthConfig, BackendTransport, SessionStatus, ManagedSession,
  CreateSessionRequest, UpdateSessionRequest, uploaded_key, ssh, local,
}
use oxmux.Db.Repo.{
  Json, Rows, insert_session, list_sessions_for_user, update_session_status, update_session_name,
  delete_session, row_to_managed_session,
}

-- what a backend transport is created with
pub data Transport : Type 0 where
  local_transport : (session_name : Text) → Transport
  ssh_transport :
      (host : Text) (port : ℕ) (user : Text) (auth : SshAuthConfig) (session_name : Text)
      → Transport
  quic_transport : (host : Text) (port : ℕ) (session_name : Text) → Transport

pub record SessionEntry : Type 0 where
  pub meta : ManagedSession
  pub transport : Transport

pub record SessionManager : Type 0 where
  pub sessions : Map SessionEntry
  pub pane_to_session : Map SessionId
  pub db : Rows
  -- the key data and its passphrase
  pub ephemeral_keys : Map (SecretString × Option SecretString)

-- A method of the manager.
abbrev pub Reply : Type 0
Reply = Result ManagedSession × SessionManager

unfoldable pub new : Rows → SessionManager
new db = record { sessions = []; pane_to_session = []; db = db; ephemeral_keys = [] }

abbrev pub not_found : SessionId → Text
not_found id = codes "session '" ++ (id ++ codes "' not found")

unfoldable pub backend_transport : Text → BackendTransport → Transport
backend_transport name local = local_transport name
backend_transport name (ssh host port user auth) = ssh_transport host port user auth name
backend_transport name (BackendTransport.agent host port agent_id) = quic_transport host port name

unfoldable pub create_transport : ManagedSession → Transport
unfolding backend_transport
create_transport meta = backend_transport meta.name meta.transport.backend

abbrev pub entry_of : ManagedSession → SessionEntry
entry_of meta = record { meta = meta; transport = create_transport meta }

-- a change of the metadata of one session
abbrev pub set_meta :
    SessionId → (ManagedSession → ManagedSession) → SessionManager → SessionManager
set_meta id f m = record m {
  sessions = modify id (λ entry. record entry { meta = f entry.meta }) m.sessions;
}

-- `repo::update_session_status(…).await.ok()`
abbrev pub store_status : Bool → SessionId → Text → Option Text → SessionManager → SessionManager
store_status up id status error m = record m {
  db = (update_session_status up id status error m.db).1;
}

unfoldable pub add_missing : ManagedSession → SessionManager → SessionManager
add_missing meta m =
    if contains_key meta.id m.sessions
    then m
    else record m { sessions = insert meta.id (entry_of meta) m.sessions }

-- "Return current in-memory state (may have been connected)"
unfoldable pub current : ManagedSession → SessionManager → ManagedSession
current meta m = elim (get meta.id m.sessions) [ some entry ↦ entry.meta | none ↦ meta ]

-- the loop of `load_user_sessions`; an error leaves it with the sessions added so far
unfoldable pub load_rows :
    Json
    → Rows
    → List ManagedSession
    → SessionManager
    → Result (List ManagedSession) × SessionManager
unfolding add_missing current
load_rows json [] loaded m = (ok loaded, m)
load_rows json (row ∷ rows) loaded m = elim (row_to_managed_session json row) [
  | err e ↦ (err e, m)
  | ok meta ↦
      load_rows json rows (loaded ++ current meta (add_missing meta m) ∷ []) (add_missing meta m)
]

unfoldable pub load_user_sessions :
    Json → Bool → Text → SessionManager → Result (List ManagedSession) × SessionManager
unfolding load_rows
load_user_sessions json up user_id m = elim (list_sessions_for_user json up user_id m.db) [
  | err e ↦ (err e, m)
  | ok rows ↦ load_rows json rows [] m
]

-- the session that `create` makes
abbrev pub new_session : SessionId → CreateSessionRequest → ManagedSession
new_session id req = record {
  id = id;
  name = req.name;
  transport = req.transport;
  status = SessionStatus.created;
  error = none;
  tmux_sessions = [];
}

-- `id` is the new UUID.
unfoldable pub create :
    Json → Bool → SessionId → Text → CreateSessionRequest → SessionManager → Reply
create json up id user_id req m =
    let (stored, db') = insert_session json up id user_id req.name req.transport m.db in
    elim stored [
      | err e ↦ (err e, m)
      | ok _ ↦ (
        ok (new_session id req),
        record m { db = db'; sessions = insert id (entry_of (new_session id req)) m.sessions },
      )
    ]

-- `list`, and `list_for_user`, which does not look at the user
unfoldable pub list : SessionManager → List ManagedSession
list m = map (λ entry. entry.meta) (values m.sessions)

unfoldable pub list_for_user : Text → SessionManager → List ManagedSession
unfolding list
list_for_user user_id m = list m

unfoldable pub get_session : SessionId → SessionManager → Option ManagedSession
get_session id m = elim (get id m.sessions) [ some entry ↦ some entry.meta | none ↦ none ]

-- `self.get(id).ok_or_else(…)` at the end of several methods
unfoldable pub reply_session : SessionId → SessionManager → Reply
unfolding get_session
reply_session id m = elim (get_session id m) [
  | some meta ↦ (ok meta, m)
  | none ↦ (err (codes "session disappeared"), m)
]

-- The name is written in memory before it is stored.
unfoldable pub update : Bool → SessionId → UpdateSessionRequest → SessionManager → Reply
update up id req m = elim (get id m.sessions) [
  | none ↦ (err (not_found id), m)
  | some entry ↦ elim req.name [
    | none ↦ (ok entry.meta, m)
    | some name ↦
        let m' = set_meta id (λ meta. record meta { name = name }) m in
        let (stored, db') = update_session_name up id name m.db in
        elim stored [
          | err e ↦ (err e, m')
          | ok _ ↦ (ok (record entry.meta { name = name }), record m' { db = db' })
        ]
  ]
]

-- `pane_to_session.retain(|_, sid| sid != id)`
unfoldable pub drop_routes : SessionId → SessionManager → SessionManager
drop_routes id m = record m {
  pane_to_session = retain (λ sid. not (text_eq sid id)) m.pane_to_session;
}

-- the key of a session that was made with an uploaded one
unfoldable pub drop_key :
    BackendTransport
    → Map (SecretString × Option SecretString)
    → Map (SecretString × Option SecretString)
drop_key (ssh host port user (uploaded_key key_id passphrase)) keys = remove key_id keys
drop_key _ keys = keys

-- The result of disconnecting the transport is ignored.
unfoldable pub delete : Bool → SessionId → SessionManager → Reply
unfolding drop_routes drop_key
delete up id m =
    let m1 = drop_routes id m in
    elim (get id m.sessions) [
      | none ↦ (err (not_found id), m1)
      | some entry ↦
          let m2 = record m1 {
            sessions = remove id m.sessions;
            ephemeral_keys = drop_key entry.meta.transport.backend m.ephemeral_keys;
          } in
          let (deleted, db') = delete_session up id m.db in
          elim deleted [ err e ↦ (err e, m2) | ok _ ↦ (ok entry.meta, record m2 { db = db' }) ]
    ]
