-- ===== src/Db/Repo.antt =====
-- server/src/db/repo.rs and server/src/db/mod.rs: the table of sessions, and what the statements do
-- to it. The time stamps are not modelled, and the order of a listing is that of a parameter. `up` says whether the database executes a statement; `serde_json` is a parameter.
use oxmux.Prelude.{
  Bool, not, ◌&&◌, ◌||◌, List, [], ◌∷◌, Option, none, some, ◌≡◌, if◌then◌else◌, any, keep,
}
use oxmux.Prelude.Text.{Text, codes, text_eq}
use oxmux.Result.{Result, ok, err}
use oxmux.Session.Types.{
  BackendTransport, TransportConfig, SessionStatus, ManagedSession, default_browser,
}

pub record SessionRow : Type 0 where
  pub id : Text
  pub user_id : Text
  pub name : Text
  pub transport_config : Text
  pub status : Text
  pub error : Option Text

abbrev pub Rows : Type 0
Rows = List SessionRow

abbrev pub has_id : Text → SessionRow → Bool
has_id id row = text_eq row.id id

-- `serde_json` on the transport configuration, and on the backend alone (the legacy format); and SQLite
-- for the order of the rows.
pub record Json : Type 0 where
  pub to_string : TransportConfig → Option Text
  pub from_str : Text → Option TransportConfig
  pub backend_from_str : Text → Option BackendTransport
  -- what was serialised is read back
  pub from-to : (c : TransportConfig) (t : Text) → to_string c ≡ some t → from_str t ≡ some c
  -- `ORDER BY created_at DESC`: the same rows. The stamps count seconds, and the order of the rows of
  -- one second is the library's.
  pub order : Rows → Rows
  pub any-order : (p : SessionRow → Bool) (rows : Rows) → any p (order rows) ≡ any p rows

-- `UPDATE sessions SET … WHERE …`
unfoldable pub update_where : (SessionRow → Bool) → (SessionRow → SessionRow) → Rows → Rows
update_where test set [] = []
update_where test set (row ∷ rows) =
    (if test row then set row else row) ∷ update_where test set rows

-- `id` is the primary key.
unfoldable pub insert_session :
    Json → Bool → Text → Text → Text → TransportConfig → Rows → Result (Unit {0}) × Rows
insert_session json up id user_id name config rows = elim (json.to_string config) [
  | none ↦ (err (codes "failed to serialize"), rows)
  | some config_json ↦
      if up && not (any (has_id id) rows)
      then (
        ok tt,
        (record {
          id = id;
          user_id = user_id;
          name = name;
          transport_config = config_json;
          status = codes "created";
          error = none;
        })
            ∷ rows,
      )
      else (err (codes "failed to insert session"), rows)
]

unfoldable pub list_sessions_for_user : Json → Bool → Text → Rows → Result Rows
list_sessions_for_user json up user_id rows =
    if up
    then ok (json.order (keep (λ row. text_eq row.user_id user_id) rows))
    else err (codes "failed to list sessions")

unfoldable pub update_session_status :
    Bool → Text → Text → Option Text → Rows → Result (Unit {0}) × Rows
unfolding update_where
update_session_status up id status error rows =
    if up
    then (
      ok tt,
      update_where (has_id id) (λ row. record row { status = status; error = error }) rows,
    )
    else (err (codes "failed to update session status"), rows)

unfoldable pub update_session_name : Bool → Text → Text → Rows → Result (Unit {0}) × Rows
unfolding update_where
update_session_name up id name rows =
    if up
    then (ok tt, update_where (has_id id) (λ row. record row { name = name }) rows)
    else (err (codes "failed to update session name"), rows)

unfoldable pub delete_session : Bool → Text → Rows → Result (Unit {0}) × Rows
delete_session up id rows =
    if up
    then (ok tt, keep (λ row. not (has_id id row)) rows)
    else (err (codes "failed to delete session"), rows)

-- the new format, else the legacy one
unfoldable pub row_transport : Json → Text → Option TransportConfig
row_transport json text = elim (json.from_str text) [
  | some config ↦ some config
  | none ↦ elim (json.backend_from_str text) [
    | some backend ↦ some (record { browser = default_browser; backend = backend })
    | none ↦ none
  ]
]

unfoldable pub row_status : Text → SessionStatus
row_status s =
    if text_eq s (codes "created")
    then SessionStatus.created
    else if text_eq s (codes "connecting")
    then SessionStatus.connecting
    else if text_eq s (codes "connected")
    then SessionStatus.disconnected
    else if text_eq s (codes "disconnected")
    then SessionStatus.disconnected
    else if text_eq s (codes "error")
    then SessionStatus.error
    else SessionStatus.created

unfoldable pub row_to_managed_session : Json → SessionRow → Result ManagedSession
unfolding row_transport row_status
row_to_managed_session json row = elim (row_transport json row.transport_config) [
  | none ↦ err (codes "failed to deserialize transport_config")
  | some transport ↦ ok (record {
    id = row.id;
    name = row.name;
    transport = transport;
    status = row_status row.status;
    error = row.error;
    tmux_sessions = [];
  })
]

-- server/src/db/mod.rs, `init`: the reset of the sessions at the start of the server
unfoldable pub reset_sessions : Rows → Rows
unfolding update_where
reset_sessions rows =
    update_where
      (λ row. text_eq row.status (codes "connected") || text_eq row.status (codes "connecting"))
      (λ row. record row { status = codes "disconnected" }) rows
