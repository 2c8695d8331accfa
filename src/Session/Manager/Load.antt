-- ===== src/Session/Manager/Load.antt =====
-- server/src/session/manager.rs, `load_user_sessions`, after a restart of the server
-- (server/src/db/mod.rs, `init`).
use oxmux.Prelude.{
  ◌≡◌, refl, sym, ap, ◌∙◌, Bool, true, false, not, ◌&&◌, List, [], ◌∷◌, ◌++◌, Option, none, some,
  arith, keep, any, is_some, Bool-cases, Option-cases, inl, inr, append-nil, append_assoc,
}
use oxmux.Prelude.Text.{Text, text_eq, text_eq_iff, text_eq_refl, codes}
use oxmux.Prelude.Maps.{get, get-insert}
use oxmux.Result.{ok, Result-cases, ok-injective, err-ok}
use oxmux.Session.Types.{SessionId, SessionStatus, ManagedSession, CreateSessionRequest}
use oxmux.Db.Repo.{
  Json, SessionRow, Rows, has_id, update_where, list_sessions_for_user, insert_session,
  row_to_managed_session, row_transport, row_status, reset_sessions,
}
use oxmux.Session.Manager.{
  SessionManager, new, entry_of, new_session, add_missing, current, load_rows, load_user_sessions,
  create,
}
use oxmux.Session.Manager.Offline.{AreOffline, load-AreOffline}

-- After a restart of the server, whatever the table of sessions held: if loading a user's sessions
-- succeeds, none of them is connected, connecting or reconnecting.
pub load_restarted :
    (json : Json) (user_id : Text) (up : Bool) (rows : Rows) (l : List ManagedSession)
    → (load_user_sessions json up user_id (new (reset_sessions rows))).0 ≡ ok l
    → AreOffline l
load_restarted json user_id up rows l loaded = load-AreOffline json up user_id rows l loaded

-- the row that `create` stores
abbrev created_row : SessionId → Text → CreateSessionRequest → Text → SessionRow
created_row id user_id req config_json = record {
  id = id;
  user_id = user_id;
  name = req.name;
  transport_config = config_json;
  status = codes "created";
  error = none;
}

-- the row has the id, but is another than the one that `create` stores
abbrev is_other : SessionId → CreateSessionRequest → Text → SessionRow → Bool
is_other id req t row =
    text_eq row.id id
    && not (
        text_eq row.name req.name
        && text_eq row.transport_config t
        && text_eq row.status (codes "created")
        && not (is_some row.error))

create-db :
    (json : Json) (id user_id : Text) (req : CreateSessionRequest) (m : SessionManager)
    (s : ManagedSession)
    → (create json true id user_id req m).0 ≡ ok s
    → (t : Text) × (json.to_string req.transport ≡ some t)
      × (any (has_id id) m.db ≡ false)
      × ((create json true id user_id req m).1.db ≡ created_row id user_id req t ∷ m.db)
unfolding create insert_session
create-db json id user_id req m s e = elim (Option-cases (json.to_string req.transport)) [
  | inl unstored ↦ absurd (ground arith)
  | inr (t, stored) ↦ (t, stored, ground arith, ground arith)
]

created_tests :
    (text_eq (codes "created") (codes "connected") ≡ false)
    × (text_eq (codes "created") (codes "connecting") ≡ false)
unfolding text_eq
created_tests = (refl, refl)

created-reset :
    (id user_id t : Text) (req : CreateSessionRequest) (rows : Rows)
    → reset_sessions (created_row id user_id req t ∷ rows)
      ≡ created_row id user_id req t ∷ reset_sessions rows
unfolding reset_sessions update_where
created-reset id user_id t req rows = rw (created_tests.0, created_tests.1)

user_rows : Text → Rows → Rows
user_rows user_id rows = keep (λ row. text_eq row.user_id user_id) rows

own-created :
    (id user_id t : Text) (req : CreateSessionRequest) (rows : Rows)
    → user_rows user_id (created_row id user_id req t ∷ rows)
      ≡ created_row id user_id req t ∷ user_rows user_id rows
unfolding user_rows
own-created id user_id t req rows = ground (arith, text_eq_refl user_id)

no_id-keep :
    (id user_id : Text) (rows : Rows)
    → any (has_id id) rows ≡ false
    → any (has_id id) (user_rows user_id rows) ≡ false
unfolding user_rows
no_id-keep id user_id [] h = refl
no_id-keep id user_id (row ∷ rows) h = ground (arith, no_id-keep id user_id rows)

no_id-reset :
    (id : Text) (rows : Rows)
    → any (has_id id) rows ≡ false
    → any (has_id id) (reset_sessions rows) ≡ false
unfolding reset_sessions update_where
no_id-reset id [] h = refl
no_id-reset id (row ∷ rows) h = ground (arith, no_id-reset id rows)

no_id-other :
    (id t : Text) (req : CreateSessionRequest) (rows : Rows)
    → any (has_id id) rows ≡ false
    → any (is_other id req t) rows ≡ false
no_id-other id t req [] h = refl
no_id-other id t req (row ∷ rows) h = ground (arith, no_id-other id t req rows)

created-no_other :
    (id user_id t : Text) (req : CreateSessionRequest) (rows : Rows)
    → any (has_id id) rows ≡ false
    → any (is_other id req t) (created_row id user_id req t ∷ rows) ≡ false
created-no_other id user_id t req rows h = ground (
  arith,
  no_id-other id t req rows h,
  text_eq_refl id,
  text_eq_refl req.name,
  text_eq_refl t,
  text_eq_refl (codes "created"),
)

no_error : (e : Option Text) → is_some e ≡ false → e ≡ none
no_error none h = refl
no_error (some t) h = absurd (cc)

created_status : row_status (codes "created") ≡ SessionStatus.created
unfolding row_status text_eq
created_status = refl

-- the row that has the id and is no other
same-managed :
    (json : Json) (id t : Text) (req : CreateSessionRequest) (row : SessionRow)
    → json.to_string req.transport ≡ some t
    → text_eq row.id id ≡ true
    → is_other id req t row ≡ false
    → row_to_managed_session json row ≡ ok (new_session id req)
unfolding row_to_managed_session
same-managed json id t req row stored same no_other =
    let ids : row.id ≡ id = (text_eq_iff row.id id).0 same in
    let names : row.name ≡ req.name = (text_eq_iff row.name req.name).0 (ground arith) in
    let configs : row.transport_config ≡ t =
      (text_eq_iff row.transport_config t).0 (ground arith) in
    let statuses : row.status ≡ codes "created" =
      (text_eq_iff row.status (codes "created")).0 (ground arith) in
    let errors : row.error ≡ none = no_error row.error (ground arith) in
    let transport : row_transport json row.transport_config ≡ some req.transport =
      rw configs (rw (json.from-to req.transport t stored, row_transport) refl) in
    rw (transport, row_to_managed_session)
      (rw ids (rw names (rw statuses (rw errors (rw created_status refl)))))

managed-id :
    (json : Json) (row : SessionRow) (meta : ManagedSession)
    → row_to_managed_session json row ≡ ok meta
    → meta.id ≡ row.id
unfolding row_to_managed_session
managed-id json row meta e = elim (Option-cases (row_transport json row.transport_config)) [
  | inl unread ↦ absurd (err-ok refl (rw (unread, row_to_managed_session) at e))
  | inr (transport, read) ↦
      sym (ap (λ s. s.id) (ok-injective (rw (read, row_to_managed_session) at e)))
]

missing-current :
    (meta : ManagedSession) (m : SessionManager)
    → get meta.id m.sessions ≡ none
    → current meta (add_missing meta m) ≡ meta
unfolding current add_missing
missing-current meta m h =
    ground (arith, get-insert meta.id meta.id (entry_of meta) m.sessions, text_eq_refl meta.id)

missing-other :
    (id : Text) (meta : ManagedSession) (m : SessionManager)
    → text_eq meta.id id ≡ false
    → get id m.sessions ≡ none
    → get id (add_missing meta m).sessions ≡ none
unfolding add_missing
missing-other id meta m h absent = ground (arith, get-insert meta.id id (entry_of meta) m.sessions)

-- what has been loaded stays
load_rows-prefix :
    (json : Json) (rows : Rows) (loaded : List ManagedSession) (m : SessionManager)
    (l : List ManagedSession)
    → (load_rows json rows loaded m).0 ≡ ok l
    → (rest : List ManagedSession) × (l ≡ loaded ++ rest)
unfolding load_rows
load_rows-prefix json [] loaded m l e = ([], rw append-nil (ground arith))
load_rows-prefix json (row ∷ rows) loaded m l e =
    elim (Result-cases (row_to_managed_session json row)) [
      | inl (meta, got) ↦
          let (rest, eq) =
            load_rows-prefix json rows (loaded ++ current meta (add_missing meta m) ∷ [])
              (add_missing meta m) l (rw (got, load_rows) at e) in
          (current meta (add_missing meta m) ∷ rest, eq ∙ rw append_assoc)
      | inr (x, lost) ↦ absurd (ground arith)
    ]

-- a session stands in a list
abbrev pub Contains : ManagedSession → List ManagedSession → Type 0
Contains s l =
    (before : List ManagedSession) × (rest : List ManagedSession) × (l ≡ before ++ s ∷ rest)

load_rows-Contains :
    (json : Json) (id t : Text) (req : CreateSessionRequest) (rows : Rows)
    (loaded : List ManagedSession) (m : SessionManager) (l : List ManagedSession)
    → json.to_string req.transport ≡ some t
    → any (has_id id) rows ≡ true
    → any (is_other id req t) rows ≡ false
    → get id m.sessions ≡ none
    → (load_rows json rows loaded m).0 ≡ ok l
    → Contains (new_session id req) l
unfolding load_rows
load_rows-Contains json id t req [] loaded m l stored there alone absent e = absurd (cc)
load_rows-Contains json id t req (row ∷ rows) loaded m l stored there alone absent e =
    elim (Bool-cases (text_eq row.id id)) [
      | inl same ↦
          let no_other : is_other id req t row ≡ false = ground arith in
          let got = same-managed json id t req row stored same no_other in
          let (rest, eq) =
            load_rows-prefix json rows
              (loaded ++ current (new_session id req) (add_missing (new_session id req) m) ∷ [])
              (add_missing (new_session id req) m) l (rw (got, load_rows) at e) in
          (
            loaded,
            rest,
            eq
                ∙ (rw (missing-current (new_session id req) m absent)
                    (append_assoc loaded (new_session id req ∷ []) rest)),
          )
      | inr away ↦ elim (Result-cases (row_to_managed_session json row)) [
        | inr (x, lost) ↦ absurd (ground arith)
        | inl (meta, got) ↦
            load_rows-Contains json id t req rows (loaded ++ current meta (add_missing meta m) ∷ [])
              (add_missing meta m) l stored (rw away at there) (rw away at alone)
              (missing-other id meta m (rw (managed-id json row meta got) away) absent)
              (rw (got, load_rows) at e)
      ]
    ]

-- A session that was created, with the database up, is loaded for its user after a restart of the
-- server, if loading succeeds: it is among the user's sessions, as it was created, in whatever order
-- the database lists rows of one second.
pub load-create :
    (json : Json) (id user_id : Text) (req : CreateSessionRequest) (m : SessionManager)
    (s : ManagedSession) (l : List ManagedSession)
    → (create json true id user_id req m).0 ≡ ok s
    → (load_user_sessions json true user_id
        (new (reset_sessions (create json true id user_id req m).1.db))).0
      ≡ ok l
    → Contains (new_session id req) l
unfolding load_user_sessions list_sessions_for_user new user_rows get
load-create json id user_id req m s l made loaded =
    let (t, stored, fresh, db) = create-db json id user_id req m s made in
    let c = created_row id user_id req t in
    let own = user_rows user_id (reset_sessions m.db) in
    let none_own : any (has_id id) own ≡ false =
      no_id-keep id user_id (reset_sessions m.db) (no_id-reset id m.db fresh) in
    let rows : user_rows user_id (reset_sessions (create json true id user_id req m).1.db)
        ≡ c ∷ own =
      rw db (
        ap (user_rows user_id) (created-reset id user_id t req m.db)
        ∙ own-created id user_id t req (reset_sessions m.db)) in
    load_rows-Contains json id t req (json.order (c ∷ own)) []
      (new (reset_sessions (create json true id user_id req m).1.db)) l stored
      (json.any-order (has_id id) (c ∷ own) ∙ rw (text_eq_refl id) refl)
      (json.any-order (is_other id req t) (c ∷ own)
        ∙ created-no_other id user_id t req own none_own)
      refl (rw rows at loaded)
