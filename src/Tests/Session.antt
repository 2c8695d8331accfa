-- ===== src/Tests/Session.antt =====
-- server/src/session and server/src/db at concrete sessions.
use oxmux.Prelude.{
  ◌≡◌, refl, true, false, not, List, [], ◌∷◌, Option, none, some, arith, if◌then◌else◌,
}
use oxmux.Prelude.Text.{Text, codes, text_eq, text_eq_iff}
use oxmux.Prelude.Maps.{get, insert, modify, contains_key, filter_option}
use oxmux.Result.{ok, err}
use oxmux.Ws.Tree.{TmuxSessionInfo}
use oxmux.Session.Types.{
  SessionStatus, ManagedSession, BackendTransport, TransportConfig, CreateSessionRequest, password,
  ssh, local, websocket, quic, webrtc, BrowserTransport, sanitized,
}
use oxmux.Session.Types.Secrets.{
  BackendAgrees, over_ssh, passwords, with_backend, sanitized_secrets,
}
use oxmux.Db.Repo.{
  Json, reset_sessions, insert_session, list_sessions_for_user, row_to_managed_session,
  update_session_status,
}
use oxmux.Session.Manager.{
  Transport, SessionManager, new, entry_of, new_session, get_session, create, delete,
  load_user_sessions, reply_session, load_rows, add_missing, current,
}
use oxmux.Session.Manager.Connect.{
  listed, failed, route_panes, listing_pane_ids, connect_start, connect_finish, connect, disconnect,
  find_session_for_pane, pane_transport,
}
use oxmux.Session.Manager.Routes.{routes-dropped}
use oxmux.Session.Manager.Reach.{start, next, creating, connecting, Reach-find}
use oxmux.Session.Manager.Outcome.{in_listing, connect_outcome, connect-delete_race}
use oxmux.Session.Manager.Load.{load_restarted, Contains, load-create}
use oxmux.Session.Manager.Offline.{AreOffline}

abbrev config : TransportConfig
config = record {
  browser = websocket;
  backend = ssh (codes "host") 22 (codes "root") (password (codes "secret"));
}

-- the same with another password
abbrev other_backend : BackendTransport
other_backend = ssh (codes "host") 22 (codes "root") (password (codes "other"))

other_backend-BackendAgrees : BackendAgrees config.backend other_backend
other_backend-BackendAgrees =
    over_ssh (codes "host") 22 (codes "root") (passwords (codes "secret") (codes "other"))

abbrev request : CreateSessionRequest
request = record { name = codes "main"; transport = config }

abbrev dev : ManagedSession
dev = new_session (codes "id1") request

abbrev pub listing : List TmuxSessionInfo
listing =
    (record {
      id = codes "$1";
      name = codes "main";
      windows =
          (record {
            id = codes "@1";
            name = codes "sh";
            index = 0;
            layout = [];
            panes =
                (record {
                  id = codes "%1";
                  index = 0;
                  cols = 80;
                  rows = 24;
                  current_command = codes "bash";
                  is_active = true;
                  is_claude = false;
                })
                ∷ [];
          })
          ∷ [];
    })
    ∷ []

-- a serialisation that knows one configuration
abbrev pub local_config : TransportConfig
local_config = record { browser = websocket; backend = local }

abbrev pub write_config : BrowserTransport → BackendTransport → Option Text
write_config websocket local = some (codes "local")
write_config _ _ = none

abbrev pub read_config : Text → Option TransportConfig
read_config t = if text_eq t (codes "local") then some local_config else none

pub read-write :
    (browser : BrowserTransport) (backend : BackendTransport) (t : Text)
    → write_config browser backend ≡ some t
    → read_config t ≡ some (record { browser = browser; backend = backend })
read-write websocket local t e = ground (arith, text_eq_iff t (codes "local"))
read-write websocket (ssh h p u a) t e = absurd (cc)
read-write websocket (BackendTransport.agent h p a) t e = absurd (cc)
read-write quic backend t e = absurd (cc)
read-write webrtc backend t e = absurd (cc)

abbrev pub json : Json
json = record {
  to_string = λ c. write_config c.browser c.backend;
  from_str = read_config;
  backend_from_str = λ t. none;
  from-to = λ c. read-write c.browser c.backend;
  order = λ rows. rows;
  any-order = λ p rows. refl;
}

abbrev pub local_request : CreateSessionRequest
local_request = record { name = codes "main"; transport = local_config }

abbrev pub made : SessionManager
made = (create json true (codes "id1") (codes "u1") local_request (new [])).1

abbrev pub connected : SessionManager
connected = (connect true true (codes "id1") (listed listing) made).1

loaded_made :
    (load_user_sessions json true (codes "u1") (new (reset_sessions made.db))).0
    ≡ ok (new_session (codes "id1") local_request ∷ [])
unfolding create insert_session new load_user_sessions list_sessions_for_user load_rows add_missing
    current row_to_managed_session reset_sessions get insert text_eq
loaded_made = refl

created_made :
    (create json true (codes "id1") (codes "u1") local_request (new [])).0
    ≡ ok (new_session (codes "id1") local_request)
unfolding create insert_session new
created_made = refl

load_restarted_example : AreOffline (new_session (codes "id1") local_request ∷ [])
load_restarted_example =
    load_restarted json (codes "u1") true made.db (new_session (codes "id1") local_request ∷ [])
      loaded_made

load-create_example :
    Contains
      (new_session (codes "id1") local_request)
      (new_session (codes "id1") local_request ∷ [])
load-create_example =
    load-create json (codes "id1") (codes "u1") local_request (new [])
      (new_session (codes "id1") local_request) (new_session (codes "id1") local_request ∷ [])
      created_made loaded_made

Reach-find_example :
    (contains_key (codes "id1") connected.sessions ≡ true)
    × ((transport : Transport) × (pane_transport (codes "%1") connected ≡ ok transport))
Reach-find_example =
    Reach-find json [] connected
      (next (next start (creating true (codes "id1") (codes "u1") local_request (new [])))
        (connecting true true (codes "id1") (listed listing) made))
      (codes "%1") (codes "id1") owned
  where
    owned : find_session_for_pane (codes "%1") connected ≡ some (codes "id1")
    owned =
        unfold find_session_for_pane connect connect_start connect_finish reply_session get_session
          create insert_session new get insert modify text_eq route_panes listing_pane_ids
          update_session_status in
        refl

abbrev manager : SessionManager
manager = record {
  sessions = (codes "id1", entry_of dev) ∷ [];
  pane_to_session = (codes "%1", codes "id1") ∷ (codes "%2", codes "id2") ∷ [];
  db = [];
  ephemeral_keys = [];
}

sanitized_secrets_example :
    (sanitized (with_backend dev other_backend) ≡ sanitized dev)
    × ((b : BackendTransport) × (sanitized dev ≡ with_backend dev b)
        × BackendAgrees config.backend b)
sanitized_secrets_example = sanitized_secrets dev other_backend other_backend-BackendAgrees

routes-dropped_example :
    let left =
      filter_option
        (λ sid. not (text_eq sid (codes "id1")))
        (find_session_for_pane (codes "%2") manager) in
    (find_session_for_pane (codes "%2") (delete true (codes "id1") manager).1 ≡ left)
    × (find_session_for_pane (codes "%2") (disconnect true (codes "id1") (ok tt) manager).1 ≡ left)
routes-dropped_example =
    routes-dropped true (codes "id1") (ok tt) manager (codes "%2")
      (unfold get text_eq in (refl, (refl, tt)))

connect_outcome_example :
    ((l : List TmuxSessionInfo)
      → ((connect true true (codes "id1") (listed l) manager).0
          ≡ ok (record dev { status = SessionStatus.connected; error = none; tmux_sessions = l }))
        × ((pane : Text)
            → find_session_for_pane pane (connect true true (codes "id1") (listed l) manager).1 ≡ (
                if in_listing pane l
                then some (codes "id1")
                else find_session_for_pane pane manager)))
    × ((e : Text)
        → ((connect true true (codes "id1") (failed e) manager).0 ≡ err e)
          × (get_session (codes "id1") (connect true true (codes "id1") (failed e) manager).1
              ≡ some (record dev { status = SessionStatus.error; error = some e }))
          × ((pane : Text)
              → find_session_for_pane pane (connect true true (codes "id1") (failed e) manager).1
                ≡ find_session_for_pane pane manager))
connect_outcome_example =
    connect_outcome true true (codes "id1") manager (entry_of dev) (unfold get text_eq in refl)

connect-delete_race_example :
    let deleted = (delete true (codes "id1") (connect_start true (codes "id1") manager).1).1 in
    let after = (connect_finish true (codes "id1") (listed listing) deleted).1 in
    (get_session (codes "id1") after ≡ none)
    × (find_session_for_pane (codes "%1") after ≡ some (codes "id1"))
connect-delete_race_example =
    connect-delete_race true true true (codes "id1") listing manager (codes "%1")
      (unfold listing_pane_ids text_eq in refl)
