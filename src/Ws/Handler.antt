-- ===== src/Ws/Handler.antt =====
-- server/src/ws/session_handler.rs: `handle_client_msg`, which all transports of the browser share.
-- The record `Outside` of Ws/State holds what the handler calls outside the process: the database,
-- the SSH and QUIC transports of a session, the clock, the libraries. The task that `InstallAgent`
-- starts in the background is that of Deploy/Install.
pub mod Replies
pub mod Upgrade
use oxmux.Prelude.{
  ℕ, Bool, true, false, List, [], ◌∷◌, ◌++◌, Option, none, some, if◌then◌else◌, map, unwrap_or,
  ◌==◌, any, keep, not,
}
use oxmux.Prelude.Text.{Text, codes, text_eq, split, split_once, trim}
use oxmux.Prelude.Maps.{Map, insert, remove, contains_key}
use oxmux.Result.{Result, ok, err}
use oxmux.Ws.Tree.{TmuxSessionInfo}
use oxmux.Ws.Protocol.{AgentStatusMsg, ServerMsg, ClientMsg}
use oxmux.Ws.Protocol
use oxmux.Session.Types.{SecretString, SshAuthConfig, BackendTransport, ManagedSession, sanitized}
use oxmux.Session.Manager.{
  Transport, SessionManager, not_found, load_user_sessions, create, get_session, update, delete,
}
use oxmux.Session.Manager.Connect
use oxmux.Db.Repo.{Json}
use oxmux.Ice.{CoturnConfig, TurnCredentials, generate_turn_credentials, build_ice_config}
use oxmux.Jwt.{JwtLibrary, create_agent_token}
use oxmux.Registry.{AgentInfo, AgentRegistry, find_by_host}
use oxmux.Ws.State.{
  AppState, ConnectionState, Outside, agent_host, p2p_host, add_new, without, Handled,
}

module _ {Payload Usd : Type 0} where
  -- the reply for what a method of the manager returned
  unfoldable pub session_reply :
      (ManagedSession → ServerMsg Payload Usd)
      → Text
      → Result ManagedSession
      → ServerMsg Payload Usd
  session_reply reply code (ok session) = reply (sanitized session)
  session_reply reply code (err e) = ServerMsg.error code e

  unfoldable pub list_reply : Result (List ManagedSession) → ServerMsg Payload Usd
  list_reply (ok sessions) = ServerMsg.session_list (map sanitized sessions)
  list_reply (err e) = ServerMsg.error (codes "session_list_error") e

  unfoldable pub ice_reply : Outside → Text → Result TurnCredentials → ServerMsg Payload Usd
  ice_reply o peer_id (ok creds) =
      ServerMsg.ice_config peer_id (build_ice_config o.turns_domain creds)
  ice_reply o peer_id (err e) = ServerMsg.error (codes "turn_error") e

  unfoldable pub status_reply : Text → Option AgentInfo → ServerMsg Payload Usd
  status_reply host (some agent) = ServerMsg.agent_status (record {
    session_id = [];
    host = host;
    status = codes "online";
    agent_id = some agent.id;
    version = some agent.version;
    quic_port = some agent.quic_port;
  })
  status_reply host none = ServerMsg.agent_status (record {
    session_id = [];
    host = host;
    status = codes "not_installed";
    agent_id = none;
    version = none;
    quic_port = none;
  })

  -- the acknowledgment; the deployment goes on in the background
  unfoldable pub install_backend : Text → BackendTransport → ServerMsg Payload Usd
  install_backend session_id (BackendTransport.ssh host port user auth) =
      ServerMsg.agent_status (record {
        session_id = session_id;
        host = host;
        status = codes "installing";
        agent_id = none;
        version = none;
        quic_port = some 4433;
      })
  install_backend session_id _ =
      ServerMsg.error (codes "not_ssh_session") (codes "agent install requires an SSH session")

  unfoldable pub install_reply : Text → Option ManagedSession → ServerMsg Payload Usd
  unfolding install_backend
  install_reply session_id none = ServerMsg.error (codes "session_not_found") (not_found session_id)
  install_reply session_id (some session) = install_backend session_id session.transport.backend

  -- the reply for an agent and the result of making its token
  unfoldable pub ready_reply :
      Outside → Text → Text → AgentInfo → Result Text → ServerMsg Payload Usd
  unfolding agent_host
  ready_reply o session_id target agent (err e) = ServerMsg.transport_upgrade_failed session_id e
  ready_reply o session_id target agent (ok token) = ServerMsg.transport_upgrade_ready (record {
    session_id = session_id;
    agent_host = agent_host o.agent_dns_map o.agent_dns_domain agent.host;
    agent_port = agent.quic_port;
    agent_token = token;
    target = some target;
    cert_hash = agent.cert_hash;
  })

  -- the reply for the agent of the host
  unfoldable pub upgrade_agent :
      Outside → AppState → Text → Text → Text → Option AgentInfo → ServerMsg Payload Usd
  unfolding ready_reply
  upgrade_agent o s session_id target host none =
      ServerMsg.transport_upgrade_failed session_id (codes "no agent online for host " ++ host)
  upgrade_agent o s session_id target host (some agent) =
      ready_reply o session_id target agent (create_agent_token o.jwt o.now agent.id s.jwt_secret)

  -- the reply for the host of the session
  unfoldable pub upgrade_host :
      Outside → AppState → Text → Text → Option Text → ServerMsg Payload Usd
  unfolding upgrade_agent
  upgrade_host o s session_id target none =
      ServerMsg.transport_upgrade_failed session_id (codes "local sessions don't support P2P")
  upgrade_host o s session_id target (some host) =
      upgrade_agent o s session_id target host (find_by_host host s.agent_registry)

  unfoldable pub upgrade_reply :
      Outside → AppState → Text → Text → Option ManagedSession → ServerMsg Payload Usd
  unfolding p2p_host upgrade_host
  upgrade_reply o s session_id target none =
      ServerMsg.transport_upgrade_failed session_id (codes "session not found")
  upgrade_reply o s session_id target (some session) =
      upgrade_host o s session_id target (p2p_host session.transport.backend)

  abbrev after_session :
      (Result ManagedSession → ServerMsg Payload Usd)
      → Result ManagedSession × SessionManager
      → AppState
      → ConnectionState
      → Handled Payload Usd
  after_session reply (r, m) s conn = (some (reply r), record s { session_manager = m }, conn)

  abbrev after_list :
      Result (List ManagedSession) × SessionManager
      → AppState
      → ConnectionState
      → Handled Payload Usd
  after_list (r, m) s conn = (some (list_reply r), record s { session_manager = m }, conn)

  abbrev pub deleted_reply : Text → Result ManagedSession → ServerMsg Payload Usd
  deleted_reply id (ok session) = ServerMsg.session_deleted id
  deleted_reply id (err e) = ServerMsg.error (codes "session_delete_error") e

  unfoldable pub handle_client_msg :
      Outside → ClientMsg Payload → AppState → ConnectionState → Handled Payload Usd
  unfolding session_reply list_reply ice_reply status_reply install_reply upgrade_reply
  handle_client_msg o (ClientMsg.subscribe pane session_id) s conn = (
    none,
    record s { pane_outputs = add_new pane s.pane_outputs },
    record conn { pane_subs = add_new pane conn.pane_subs },
  )
  handle_client_msg o (ClientMsg.unsubscribe pane session_id) s conn =
      (none, s, record conn { pane_subs = without pane conn.pane_subs })
  handle_client_msg o (ClientMsg.input pane bytes session_id) s conn = (none, s, conn)
  handle_client_msg o (ClientMsg.resize pane cols rows session_id) s conn = (none, s, conn)
  handle_client_msg o (ClientMsg.tmux_command command) s conn = (none, s, conn)
  handle_client_msg o (ClientMsg.ice_request peer_id) s conn =
      (some (ice_reply o peer_id (generate_turn_credentials o.mac o.now s.coturn peer_id)), s, conn)
  handle_client_msg o (ClientMsg.signal peer_id payload) s conn =
      (some (ServerMsg.signal peer_id payload), s, conn)
  handle_client_msg o (ClientMsg.claude_input session_id prompt) s conn = (none, s, conn)
  handle_client_msg o (ClientMsg.ping ts) s conn = (some (ServerMsg.pong ts), s, conn)
  handle_client_msg o (ClientMsg.create_session request) s conn =
      after_session (session_reply ServerMsg.session_created (codes "session_create_error"))
        (create o.json o.up1 o.fresh_id conn.user_id request s.session_manager) s conn
  handle_client_msg o ClientMsg.list_sessions s conn =
      after_list (load_user_sessions o.json o.up1 conn.user_id s.session_manager) s conn
  handle_client_msg o (ClientMsg.connect_session session_id) s conn =
      after_session (session_reply ServerMsg.session_connected (codes "session_connect_error"))
        (Connect.connect o.up1 o.up2 session_id o.connected s.session_manager) s conn
  handle_client_msg o (ClientMsg.disconnect_session session_id) s conn =
      after_session
        (session_reply ServerMsg.session_disconnected (codes "session_disconnect_error"))
        (Connect.disconnect o.up1 session_id o.disconnected s.session_manager) s conn
  handle_client_msg o (ClientMsg.update_session session_id request) s conn =
      after_session (session_reply ServerMsg.session_updated (codes "session_update_error"))
        (update o.up1 session_id request s.session_manager) s conn
  handle_client_msg o (ClientMsg.delete_session session_id) s conn =
      after_session (deleted_reply session_id) (delete o.up1 session_id s.session_manager) s conn
  handle_client_msg o (ClientMsg.refresh_session session_id) s conn =
      after_session (session_reply ServerMsg.session_connected (codes "session_refresh_error"))
        (Connect.refresh_tmux_state session_id o.listing s.session_manager) s conn
  handle_client_msg o (ClientMsg.install_agent session_id) s conn =
      (some (install_reply session_id (get_session session_id s.session_manager)), s, conn)
  handle_client_msg o (ClientMsg.transport_upgrade session_id target) s conn = (
    some (upgrade_reply o s session_id target (get_session session_id s.session_manager)),
    s,
    conn,
  )
  handle_client_msg o (ClientMsg.agent_status_request host) s conn =
      (some (status_reply host (find_by_host host s.agent_registry)), s, conn)

-- What the handler sends to the transport of the pane's session; an error goes to the log only.
unfoldable pub sent_to_pane :
    {Payload : Type 0} → Outside → ClientMsg Payload → SessionManager → Option (Result (Unit {0}))
sent_to_pane o (ClientMsg.input pane bytes session_id) m =
    some (Connect.send_input_to_pane o.send_input pane bytes m)
sent_to_pane o (ClientMsg.resize pane cols rows session_id) m =
    some (Connect.resize_pane o.resize pane cols rows m)
sent_to_pane o _ m = none
