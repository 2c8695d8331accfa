-- ===== src/Ws/Handler/Replies.antt =====
-- server/src/ws/session_handler.rs: the secrets of sessions, and the replies.
use oxmux.Prelude.{◌≡◌, refl, ap, ◌∙◌, List, [], ◌∷◌, Option, none, some, map, All}
use oxmux.Prelude.Text.{Text, codes}
use oxmux.Result.{Result, ok, err}
use oxmux.Session.Types.{
  SshAuthConfig, BackendTransport, password, private_key, uploaded_key, ManagedSession, sanitized,
  sanitize_auth, sanitize_backend,
}
use oxmux.Session.Manager.{SessionManager, load_user_sessions, create, update, delete, get_session}
use oxmux.Session.Manager.Connect
use oxmux.Ice.{TurnCredentials, generate_turn_credentials}
use oxmux.Registry.{AgentInfo, find_by_host}
use oxmux.Jwt.{create_agent_token}
use oxmux.Ws.Protocol.{ServerMsg, ClientMsg}
use oxmux.Ws.Handler.{
  session_reply, list_reply, ice_reply, status_reply, install_backend, install_reply, upgrade_agent,
  upgrade_host, upgrade_reply, deleted_reply, handle_client_msg, ready_reply,
}
use oxmux.Ws.State.{Outside, AppState, ConnectionState, p2p_host}

-- neither a password nor a passphrase
abbrev pub LacksSecret : SshAuthConfig → Type 0
LacksSecret SshAuthConfig.agent = Unit
LacksSecret (password p) = p ≡ codes "***"
LacksSecret (private_key path p) = p ≡ none
LacksSecret (uploaded_key key_id p) = p ≡ none

abbrev pub BackendLacks : BackendTransport → Type 0
BackendLacks (BackendTransport.ssh host port user auth) = LacksSecret auth
BackendLacks (BackendTransport.agent host port agent_id) = Unit
BackendLacks BackendTransport.local = Unit

abbrev pub SessionLacks : ManagedSession → Type 0
SessionLacks session = BackendLacks session.transport.backend

-- the sessions in a message lack secrets
abbrev pub ReplyLacks : {Payload Usd : Type 0} → Option (ServerMsg Payload Usd) → Type 0
ReplyLacks none = Unit
ReplyLacks (some (ServerMsg.session_list sessions)) = All SessionLacks sessions
ReplyLacks (some (ServerMsg.session_created session)) = SessionLacks session
ReplyLacks (some (ServerMsg.session_updated session)) = SessionLacks session
ReplyLacks (some (ServerMsg.session_connected session)) = SessionLacks session
ReplyLacks (some (ServerMsg.session_disconnected session)) = SessionLacks session
ReplyLacks (some _) = Unit

auth-LacksSecret : (a : SshAuthConfig) → LacksSecret (sanitize_auth a)
unfolding sanitize_auth
auth-LacksSecret SshAuthConfig.agent = tt
auth-LacksSecret (password p) = refl
auth-LacksSecret (private_key path p) = refl
auth-LacksSecret (uploaded_key key_id p) = refl

sanitized-SessionLacks : (s : ManagedSession) → SessionLacks (sanitized s)
unfolding sanitized sanitize_backend
sanitized-SessionLacks s = elim s.transport.backend as (λ b. BackendLacks (sanitize_backend b)) [
  | BackendTransport.ssh host port user auth ↦ auth-LacksSecret auth
  | BackendTransport.agent host port agent_id ↦ tt
  | BackendTransport.local ↦ tt
]

map-sanitized : (sessions : List ManagedSession) → All SessionLacks (map sanitized sessions)
map-sanitized [] = tt
map-sanitized (s ∷ sessions) = (sanitized-SessionLacks s, map-sanitized sessions)

-- a session as the database or the memory has it, without its secrets
abbrev pub hidden : Option ManagedSession → Option ManagedSession
hidden none = none
hidden (some session) = some (sanitized session)

p2p_host-hidden : (b : BackendTransport) → p2p_host b ≡ p2p_host (sanitize_backend b)
unfolding p2p_host sanitize_backend
p2p_host-hidden (BackendTransport.ssh host port user auth) = refl
p2p_host-hidden (BackendTransport.agent host port agent_id) = refl
p2p_host-hidden BackendTransport.local = refl

module _ (Payload Usd : Type 0) where
  -- The reply to these messages is made without the secrets: from a session whose secrets were taken
  -- away, or from no session at all.
  abbrev pub IsSecretFree : Outside → ClientMsg Payload → AppState → ConnectionState → Type 0
  IsSecretFree o (ClientMsg.install_agent id) s conn =
      (handle_client_msg {Payload = Payload} {Usd = Usd} o (ClientMsg.install_agent id) s conn).0
      ≡ some (install_reply id (hidden (get_session id s.session_manager)))
  IsSecretFree o (ClientMsg.transport_upgrade id target) s conn =
      (m : SessionManager)
      → (handle_client_msg {Payload = Payload} {Usd = Usd} o (ClientMsg.transport_upgrade id target)
          s conn).0
        ≡ some (
            upgrade_reply o (record s { session_manager = m }) id target
              (hidden (get_session id s.session_manager)))
  IsSecretFree o (ClientMsg.ice_request peer_id) s conn =
      (m : SessionManager)
      → (handle_client_msg {Payload = Payload} {Usd = Usd} o (ClientMsg.ice_request peer_id) s
          conn).0
        ≡ (handle_client_msg o (ClientMsg.ice_request peer_id) (record s { session_manager = m })
            conn).0
  IsSecretFree o (ClientMsg.agent_status_request host) s conn =
      (m : SessionManager)
      → (handle_client_msg {Payload = Payload} {Usd = Usd} o (ClientMsg.agent_status_request host) s
          conn).0
        ≡ (handle_client_msg o (ClientMsg.agent_status_request host)
            (record s { session_manager = m }) conn).0
  IsSecretFree o _ s conn = Unit

  install_backend-hidden :
      (id : Text) (b : BackendTransport)
      → install_backend {Payload = Payload} {Usd = Usd} id b
        ≡ install_backend id (sanitize_backend b)
  unfolding install_backend sanitize_backend
  install_backend-hidden id (BackendTransport.ssh host port user auth) = refl
  install_backend-hidden id (BackendTransport.agent host port agent_id) = refl
  install_backend-hidden id BackendTransport.local = refl

  install_reply-hidden :
      (id : Text) (found : Option ManagedSession)
      → install_reply {Payload = Payload} {Usd = Usd} id found ≡ install_reply id (hidden found)
  unfolding install_reply sanitized
  install_reply-hidden id none = refl
  install_reply-hidden id (some session) = install_backend-hidden id session.transport.backend

  upgrade_reply-hidden :
      (o : Outside) (s : AppState) (m : SessionManager) (id target : Text)
      (found : Option ManagedSession)
      → upgrade_reply {Payload = Payload} {Usd = Usd} o s id target found
        ≡ upgrade_reply o (record s { session_manager = m }) id target (hidden found)
  unfolding upgrade_reply upgrade_host upgrade_agent sanitized
  upgrade_reply-hidden o s m id target none = refl
  upgrade_reply-hidden o s m id target (some session) =
      ap (upgrade_host o s id target) (p2p_host-hidden session.transport.backend)
      ∙ same_host (p2p_host (sanitize_backend session.transport.backend))
    where
      same_agent :
          (host : Text) (found : Option AgentInfo)
          → upgrade_agent {Payload = Payload} {Usd = Usd} o s id target host found
            ≡ upgrade_agent o (record s { session_manager = m }) id target host found
      same_agent host none = refl
      same_agent host (some agent) = refl

      same_host :
          (host : Option Text)
          → upgrade_host {Payload = Payload} {Usd = Usd} o s id target host
            ≡ upgrade_host o (record s { session_manager = m }) id target host
      same_host none = refl
      same_host (some host) = same_agent host (find_by_host host s.agent_registry)

  reply-IsSecretFree :
      (o : Outside) (msg : ClientMsg Payload) (s : AppState) (conn : ConnectionState)
      → IsSecretFree o msg s conn
  unfolding handle_client_msg
  reply-IsSecretFree o (ClientMsg.install_agent id) s conn =
      ap (λ r. some r) (install_reply-hidden id (get_session id s.session_manager))
  reply-IsSecretFree o (ClientMsg.transport_upgrade id target) s conn = λ m.
      ap (λ r. some r) (upgrade_reply-hidden o s m id target (get_session id s.session_manager))
  reply-IsSecretFree o (ClientMsg.ice_request peer_id) s conn = λ m. refl
  reply-IsSecretFree o (ClientMsg.agent_status_request host) s conn = λ m. refl
  reply-IsSecretFree o (ClientMsg.subscribe pane session_id) s conn = tt
  reply-IsSecretFree o (ClientMsg.unsubscribe pane session_id) s conn = tt
  reply-IsSecretFree o (ClientMsg.input pane bytes session_id) s conn = tt
  reply-IsSecretFree o (ClientMsg.resize pane cols rows session_id) s conn = tt
  reply-IsSecretFree o (ClientMsg.tmux_command command) s conn = tt
  reply-IsSecretFree o (ClientMsg.signal peer_id payload) s conn = tt
  reply-IsSecretFree o (ClientMsg.claude_input session_id prompt) s conn = tt
  reply-IsSecretFree o (ClientMsg.ping ts) s conn = tt
  reply-IsSecretFree o (ClientMsg.create_session request) s conn = tt
  reply-IsSecretFree o (ClientMsg.list_sessions) s conn = tt
  reply-IsSecretFree o (ClientMsg.connect_session session_id) s conn = tt
  reply-IsSecretFree o (ClientMsg.disconnect_session session_id) s conn = tt
  reply-IsSecretFree o (ClientMsg.update_session session_id request) s conn = tt
  reply-IsSecretFree o (ClientMsg.delete_session session_id) s conn = tt
  reply-IsSecretFree o (ClientMsg.refresh_session session_id) s conn = tt

  session_reply-ReplyLacks :
      (reply : ManagedSession → ServerMsg Payload Usd) (code : Text) (r : Result ManagedSession)
      → ((s : ManagedSession) → SessionLacks s → ReplyLacks (some (reply s)))
      → ReplyLacks (some (session_reply reply code r))
  unfolding session_reply
  session_reply-ReplyLacks reply code (ok s) h = h (sanitized s) (sanitized-SessionLacks s)
  session_reply-ReplyLacks reply code (err e) h = tt

  list_reply-ReplyLacks :
      (r : Result (List ManagedSession))
      → ReplyLacks (some (list_reply {Payload = Payload} {Usd = Usd} r))
  unfolding list_reply
  list_reply-ReplyLacks (ok sessions) = map-sanitized sessions
  list_reply-ReplyLacks (err e) = tt

  ice_reply-ReplyLacks :
      (o : Outside) (peer_id : Text) (r : Result TurnCredentials)
      → ReplyLacks (some (ice_reply {Payload = Payload} {Usd = Usd} o peer_id r))
  unfolding ice_reply
  ice_reply-ReplyLacks o peer_id (ok creds) = tt
  ice_reply-ReplyLacks o peer_id (err e) = tt

  status_reply-ReplyLacks :
      (host : Text) (found : Option AgentInfo)
      → ReplyLacks (some (status_reply {Payload = Payload} {Usd = Usd} host found))
  unfolding status_reply
  status_reply-ReplyLacks host none = tt
  status_reply-ReplyLacks host (some agent) = tt

  install_backend-ReplyLacks :
      (id : Text) (b : BackendTransport)
      → ReplyLacks (some (install_backend {Payload = Payload} {Usd = Usd} id b))
  unfolding install_backend
  install_backend-ReplyLacks id (BackendTransport.ssh host port user auth) = tt
  install_backend-ReplyLacks id (BackendTransport.agent host port agent_id) = tt
  install_backend-ReplyLacks id BackendTransport.local = tt

  install_reply-ReplyLacks :
      (id : Text) (found : Option ManagedSession)
      → ReplyLacks (some (install_reply {Payload = Payload} {Usd = Usd} id found))
  unfolding install_reply
  install_reply-ReplyLacks id none = tt
  install_reply-ReplyLacks id (some session) =
      install_backend-ReplyLacks id session.transport.backend

  ready_reply-ReplyLacks :
      (o : Outside) (id target : Text) (agent : AgentInfo) (token : Result Text)
      → ReplyLacks (some (ready_reply {Payload = Payload} {Usd = Usd} o id target agent token))
  unfolding ready_reply
  ready_reply-ReplyLacks o id target agent (ok token) = tt
  ready_reply-ReplyLacks o id target agent (err e) = tt

  upgrade_agent-ReplyLacks :
      (o : Outside) (s : AppState) (id target host : Text) (found : Option AgentInfo)
      → ReplyLacks (some (upgrade_agent {Payload = Payload} {Usd = Usd} o s id target host found))
  unfolding upgrade_agent
  upgrade_agent-ReplyLacks o s id target host none = tt
  upgrade_agent-ReplyLacks o s id target host (some agent) =
      ready_reply-ReplyLacks o id target agent
        (create_agent_token o.jwt o.now agent.id s.jwt_secret)

  upgrade_host-ReplyLacks :
      (o : Outside) (s : AppState) (id target : Text) (host : Option Text)
      → ReplyLacks (some (upgrade_host {Payload = Payload} {Usd = Usd} o s id target host))
  unfolding upgrade_host
  upgrade_host-ReplyLacks o s id target none = tt
  upgrade_host-ReplyLacks o s id target (some host) =
      upgrade_agent-ReplyLacks o s id target host (find_by_host host s.agent_registry)

  upgrade_reply-ReplyLacks :
      (o : Outside) (s : AppState) (id target : Text) (found : Option ManagedSession)
      → ReplyLacks (some (upgrade_reply {Payload = Payload} {Usd = Usd} o s id target found))
  unfolding upgrade_reply
  upgrade_reply-ReplyLacks o s id target none = tt
  upgrade_reply-ReplyLacks o s id target (some session) =
      upgrade_host-ReplyLacks o s id target (p2p_host session.transport.backend)

  deleted_reply-ReplyLacks :
      (id : Text) (r : Result ManagedSession)
      → ReplyLacks (some (deleted_reply {Payload = Payload} {Usd = Usd} id r))
  deleted_reply-ReplyLacks id (ok session) = tt
  deleted_reply-ReplyLacks id (err e) = tt

  sessions-ReplyLacks :
      (o : Outside) (msg : ClientMsg Payload) (s : AppState) (conn : ConnectionState)
      → ReplyLacks (handle_client_msg {Payload = Payload} {Usd = Usd} o msg s conn).0
  unfolding handle_client_msg
  sessions-ReplyLacks o (ClientMsg.subscribe pane session_id) s conn = tt
  sessions-ReplyLacks o (ClientMsg.unsubscribe pane session_id) s conn = tt
  sessions-ReplyLacks o (ClientMsg.input pane bytes session_id) s conn = tt
  sessions-ReplyLacks o (ClientMsg.resize pane cols rows session_id) s conn = tt
  sessions-ReplyLacks o (ClientMsg.tmux_command command) s conn = tt
  sessions-ReplyLacks o (ClientMsg.ice_request peer_id) s conn =
      ice_reply-ReplyLacks o peer_id (generate_turn_credentials o.mac o.now s.coturn peer_id)
  sessions-ReplyLacks o (ClientMsg.signal peer_id payload) s conn = tt
  sessions-ReplyLacks o (ClientMsg.claude_input session_id prompt) s conn = tt
  sessions-ReplyLacks o (ClientMsg.ping ts) s conn = tt
  sessions-ReplyLacks o (ClientMsg.create_session request) s conn =
      session_reply-ReplyLacks ServerMsg.session_created (codes "session_create_error")
        (create o.json o.up1 o.fresh_id conn.user_id request s.session_manager).0 (λ x h. h)
  sessions-ReplyLacks o (ClientMsg.list_sessions) s conn =
      list_reply-ReplyLacks (load_user_sessions o.json o.up1 conn.user_id s.session_manager).0
  sessions-ReplyLacks o (ClientMsg.connect_session session_id) s conn =
      session_reply-ReplyLacks ServerMsg.session_connected (codes "session_connect_error")
        (Connect.connect o.up1 o.up2 session_id o.connected s.session_manager).0 (λ x h. h)
  sessions-ReplyLacks o (ClientMsg.disconnect_session session_id) s conn =
      session_reply-ReplyLacks ServerMsg.session_disconnected (codes "session_disconnect_error")
        (Connect.disconnect o.up1 session_id o.disconnected s.session_manager).0 (λ x h. h)
  sessions-ReplyLacks o (ClientMsg.update_session session_id request) s conn =
      session_reply-ReplyLacks ServerMsg.session_updated (codes "session_update_error")
        (update o.up1 session_id request s.session_manager).0 (λ x h. h)
  sessions-ReplyLacks o (ClientMsg.delete_session session_id) s conn =
      deleted_reply-ReplyLacks session_id (delete o.up1 session_id s.session_manager).0
  sessions-ReplyLacks o (ClientMsg.refresh_session session_id) s conn =
      session_reply-ReplyLacks ServerMsg.session_connected (codes "session_refresh_error")
        (Connect.refresh_tmux_state session_id o.listing s.session_manager).0 (λ x h. h)
  sessions-ReplyLacks o (ClientMsg.install_agent session_id) s conn =
      install_reply-ReplyLacks session_id (get_session session_id s.session_manager)
  sessions-ReplyLacks o (ClientMsg.transport_upgrade session_id target) s conn =
      upgrade_reply-ReplyLacks o s session_id target (get_session session_id s.session_manager)
  sessions-ReplyLacks o (ClientMsg.agent_status_request host) s conn =
      status_reply-ReplyLacks host (find_by_host host s.agent_registry)

  -- Whatever message a client sends, in every state and however the calls outside end: in each session
  -- that a reply carries, a password is `***` and a passphrase is left out. The other replies that are
  -- made from a session, those to the installation of an agent and to an upgrade, are the same when the
  -- session has its secrets taken away first; those to requests for TURN credentials and for the status
  -- of an agent do not depend on the sessions.
  pub reply-ReplyLacks :
      (o : Outside) (msg : ClientMsg Payload) (s : AppState) (conn : ConnectionState)
      → ReplyLacks (handle_client_msg {Payload = Payload} {Usd = Usd} o msg s conn).0
        × IsSecretFree o msg s conn
  reply-ReplyLacks o msg s conn =
      (sessions-ReplyLacks o msg s conn, reply-IsSecretFree o msg s conn)
