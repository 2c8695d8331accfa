-- ===== src/Ws/Handler/Upgrade.antt =====
-- server/src/ws/session_handler.rs: the upgrade to a direct connection with an agent.
use oxmux.Prelude.{ℕ, ◌+◌, ◌<◌, ◌≡◌, refl, sym, ap, Option, none, some}
use oxmux.Prelude.Text.{Text}
use oxmux.Result.{Result, ok, err}
use oxmux.Session.Types.{ManagedSession, BackendTransport}
use oxmux.Session.Manager.{get_session}
use oxmux.Jwt.{agent_claims, create_agent_token, validate_token}
use oxmux.Registry.{AgentInfo, find_by_host}
use oxmux.Registry.Hosts.{find-host}
use oxmux.Ws.Protocol.{ServerMsg, ClientMsg, UpgradeReady}
use oxmux.Ws.Handler.{ready_reply, upgrade_agent, upgrade_host, upgrade_reply, handle_client_msg}
use oxmux.Ws.State.{Outside, AppState, ConnectionState, p2p_host}

-- the host of a session that is reached over SSH or through an agent; a local one has none
abbrev pub IsHostOf : Text → BackendTransport → Type 0
IsHostOf host (BackendTransport.ssh there port user auth) = host ≡ there
IsHostOf host (BackendTransport.agent there port agent_id) = host ≡ there
IsHostOf host BackendTransport.local = ⊥

p2p_host-IsHostOf : (host : Text) (b : BackendTransport) → p2p_host b ≡ some host → IsHostOf host b
unfolding p2p_host
p2p_host-IsHostOf host (BackendTransport.ssh there port user auth) h = cc
p2p_host-IsHostOf host (BackendTransport.agent there port agent_id) h = cc
p2p_host-IsHostOf host BackendTransport.local h = absurd (cc)

-- what an upgrade says, with the agent of the session's host
pub record IsUpgrade (o : Outside) (s : AppState) (id target : Text) (ready : UpgradeReady)
    : Type 0 where
  pub session : ManagedSession
  pub host : Text
  pub agent : AgentInfo
  pub session-found : get_session id s.session_manager ≡ some session
  pub session-host : IsHostOf host session.transport.backend
  pub agent-found : find_by_host host s.agent_registry ≡ some agent
  pub host-same : agent.host ≡ host
  pub port-same : ready.agent_port ≡ agent.quic_port
  pub hash-same : ready.cert_hash ≡ agent.cert_hash
  pub token-valid :
      (later : ℕ)
      → later < o.now + 300
      → validate_token o.jwt later ready.agent_token s.jwt_secret ≡ ok (agent_claims o.now agent.id)

token-valid_at :
    (o : Outside) (s : AppState) (agent : AgentInfo) (ready : UpgradeReady)
    → create_agent_token o.jwt o.now agent.id s.jwt_secret ≡ ok ready.agent_token
    → (later : ℕ) → later < o.now + 300
    → validate_token o.jwt later ready.agent_token s.jwt_secret ≡ ok (agent_claims o.now agent.id)
unfolding create_agent_token validate_token
token-valid_at o s agent ready h later l =
    o.jwt.decode-encode (agent_claims o.now agent.id) s.jwt_secret ready.agent_token later h l

module _ (Payload Usd : Type 0) where
  abbrev Ready : UpgradeReady → ServerMsg Payload Usd
  Ready ready = ServerMsg.transport_upgrade_ready ready

  ready_of : UpgradeReady → ServerMsg Payload Usd → UpgradeReady
  ready_of other (ServerMsg.transport_upgrade_ready ready) = ready
  ready_of other _ = other

  ready-inv :
      (o : Outside) (id target : Text) (agent : AgentInfo) (token : Result Text)
      (ready : UpgradeReady)
      → ready_reply o id target agent token ≡ Ready ready
      → (token ≡ ok ready.agent_token)
        × (ready.agent_port ≡ agent.quic_port)
        × (ready.cert_hash ≡ agent.cert_hash)
  unfolding ready_reply ready_of
  ready-inv o id target agent (ok token) ready h =
      let e = ap (ready_of ready) h in
      (ap (λ r. ok r.agent_token) e, sym (ap (λ r. r.agent_port) e), sym (ap (λ r. r.cert_hash) e))
  ready-inv o id target agent (err e) ready h = absurd (cc)

  agent-inv :
      (o : Outside) (s : AppState) (id target host : Text) (found : Option AgentInfo)
      (ready : UpgradeReady)
      → upgrade_agent o s id target host found ≡ Ready ready
      → (agent : AgentInfo) × (found ≡ some agent)
        × (create_agent_token o.jwt o.now agent.id s.jwt_secret ≡ ok ready.agent_token)
        × (ready.agent_port ≡ agent.quic_port)
        × (ready.cert_hash ≡ agent.cert_hash)
  unfolding upgrade_agent
  agent-inv o s id target host none ready h = absurd (cc)
  agent-inv o s id target host (some agent) ready h =
      let inv =
        ready-inv o id target agent (create_agent_token o.jwt o.now agent.id s.jwt_secret) ready
          h in
      (agent, refl, inv.0, inv.1, inv.2)

  host-inv :
      (o : Outside) (s : AppState) (id target : Text) (known : Option Text) (ready : UpgradeReady)
      → upgrade_host o s id target known ≡ Ready ready
      → (host : Text) × (known ≡ some host)
        × (upgrade_agent o s id target host (find_by_host host s.agent_registry) ≡ Ready ready)
  unfolding upgrade_host
  host-inv o s id target none ready h = absurd (cc)
  host-inv o s id target (some host) ready h = (host, refl, h)

  session-inv :
      (o : Outside) (s : AppState) (id target : Text) (found : Option ManagedSession)
      (ready : UpgradeReady)
      → upgrade_reply o s id target found ≡ Ready ready
      → (session : ManagedSession) × (found ≡ some session)
        × (upgrade_host o s id target (p2p_host session.transport.backend) ≡ Ready ready)
  unfolding upgrade_reply
  session-inv o s id target none ready h = absurd (cc)
  session-inv o s id target (some session) ready h = (session, refl, h)

  some-injective : {a b : ServerMsg Payload Usd} → some a ≡ some b → a ≡ b
  some-injective e = cc

  -- When the upgrade of a session succeeds, the session exists and is not local, an agent is registered
  -- for its host, the port and the certificate's hash are that agent's, and the token names that agent
  -- and is valid under the server's secret at every time less than 300 seconds later.
  pub handle_client_msg-IsUpgrade :
      (o : Outside) (s : AppState) (conn : ConnectionState) (id target : Text)
      (ready : UpgradeReady)
      → (handle_client_msg o (ClientMsg.transport_upgrade id target) s conn).0 ≡ some (Ready ready)
      → IsUpgrade o s id target ready
  unfolding handle_client_msg
  handle_client_msg-IsUpgrade o s conn id target ready h =
      let by_session =
        session-inv o s id target (get_session id s.session_manager) ready (some-injective h) in
      let by_host =
        host-inv o s id target (p2p_host by_session.0.transport.backend) ready by_session.2 in
      let by_agent =
        agent-inv o s id target by_host.0 (find_by_host by_host.0 s.agent_registry) ready
          by_host.2 in
      record {
        session = by_session.0;
        host = by_host.0;
        agent = by_agent.0;
        session-found = by_session.1;
        session-host = p2p_host-IsHostOf by_host.0 by_session.0.transport.backend by_host.1;
        agent-found = by_agent.1;
        host-same = find-host by_host.0 s.agent_registry by_agent.0 by_agent.1;
        port-same = by_agent.3;
        hash-same = by_agent.4;
        token-valid = token-valid_at o s by_agent.0 ready by_agent.2;
      }
