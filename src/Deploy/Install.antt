-- ===== src/Deploy/Install.antt =====
-- server/src/ws/session_handler.rs: the task that `InstallAgent` starts in the background, from the SSH
-- connection to the registration of the agent. What it sends to the browser is a list.
use oxmux.Prelude.{
  ℕ, zero, suc, ◌+◌, ◌==◌, ◌&&◌, ◌||◌, not, Bool, true, false, List, [], ◌∷◌, Option, none, some,
  if◌then◌else◌, is_empty, length,
}
use oxmux.Prelude.Text.{Text, codes, text_eq, trim}
use oxmux.Prelude.Maps.{Map, get}
use oxmux.Result.{Result, ok, err, ok_or, ◌>>=◌}
use oxmux.Tmux.Decode.{utf8}
use oxmux.Session.Manager.{get_session}
use oxmux.Ws.State.{AppState}
use oxmux.Session.Types.{
  BackendTransport, SecretString, SshAuthConfig, password, private_key, uploaded_key,
}
use oxmux.Session.Transports.Ssh.{ExecMsg, Remote, key_pass, expand_path, convert_key, first_some}
use oxmux.Registry.{AgentInfo, AgentRegistry, register}
use oxmux.Ws.Protocol.{AgentStatusMsg}
use oxmux.Deploy.{Tools, Target, DeployResult, Deployed, exec_ssh_command, deploy_via_ssh}

-- the deployment that `InstallAgent` starts for a session, if it starts one
unfoldable pub install_target : Text → AppState → Option Target
install_target session_id s = elim (get_session session_id s.session_manager) [
  | none ↦ none
  | some session ↦ elim session.transport.backend [
    | BackendTransport.ssh host port user auth ↦ some (record {
      host = host;
      port = port;
      user = user;
      auth = auth;
      agent_secret = s.jwt_secret;
      coturn_secret = s.coturn.auth_secret;
      coturn_servers = s.coturn.servers;
      quic_port = 4433;
    })
    | BackendTransport.agent host port agent_id ↦ none
    | BackendTransport.local ↦ none
  ]
]

-- what one run of the task meets
pub record Meets : Type 0 where
  pub remote : Remote
  pub tools : Tools
  -- the answer to each attempt of `systemctl is-active`, and to the reading of the certificate
  pub check : ℕ → Option (List ExecMsg)
  pub fingerprint : Option (List ExecMsg)
  pub to_lowercase : Text → Text
  pub fresh_id : Text
  pub now : ℕ

-- an authentication that the server refuses is no error here
abbrev pub answered : Option Bool → Result (Unit {0})
answered none = err (codes "SSH error")
answered (some any_answer) = ok tt

module _ (o : Meets) where
  abbrev with_key_pair : Text → Option Text → Result (Unit {0})
  with_key_pair user none = err (codes "key not decoded")
  with_key_pair user (some key) = answered (o.remote.authenticate_publickey user key)

  unfoldable pub authenticate :
      Text → SshAuthConfig → Map (SecretString × Option SecretString) → Result (Unit {0})
  unfolding convert_key key_pass expand_path
  authenticate user (private_key path passphrase) keys =
      let file = expand_path o.remote.home path in
      ok_or (o.remote.read_to_string file) (codes "key not read") >>= λ read.
      convert_key o.remote file passphrase read >>= λ key_data.
      with_key_pair user (o.remote.decode_secret_key key_data (key_pass key_data passphrase))
  authenticate user (password p) keys = answered (o.remote.authenticate_password user p)
  authenticate user (uploaded_key key_id passphrase) keys =
      ok_or (get key_id keys) (codes "uploaded key not found in memory") >>= λ entry.
      with_key_pair user
        (o.remote.decode_secret_key entry.0 (key_pass entry.0 (first_some entry.1 passphrase)))
  authenticate user SshAuthConfig.agent keys = answered (o.remote.authenticate_none user)

  -- an error before the deployment leaves nothing
  abbrev pub deploy_after : Result (Unit {0}) → Target → Deployed
  deploy_after (err e) d = (err e, [])
  deploy_after (ok u) d = deploy_via_ssh o.tools d

  unfoldable pub connect_and_deploy : Map (SecretString × Option SecretString) → Target → Deployed
  unfolding authenticate deploy_via_ssh
  connect_and_deploy keys d =
      deploy_after
        (ok_or o.remote.connection (codes "SSH connect failed") >>= λ h.
          authenticate d.user d.auth keys)
        d

  abbrev pub is_active : Result Text → Bool
  is_active (err e) = false
  is_active (ok output) = text_eq (trim output) (codes "active")

  -- the attempts from one on, at most that many
  unfoldable pub active_within : ℕ → ℕ → Bool
  unfolding exec_ssh_command
  active_within zero attempt = false
  active_within (suc n) attempt =
      is_active (exec_ssh_command (o.check attempt)) || active_within n (attempt + 1)

  -- `filter`: 64 bytes
  abbrev pub filter_hash : Text → Option Text
  filter_hash h = if not (is_empty h) && length (utf8 h) == 64 then some h else none

  abbrev pub hash_of : Result Text → Option Text
  hash_of (err e) = none
  hash_of (ok h) = filter_hash (o.to_lowercase (trim h))

  abbrev pub agent_info : Target → DeployResult → AgentInfo
  agent_info d result = record {
    id = o.fresh_id;
    hostname = d.host;
    host = d.host;
    quic_port = result.quic_port;
    version = codes "0.1.0";
    last_seen = o.now;
    cert_hash = hash_of (exec_ssh_command o.fingerprint);
  }

abbrev pub status_msg : Text → Target → Text → Option Text → Option Text → Option ℕ → AgentStatusMsg
status_msg session_id d status agent_id version quic_port = record {
  session_id = session_id;
  host = d.host;
  status = status;
  agent_id = agent_id;
  version = version;
  quic_port = quic_port;
}

abbrev pub installing : Text → Target → AgentStatusMsg
installing session_id d = status_msg session_id d (codes "installing") none none (some 4433)

abbrev pub starting : Text → Target → DeployResult → AgentStatusMsg
starting session_id d result =
    status_msg session_id d (codes "starting") none (some (codes "0.1.0")) (some result.quic_port)

abbrev pub failed : Text → Target → Option ℕ → AgentStatusMsg
failed session_id d quic_port = status_msg session_id d (codes "error") none none quic_port

abbrev pub online : Text → Target → Text → DeployResult → AgentStatusMsg
online session_id d agent_id result =
    status_msg session_id d (codes "online") (some agent_id) (some (codes "0.1.0"))
      (some result.quic_port)

-- the statuses sent after the first, and the registry
abbrev Sent : Type 0
Sent = List AgentStatusMsg × AgentRegistry

abbrev pub with_first : AgentStatusMsg → Sent → Sent
with_first msg (msgs, registry) = (msg ∷ msgs, registry)

module _ (o : Meets) (session_id : Text) (d : Target) (agents : AgentRegistry) where
  -- from the end of the attempts on
  abbrev pub after_checks : DeployResult → Bool → Sent
  after_checks result true =
      (online session_id d o.fresh_id result ∷ [], register (agent_info o d result) agents)
  after_checks result false = (failed session_id d (some result.quic_port) ∷ [], agents)

  -- from the end of the deployment on
  abbrev pub after_deploy : Result DeployResult → Sent
  after_deploy (err e) = (failed session_id d none ∷ [], agents)
  after_deploy (ok result) =
      with_first (starting session_id d result) (after_checks result (active_within o 5 1))

  unfoldable pub install_task : Map (SecretString × Option SecretString) → Sent
  unfolding connect_and_deploy active_within register
  install_task keys =
      with_first (installing session_id d) (after_deploy (connect_and_deploy o keys d).0)
