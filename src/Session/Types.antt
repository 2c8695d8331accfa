-- ===== src/Session/Types.antt =====
-- server/src/session/types.rs. A `SecretString` is the text that it holds.
pub mod Secrets
use oxmux.Prelude.{
  ℕ, zero, suc, Bool, true, false, List, [], ◌∷◌, ◌++◌, Option, none, some, is_some,
}
use oxmux.Prelude.Text.{Text, codes}
use oxmux.Ws.Tree.{TmuxSessionInfo}

abbrev pub SessionId : Type 0
SessionId = Text

abbrev pub SecretString : Type 0
SecretString = Text

pub data BrowserTransport : Type 0 where
  websocket quic webrtc : BrowserTransport

pub data SshAuthConfig : Type 0 where
  agent : SshAuthConfig
  password : SecretString → SshAuthConfig
  private_key : Text → Option SecretString → SshAuthConfig
  uploaded_key : Text → Option SecretString → SshAuthConfig

pub data BackendTransport : Type 0 where
  ssh : (host : Text) (port : ℕ) (user : Text) (auth : SshAuthConfig) → BackendTransport
  agent : (host : Text) (port : ℕ) (agent_id : Option Text) → BackendTransport
  local : BackendTransport

abbrev pub default_browser : BrowserTransport
default_browser = websocket

pub record TransportConfig : Type 0 where
  pub browser : BrowserTransport
  pub backend : BackendTransport

pub data SessionStatus : Type 0 where
  created connecting connected reconnecting disconnected error : SessionStatus

pub record ManagedSession : Type 0 where
  pub id : SessionId
  pub name : Text
  pub transport : TransportConfig
  pub status : SessionStatus
  pub error : Option Text
  pub tmux_sessions : List TmuxSessionInfo

pub record CreateSessionRequest : Type 0 where
  pub name : Text
  pub transport : TransportConfig

pub record UpdateSessionRequest : Type 0 where
  pub name : Option Text

-- `impl Display for SessionStatus`
unfoldable pub status_text : SessionStatus → Text
status_text created = codes "created"
status_text connecting = codes "connecting"
status_text connected = codes "connected"
status_text reconnecting = codes "reconnecting"
status_text disconnected = codes "disconnected"
status_text error = codes "error"

-- `impl Display for BrowserTransport`
unfoldable pub browser_text : BrowserTransport → Text
browser_text websocket = codes "websocket"
browser_text quic = codes "quic"
browser_text webrtc = codes "webrtc"

-- the `match` of `sanitized` on the authentication
unfoldable pub sanitize_auth : SshAuthConfig → SshAuthConfig
sanitize_auth (password p) = password (codes "***")
sanitize_auth (private_key path p) = private_key path none
sanitize_auth (uploaded_key key_id p) = uploaded_key key_id none
sanitize_auth SshAuthConfig.agent = SshAuthConfig.agent

unfoldable pub sanitize_backend : BackendTransport → BackendTransport
unfolding sanitize_auth
sanitize_backend (ssh host port user auth) = ssh host port user (sanitize_auth auth)
sanitize_backend (BackendTransport.agent host port agent_id) =
    BackendTransport.agent host port agent_id
sanitize_backend local = local

unfoldable pub sanitized : ManagedSession → ManagedSession
unfolding sanitize_backend
sanitized s = record s {
  transport = record s.transport { backend = sanitize_backend s.transport.backend };
}

-- the `match` of `transport_number`
unfoldable pub combination_number : BrowserTransport → BackendTransport → ℕ
combination_number websocket (ssh host port user auth) = 1
combination_number quic (ssh host port user auth) = 2
combination_number webrtc (ssh host port user auth) = 3
combination_number quic (BackendTransport.agent host port agent_id) = 4
combination_number webrtc (BackendTransport.agent host port agent_id) = 5
combination_number _ _ = 0

unfoldable pub transport_number : ManagedSession → ℕ
unfolding combination_number
transport_number s = combination_number s.transport.browser s.transport.backend

abbrev bool_text : Bool → Text
bool_text true = codes "true"
bool_text false = codes "false"

-- `impl Debug for SshAuthConfig`; `quote` is the standard library's `{:?}` of a string
unfoldable pub debug_auth : (Text → Text) → SshAuthConfig → Text
debug_auth quote SshAuthConfig.agent = codes "SshAuthConfig::Agent"
debug_auth quote (password p) = codes "SshAuthConfig::Password { *** }"
debug_auth quote (private_key path passphrase) =
    codes "SshAuthConfig::PrivateKey { path: "
    ++ (quote path
        ++ (codes ", has_passphrase: " ++ (bool_text (is_some passphrase) ++ codes " }")))
debug_auth quote (uploaded_key key_id passphrase) =
    codes "SshAuthConfig::UploadedKey { key_id: "
    ++ (quote key_id
        ++ (codes ", has_passphrase: " ++ (bool_text (is_some passphrase) ++ codes " }")))
