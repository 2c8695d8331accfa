-- ===== src/Ws/Protocol.antt =====
-- server/src/ws/protocol.rs: the messages. `serde_json::Value` and the amounts of claude/parser.rs are
-- parameters; `Bytes` is a list of bytes.
use oxmux.Prelude.{ℕ, List, Option}
use oxmux.Prelude.Text.{Text}
use oxmux.Session.Types.{ManagedSession, CreateSessionRequest, UpdateSessionRequest}
use oxmux.Ice.{IceConfig}
use oxmux.Claude
use oxmux.Ws.Tree.{TmuxPaneInfo, TmuxSessionInfo}

pub data TmuxEventMsg : Type 0 where
  session_created : (id name : Text) → TmuxEventMsg
  session_closed : (id : Text) → TmuxEventMsg
  window_created : (session_id window_id name : Text) → TmuxEventMsg
  window_closed : (session_id window_id : Text) → TmuxEventMsg
  pane_created : (window_id : Text) (pane : TmuxPaneInfo) → TmuxEventMsg
  pane_closed : (pane_id : Text) → TmuxEventMsg
  layout_changed : (window_id layout : Text) → TmuxEventMsg
  pane_title_changed : (pane_id title : Text) → TmuxEventMsg

pub record AgentStatusMsg : Type 0 where
  pub session_id : Text
  pub host : Text
  pub status : Text
  pub agent_id : Option Text
  pub version : Option Text
  pub quic_port : Option ℕ

pub record UpgradeReady : Type 0 where
  pub session_id : Text
  pub agent_host : Text
  pub agent_port : ℕ
  pub agent_token : Text
  pub target : Option Text
  pub cert_hash : Option Text

pub data ServerMsg (Json Usd : Type 0) : Type 0 where
  output : (pane : Text) (bytes : List ℕ) (session_id : Option Text) → ServerMsg Json Usd
  state : (sessions : List TmuxSessionInfo) → ServerMsg Json Usd
  tmux_event : TmuxEventMsg → ServerMsg Json Usd
  claude_event : (session_id : Text) (event : Claude.ClaudeEvent Json Usd) → ServerMsg Json Usd
  claude_accumulator :
      (session_id : Text) (accumulator : Claude.SessionAccumulator Usd) → ServerMsg Json Usd
  ice_config : (peer_id : Text) (config : IceConfig) → ServerMsg Json Usd
  signal : (peer_id : Text) (payload : Json) → ServerMsg Json Usd
  error : (code message : Text) → ServerMsg Json Usd
  pong : (ts : ℕ) → ServerMsg Json Usd
  session_list : (sessions : List ManagedSession) → ServerMsg Json Usd
  session_created : (session : ManagedSession) → ServerMsg Json Usd
  session_updated : (session : ManagedSession) → ServerMsg Json Usd
  session_deleted : (session_id : Text) → ServerMsg Json Usd
  session_connected : (session : ManagedSession) → ServerMsg Json Usd
  session_disconnected : (session : ManagedSession) → ServerMsg Json Usd
  agent_status : AgentStatusMsg → ServerMsg Json Usd
  transport_upgrade_ready : UpgradeReady → ServerMsg Json Usd
  transport_upgrade_failed : (session_id error : Text) → ServerMsg Json Usd

pub data ClientMsg (Json : Type 0) : Type 0 where
  subscribe : (pane : Text) (session_id : Option Text) → ClientMsg Json
  unsubscribe : (pane : Text) (session_id : Option Text) → ClientMsg Json
  input : (pane : Text) (bytes : List ℕ) (session_id : Option Text) → ClientMsg Json
  resize : (pane : Text) (cols rows : ℕ) (session_id : Option Text) → ClientMsg Json
  tmux_command : (command : Text) → ClientMsg Json
  ice_request : (peer_id : Text) → ClientMsg Json
  signal : (peer_id : Text) (payload : Json) → ClientMsg Json
  claude_input : (session_id prompt : Text) → ClientMsg Json
  ping : (ts : ℕ) → ClientMsg Json
  create_session : (request : CreateSessionRequest) → ClientMsg Json
  list_sessions : ClientMsg Json
  connect_session : (session_id : Text) → ClientMsg Json
  disconnect_session : (session_id : Text) → ClientMsg Json
  update_session : (session_id : Text) (request : UpdateSessionRequest) → ClientMsg Json
  delete_session : (session_id : Text) → ClientMsg Json
  refresh_session : (session_id : Text) → ClientMsg Json
  install_agent : (session_id : Text) → ClientMsg Json
  transport_upgrade : (session_id target : Text) → ClientMsg Json
  agent_status_request : (host : Text) → ClientMsg Json
