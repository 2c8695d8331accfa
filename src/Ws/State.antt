-- ===== src/Ws/State.antt =====
-- server/src/state.rs and server/src/ws/session_handler.rs: the state of the server and of a
-- connection, what the handler calls outside the process, and the address of an agent.
use oxmux.Prelude.{
  ℕ, Bool, List, [], ◌∷◌, ◌++◌, Option, none, some, if◌then◌else◌, unwrap_or, ◌==◌, any, keep, not,
}
use oxmux.Prelude.Text.{Text, codes, text_eq, split, split_once, trim}
use oxmux.Result.{Result}
use oxmux.Ws.Tree.{TmuxSessionInfo}
use oxmux.Ws.Protocol.{ServerMsg}
use oxmux.Session.Types.{SecretString, BackendTransport}
use oxmux.Session.Manager.{Transport, SessionManager}
use oxmux.Session.Manager.Connect
use oxmux.Db.Repo.{Json}
use oxmux.Ice.{CoturnConfig}
use oxmux.Jwt.{JwtLibrary}
use oxmux.Registry.{AgentRegistry}

pub record AppState : Type 0 where
  pub coturn : CoturnConfig
  pub jwt_secret : SecretString
  -- the panes that have a channel
  pub pane_outputs : List Text
  pub session_manager : SessionManager
  pub agent_registry : AgentRegistry

pub record ConnectionState : Type 0 where
  pub user_id : Text
  pub pane_subs : List Text

-- what one call of the handler meets
pub record Outside : Type 0 where
  pub json : Json
  pub jwt : JwtLibrary
  pub mac : Text → Text → Result Text
  pub now : ℕ
  pub fresh_id : Text
  -- whether the database executes the first statement, and the second
  pub up1 : Bool
  pub up2 : Bool
  pub send_input : Transport → Text → List ℕ → Result (Unit {0})
  pub resize : Transport → Text → ℕ → ℕ → Result (Unit {0})
  pub connected : Connect.Connected
  pub disconnected : Result (Unit {0})
  pub listing : Result (List TmuxSessionInfo)
  -- `COTURN_TURNS_DOMAIN`, `AGENT_DNS_MAP` and `AGENT_DNS_DOMAIN`
  pub turns_domain : Option Text
  pub agent_dns_map : Option Text
  pub agent_dns_domain : Option Text

-- `str::replace` of a character
unfoldable pub replace : ℕ → ℕ → Text → Text
replace a b [] = []
replace a b (c ∷ s) = (if c == a then b else c) ∷ replace a b s

-- the first entry `ip=dns` of the map for the host
unfoldable pub mapped_host : Text → List Text → Option Text
mapped_host host [] = none
mapped_host host (entry ∷ entries) = elim (split_once b'=' entry) [
  | none ↦ mapped_host host entries
  | some (ip, dns) ↦ if text_eq (trim ip) host then some (trim dns) else mapped_host host entries
]

unfoldable pub agent_host : Option Text → Option Text → Text → Text
unfolding mapped_host replace
agent_host dns_map domain host =
    unwrap_or (mapped_host host (split b',' (unwrap_or dns_map [])))
      (codes "agent-" ++ (replace b'.' b'-' host ++ b'.' ∷ unwrap_or domain (codes "oxmux.app")))

-- the host of an agent for the session
unfoldable pub p2p_host : BackendTransport → Option Text
p2p_host (BackendTransport.ssh host port user auth) = some host
p2p_host (BackendTransport.agent host port agent_id) = some host
p2p_host BackendTransport.local = none

-- a key of a map that is there already is replaced
abbrev pub add_new : Text → List Text → List Text
add_new x xs = if any (text_eq x) xs then xs else x ∷ xs

abbrev pub without : Text → List Text → List Text
without x xs = keep (λ y. not (text_eq x y)) xs

-- the optional reply, and both states
abbrev pub Handled : Type 0 → Type 0 → Type 0
Handled Payload Usd = Option (ServerMsg Payload Usd) × AppState × ConnectionState
