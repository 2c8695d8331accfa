-- ===== src/Ws/Rest.antt =====
-- server/src/agent/handler.rs, and `ice_config_handler` of server/src/ws/handler.rs: the routes that look at no
-- token. A reply is its status, or what its JSON is made of.
use oxmux.Prelude.{ℕ, List, Option, none, some, unwrap_or}
use oxmux.Prelude.Text.{Text, codes}
use oxmux.Prelude.Maps.{Map, get}
use oxmux.Result.{Result, ok, err}
use oxmux.Jwt.{JwtLibrary, create_agent_token}
use oxmux.Ice.{IceConfig, TurnCredentials, generate_turn_credentials, build_ice_config}
use oxmux.Registry.{AgentInfo, AgentRegistry, get_agent, find_by_host}
use oxmux.Registry
use oxmux.Ws.State.{AppState}

unfoldable pub list_agents : AppState → List AgentInfo
unfolding Registry.list_agents
list_agents s = Registry.list_agents s.agent_registry

-- `none`: not installed
unfoldable pub agent_status : Text → AppState → Option AgentInfo
agent_status host s = find_by_host host s.agent_registry

pub data TokenReply : Type 0 where
  issued : (token host : Text) (quic_port expires_in : ℕ) → TokenReply
  refused : (status : ℕ) (body : Text) → TokenReply

abbrev pub token_for : AgentInfo → Result Text → TokenReply
token_for agent (err e) = refused 500 e
token_for agent (ok token) = issued token agent.host agent.quic_port 300

unfoldable pub agent_token : JwtLibrary → ℕ → Text → AppState → TokenReply
unfolding get_agent create_agent_token
agent_token jwt now agent_id s = elim (get_agent agent_id s.agent_registry) [
  | none ↦ refused 404 (codes "agent not found")
  | some agent ↦ token_for agent (create_agent_token jwt now agent_id s.jwt_secret)
]

abbrev ice_reply : Option Text → Result TurnCredentials → Result IceConfig
ice_reply turns_domain (err e) = err e
ice_reply turns_domain (ok creds) = ok (build_ice_config turns_domain creds)

-- an error is status 500
unfoldable pub ice_config_handler :
    (Text → Text → Result Text) → ℕ → Option Text → Map Text → AppState → Result IceConfig
unfolding generate_turn_credentials build_ice_config
ice_config_handler mac now turns_domain params s =
    let user_id = unwrap_or (get (codes "user") params) (codes "anonymous") in
    ice_reply turns_domain (generate_turn_credentials mac now s.coturn user_id)
