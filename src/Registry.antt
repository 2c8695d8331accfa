-- ===== src/Registry.antt =====
-- server/src/agent/registry.rs: the agents that are online.
pub mod Hosts
use oxmux.Prelude.{ℕ, Bool, List, Option, find}
use oxmux.Prelude.Text.{Text, text_eq}
use oxmux.Prelude.Maps.{Map, insert, remove, modify, contains_key, values}
use oxmux.Prelude.Maps

pub record AgentInfo : Type 0 where
  pub id : Text
  pub hostname : Text
  pub host : Text
  pub quic_port : ℕ
  pub version : Text
  pub last_seen : ℕ
  pub cert_hash : Option Text

abbrev pub AgentRegistry : Type 0
AgentRegistry = Map AgentInfo

unfoldable pub register : AgentInfo → AgentRegistry → AgentRegistry
register info agents = insert info.id info agents

unfoldable pub unregister : Text → AgentRegistry → AgentRegistry
unregister id agents = remove id agents

unfoldable pub list_agents : AgentRegistry → List AgentInfo
list_agents agents = values agents

unfoldable pub get_agent : Text → AgentRegistry → Option AgentInfo
get_agent id agents = Maps.get id agents

-- the first in the order of the iteration
unfoldable pub find_by_host : Text → AgentRegistry → Option AgentInfo
find_by_host host agents = find (λ agent. text_eq agent.host host) (values agents)

unfoldable pub is_online : Text → AgentRegistry → Bool
is_online id agents = contains_key id agents

unfoldable pub update_heartbeat : Text → ℕ → AgentRegistry → AgentRegistry
update_heartbeat id timestamp agents =
    modify id (λ agent. record agent { last_seen = timestamp }) agents
