-- ===== src/Registry/Hosts.antt =====
-- server/src/agent/registry.rs: finding an agent by its host.
use oxmux.Prelude.{
  ℕ, ◌≡◌, ap, ◌∙◌, true, false, [], ◌∷◌, some, is_some, arith, if◌then◌else◌, Option-cases, inl,
  inr,
}
use oxmux.Prelude.Text.{Text, text_eq, text_eq_iff, text_eq_refl}
use oxmux.Prelude.Maps.{insert, values, get-insert, get-remove, get-modify, map_option}
use oxmux.Registry.{
  AgentInfo, AgentRegistry, register, unregister, get_agent, find_by_host, is_online,
  update_heartbeat,
}

find-register :
    (info : AgentInfo) (agents : AgentRegistry)
    → is_some (find_by_host info.host (register info agents)) ≡ true
unfolding find_by_host register insert values
find-register info [] = ground (arith, text_eq_refl info.host)
find-register info ((id, a) ∷ agents) =
    ground (arith, text_eq_refl info.host, find-register info agents)

pub find-host :
    (host : Text) (agents : AgentRegistry) (a : AgentInfo)
    → find_by_host host agents ≡ some a
    → a.host ≡ host
unfolding find_by_host values
find-host host [] a h = absurd (ground arith)
find-host host ((id, b) ∷ agents) a h =
    ground (arith, text_eq_iff b.host host, find-host host agents a)

abbrev pub seen : ℕ → AgentInfo → AgentInfo
seen now a = record a { last_seen = now }

found-register :
    (info : AgentInfo) (agents : AgentRegistry)
    → (a : AgentInfo) × (find_by_host info.host (register info agents) ≡ some a)
      × (a.host ≡ info.host)
found-register info agents = elim (Option-cases (find_by_host info.host (register info agents))) [
  | inl e ↦ absurd (ground (arith, find-register info agents))
  | inr (a, e) ↦ (a, e, find-host info.host (register info agents) a e)
]

-- After an agent registers, a search for its host finds an agent of that host; it is online under its
-- id, with what it registered, until it unregisters; a heartbeat changes the time of no other agent
-- and its own only if it is online.
pub register-online :
    (info : AgentInfo) (other : Text) (now : ℕ) (agents : AgentRegistry)
    → ((a : AgentInfo) × (find_by_host info.host (register info agents) ≡ some a)
        × (a.host ≡ info.host))
      × (get_agent other (register info agents)
          ≡ (if text_eq info.id other then some info else get_agent other agents))
      × (is_online other (unregister info.id agents)
          ≡ (if text_eq info.id other then false else is_online other agents))
      × (get_agent other (update_heartbeat info.id now agents) ≡ (
          if text_eq info.id other
          then map_option (seen now) (get_agent other agents)
          else get_agent other agents))
unfolding register unregister get_agent is_online update_heartbeat
register-online info other now agents = (
  found-register info agents,
  get-insert info.id other info agents,
  ap is_some (get-remove info.id other agents) ∙ ground arith,
  get-modify info.id other (seen now) agents,
)
