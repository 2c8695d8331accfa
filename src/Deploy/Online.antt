-- ===== src/Deploy/Online.antt =====
-- server/src/ws/session_handler.rs: how an installation ends for the browser and for the registry.
use oxmux.Prelude.{
  ◌==◌, ==_iff, ℕ, zero, suc, ◌+◌, ◌<◌, ◌≤◌, ◌≡◌, refl, ap, true, false, List, [], ◌∷◌, Option,
  none, some, arith, Bool-cases, inl, inr,
}
use oxmux.Prelude.Text.{Text, codes, trim, text_eq_refl, text_eq_iff}
use oxmux.Session.Transports.Ssh.{ExecMsg}
use oxmux.Prelude.Maps.{Map}
use oxmux.Result.{Result, ok, err}
use oxmux.Session.Types.{SecretString}
use oxmux.Registry.{AgentInfo, AgentRegistry, register, find_by_host, get_agent}
use oxmux.Registry.Hosts.{register-online}
use oxmux.Ws.Protocol.{AgentStatusMsg}
use oxmux.Deploy.{Tools, Target, DeployResult, Deployed, exec_ssh_command}
use oxmux.Deploy.Outcome.{
  IsInstalled, DeployOutcome, refused, binary_left, key_left, deployed,
  deploy_via_ssh-DeployOutcome,
}
use oxmux.Deploy.Install.{
  Meets, deploy_after, connect_and_deploy, is_active, active_within, agent_info, installing,
  starting, with_first, after_checks, after_deploy, install_task,
}

-- the answer to `systemctl is-active` of a service that is active
abbrev pub SaysActive : Option (List ExecMsg) → Type 0
SaysActive answer = (out : Text) × (exec_ssh_command answer ≡ ok out) × (trim out ≡ codes "active")

says_active :
    (o : Meets) (r : Result Text)
    → is_active o r ≡ true
    → (out : Text) × (r ≡ ok out) × (trim out ≡ codes "active")
says_active o (ok out) h = (out, refl, (text_eq_iff (trim out) (codes "active")).0 h)
says_active o (err e) h = absurd (cc)

says_inactive :
    (o : Meets) (r : Result Text)
    → is_active o r ≡ false
    → (out : Text) × (r ≡ ok out) × (trim out ≡ codes "active")
    → ⊥
says_inactive o r h (out, e, a) =
    let on : is_active o r ≡ true = rw e ((text_eq_iff (trim out) (codes "active")).1 a) in
    absurd (cc)

module _ (o : Meets) where
  -- One of these attempts found the service active.
  abbrev pub WasActive : ℕ → ℕ → Type 0
  WasActive first count = (i : ℕ) × (first ≤ i) × (i < first + count) × SaysActive (o.check i)

  never_active :
      (n first : ℕ)
      → active_within o n first ≡ false
      → (i : ℕ) → first ≤ i
      → i < first + n
      → is_active o (exec_ssh_command (o.check i)) ≡ false
  unfolding active_within
  never_active zero first h i low high = absurd (omega arith)
  never_active (suc n) first h i low high =
      elim (Bool-cases (is_active o (exec_ssh_command (o.check first)))) [
        | inl now ↦ absurd (cc (rw now at h))
        | inr later ↦ elim (Bool-cases (i == first)) [
          | inl same ↦ rw ((==_iff i first).0 same) later
          | inr other ↦ never_active n (first + 1) (rw later at h) i (ground arith) (omega arith)
        ]
      ]

  was_active : (n first : ℕ) → active_within o n first ≡ true → WasActive first n
  unfolding active_within
  was_active zero first h = absurd (cc)
  was_active (suc n) first h = elim (Bool-cases (is_active o (exec_ssh_command (o.check first)))) [
    | inl now ↦ (first, omega arith, omega arith, says_active o _ now)
    | inr later ↦
        let (i, low, high, on) = was_active n (first + 1) (rw later at h) in
        (i, omega arith, omega arith, on)
  ]

-- what a deployment that succeeded has brought about
abbrev pub IsDeployed : Tools → Target → Deployed → Type 0
IsDeployed t d (err e, left) = Unit
IsDeployed t d (ok result, left) =
    IsInstalled t d
    × (result ≡ record { host = d.host; quic_port = d.quic_port; status = codes "starting" })

outcome-IsDeployed :
    (t : Tools) (d : Target) {r : Deployed} → DeployOutcome t d r → IsDeployed t d r
outcome-IsDeployed t d (refused e) = tt
outcome-IsDeployed t d (binary_left e) = tt
outcome-IsDeployed t d (key_left e h) = tt
outcome-IsDeployed t d (deployed h) = (h, refl)

module _ (o : Meets) (session_id : Text) (d : Target) (agents : AgentRegistry)
    (keys : Map (SecretString × Option SecretString)) where
  connect-IsDeployed : IsDeployed o.tools d (connect_and_deploy o keys d)
  unfolding connect_and_deploy
  connect-IsDeployed = after _
    where
      after : (r : Result (Unit {0})) → IsDeployed o.tools d (deploy_after o r d)
      after (err e) = tt
      after (ok u) = outcome-IsDeployed o.tools d (deploy_via_ssh-DeployOutcome o.tools d)

  abbrev result : DeployResult
  result = record { host = d.host; quic_port = d.quic_port; status = codes "starting" }

  -- what the browser is told: the status, with the agent's id, its version and its port where known
  abbrev pub told : Text → Option Text → Option Text → Option ℕ → AgentStatusMsg
  told status agent_id version quic_port = record {
    session_id = session_id;
    host = d.host;
    status = status;
    agent_id = agent_id;
    version = version;
    quic_port = quic_port;
  }

  abbrev pub told_installing : AgentStatusMsg
  told_installing = told (codes "installing") none none (some 4433)

  abbrev pub told_starting : AgentStatusMsg
  told_starting = told (codes "starting") none (some (codes "0.1.0")) (some d.quic_port)

  pub data InstallOutcome : List AgentStatusMsg × AgentRegistry → Type 0 where
    not_deployed :
        (e : Text)
        → (connect_and_deploy o keys d).0 ≡ err e
        → InstallOutcome (told_installing ∷ told (codes "error") none none none ∷ [], agents)
    not_active :
        ((i : ℕ) → 1 ≤ i → i < 6 → SaysActive (o.check i) → ⊥)
        → InstallOutcome (
          told_installing ∷ told_starting ∷ told (codes "error") none none (some d.quic_port) ∷ [],
          agents,
        )
    registered :
        (registry : AgentRegistry) (a : AgentInfo)
        → IsInstalled o.tools d
        → WasActive o 1 5
        → find_by_host d.host registry ≡ some a
        → a.host ≡ d.host
        → get_agent o.fresh_id registry ≡ some (agent_info o d result)
        → InstallOutcome (
          told_installing
              ∷ told_starting
              ∷ told (codes "online") (some o.fresh_id) (some (codes "0.1.0")) (some d.quic_port)
              ∷ [],
          registry,
        )

  checks-Outcome :
      IsInstalled o.tools d
      → InstallOutcome (
          with_first (installing session_id d) (
            with_first
              (starting session_id d result)
              (after_checks o session_id d agents result (active_within o 5 1))))
  checks-Outcome h = elim (Bool-cases (active_within o 5 1)) [
    | inr off ↦
        rw off (not_active λ i low high. says_inactive o _ (never_active o 5 1 off i low high))
    | inl on ↦
        let (found, known, gone, seen) =
          register-online (agent_info o d result) o.fresh_id 0 agents in
        rw on (
          registered (register (agent_info o d result) agents) found.0 h (was_active o 5 1 on)
            found.1 found.2 (rw text_eq_refl at known))
  ]

  deploy-Outcome :
      (r : Deployed)
      → IsDeployed o.tools d r
      → connect_and_deploy o keys d ≡ r
      → InstallOutcome
          (with_first (installing session_id d) (after_deploy o session_id d agents r.0))
  deploy-Outcome (err e, left) h eq = not_deployed e (ap (λ r. r.0) eq)
  deploy-Outcome (ok res, left) (h, same) eq = rw same (checks-Outcome h)

  -- How an installation ends, whatever the host and the tools answer. The browser is told `installing`
  -- first. Then `error` alone, if the deployment failed; or `starting` and `error`, if none of the five
  -- checks found the service active; in both cases the registry is as before. Or `starting` and `online`:
  -- then the host has acknowledged the binary and the service, one of the checks found the service active,
  -- and the registry has the agent under its new id and finds an agent for the host.
  pub install_task-InstallOutcome : InstallOutcome (install_task o session_id d agents keys)
  unfolding install_task
  install_task-InstallOutcome = deploy-Outcome (connect_and_deploy o keys d) connect-IsDeployed refl
