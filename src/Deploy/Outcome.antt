-- ===== src/Deploy/Outcome.antt =====
-- server/src/agent/deployer.rs: how `deploy_via_ssh` ends, and what it leaves on the server's disk.
use oxmux.Prelude.{
  ℕ, ◌≡◌, ◌⊎◌, ◌++◌, sym, refl, Bool, true, false, List, [], ◌∷◌, Option, none, some, Bool-cases,
  inl, inr, unwrap_or,
}
use oxmux.Prelude.Text.{Text, codes, contains_text}
use oxmux.Result.{Result, ok, err, Result-cases, ok-injective, err-ok}
use oxmux.Session.Types.{SshAuthConfig, password, private_key, uploaded_key}
use oxmux.Session.Types
use oxmux.Session.Transports.Ssh.{expand_path}
use oxmux.Deploy.{
  Tools, Target, Deployed, exec_ssh_command, is_encrypted, binary_tmp, key_tmp, converted, scp_key,
  scp_args, install_cmd, agent_bin, service_cmd, started, install_and_start, uploaded, with_scp_key,
  with_binary, with_path, deploy_via_ssh,
}

module _ (t : Tools) (d : Target) where
  -- where the binary is when the installation has printed one of its two marks
  abbrev pub IsPlace : Text → Text → Text → Type 0
  IsPlace user output bin =
      ((contains_text (codes "INSTALL_OK_HOME") output ≡ true)
        × (bin ≡ codes "/home/" ++ (user ++ codes "/oxmux-agent")))
      ⊎ ((contains_text (codes "INSTALL_OK_HOME") output ≡ false)
          × (contains_text (codes "INSTALL_OK") output ≡ true)
          × (bin ≡ codes "/usr/local/bin/oxmux-agent"))

  agent_bin-IsPlace :
      (user output bin : Text) → agent_bin user output ≡ ok bin → IsPlace user output bin
  unfolding agent_bin
  agent_bin-IsPlace user output bin h =
      elim (Bool-cases (contains_text (codes "INSTALL_OK_HOME") output)) [
        | inl at_home ↦ inl (at_home, sym (ok-injective (rw (at_home, agent_bin) at h)))
        | inr no_home ↦ elim (Bool-cases (contains_text (codes "INSTALL_OK") output)) [
          | inl marked ↦
              inr (no_home, marked, sym (ok-injective (rw (no_home, marked, agent_bin) at h)))
          | inr unmarked ↦ absurd (err-ok refl (rw (no_home, unmarked, agent_bin) at h))
        ]
      ]

  -- The host has taken the binary and the service, and said so.
  pub record IsInstalled : Type 0 where
    pub output : Text
    pub bin : Text
    pub moved : exec_ssh_command (t.exec install_cmd) ≡ ok output
    pub place : IsPlace d.user output bin
    pub result : Text
    pub enabled : exec_ssh_command (t.exec (service_cmd d bin)) ≡ ok result
    pub said : contains_text (codes "SERVICE_OK") result ≡ true

  -- An encrypted key has been converted, and `scp` did not start.
  pub record IsKeyLeft : Type 0 where
    pub path : Text
    pub passphrase : Option Text
    pub configured : d.auth ≡ private_key path passphrase
    pub encrypted : is_encrypted (unwrap_or (t.read_to_string (expand_path t.home path)) []) ≡ true
    pub was_converted :
        t.openssl (expand_path t.home path) (key_tmp t) (unwrap_or passphrase []) ≡ some true
    pub not_started : t.scp (scp_args t d (key_tmp t)) ≡ none

  pub data DeployOutcome : Deployed → Type 0 where
    refused : (e : Text) → DeployOutcome (err e, [])
    binary_left : (e : Text) → DeployOutcome (err e, binary_tmp t ∷ [])
    key_left : (e : Text) → IsKeyLeft → DeployOutcome (err e, binary_tmp t ∷ key_tmp t ∷ [])
    deployed :
        IsInstalled
        → DeployOutcome
            (ok (record { host = d.host; quic_port = d.quic_port; status = codes "starting" }), [])

  started-Outcome :
      (output bin result : Text)
      → exec_ssh_command (t.exec install_cmd) ≡ ok output
      → agent_bin d.user output ≡ ok bin
      → exec_ssh_command (t.exec (service_cmd d bin)) ≡ ok result
      → DeployOutcome (started d result, [])
  unfolding started
  started-Outcome output bin result h1 h2 h3 =
      elim (Bool-cases (contains_text (codes "SERVICE_OK") result)) [
        | inr no_mark ↦ rw no_mark (refused _)
        | inl mark ↦ rw mark (
            deployed (record {
              output = output;
              bin = bin;
              moved = h1;
              place = agent_bin-IsPlace d.user output bin h2;
              result = result;
              enabled = h3;
              said = mark;
            }))
      ]

  install-Outcome : DeployOutcome (install_and_start t d, [])
  unfolding install_and_start
  install-Outcome = elim (Result-cases (exec_ssh_command (t.exec install_cmd))) [
    | inr (e, h1) ↦ rw h1 (refused e)
    | inl (output, h1) ↦ rw h1 (elim (Result-cases (agent_bin d.user output)) [
      | inr (e, h2) ↦ rw h2 (refused e)
      | inl (bin, h2) ↦ rw h2 (elim (Result-cases (exec_ssh_command (t.exec (service_cmd d bin)))) [
        | inr (e, h3) ↦ rw h3 (refused e)
        | inl (result, h3) ↦ rw h3 (started-Outcome output bin result h1 h2 h3)
      ])
    ])
  ]

  sent-Outcome : (r : Option (Bool × Text)) → DeployOutcome (uploaded t d none r)
  sent-Outcome none = binary_left _
  sent-Outcome (some (false, stderr)) = refused _
  sent-Outcome (some (true, stderr)) = install-Outcome

  key-Outcome :
      (r : Option (Bool × Text))
      → (r ≡ none → IsKeyLeft)
      → DeployOutcome (uploaded t d (some (key_tmp t)) r)
  key-Outcome none left = key_left _ (left refl)
  key-Outcome (some (false, stderr)) left = refused _
  key-Outcome (some (true, stderr)) left = install-Outcome

  converted-Outcome :
      (path : Text) (passphrase : Option Text) (r : Option Bool)
      → d.auth ≡ private_key path passphrase
      → is_encrypted (unwrap_or (t.read_to_string (expand_path t.home path)) []) ≡ true
      → t.openssl (expand_path t.home path) (key_tmp t) (unwrap_or passphrase []) ≡ r
      → DeployOutcome (with_scp_key t d (converted t r))
  converted-Outcome path passphrase none ha he hr = binary_left _
  converted-Outcome path passphrase (some false) ha he hr = binary_left _
  converted-Outcome path passphrase (some true) ha he hr = key-Outcome _ λ hs. record {
    path = path;
    passphrase = passphrase;
    configured = ha;
    encrypted = he;
    was_converted = hr;
    not_started = hs;
  }

  auth-Outcome :
      (auth : SshAuthConfig) → d.auth ≡ auth → DeployOutcome (with_scp_key t d (scp_key t auth))
  unfolding scp_key
  auth-Outcome Types.agent ha = sent-Outcome _
  auth-Outcome (password p) ha = sent-Outcome _
  auth-Outcome (uploaded_key key_id p) ha = sent-Outcome _
  auth-Outcome (private_key path passphrase) ha =
      elim (Bool-cases (is_encrypted (unwrap_or (t.read_to_string (expand_path t.home path)) []))) [
        | inl he ↦ rw he (converted-Outcome path passphrase _ ha he refl)
        | inr plain ↦ rw plain (sent-Outcome _)
      ]

  binary-Outcome : (r : Option (List ℕ)) → DeployOutcome (with_binary t d r)
  binary-Outcome none = refused _
  binary-Outcome (some bytes) = elim (Bool-cases (t.write (binary_tmp t) bytes)) [
    | inl written ↦ rw written (auth-Outcome d.auth refl)
    | inr full ↦ rw full (refused _)
  ]

  path-Outcome : (r : Result Text) → DeployOutcome (with_path t d r)
  path-Outcome (err e) = refused e
  path-Outcome (ok path) = binary-Outcome _

  -- How a deployment ends, whatever the tools and the host answer. It fails, and leaves no temporary file,
  -- or that of the binary, or with an encrypted key, when `scp` does not start, that of the decrypted key
  -- too; or it succeeds, and then leaves no file, and the host has printed the mark of the installation,
  -- and for the service with the binary in that place the mark of the service.
  pub deploy_via_ssh-DeployOutcome : DeployOutcome (deploy_via_ssh t d)
  unfolding deploy_via_ssh
  deploy_via_ssh-DeployOutcome = path-Outcome _
