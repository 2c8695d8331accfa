-- ===== src/Tests/Deploy.antt =====
-- server/src/agent/deployer.rs and the installation of server/src/ws/session_handler.rs at one host.
use oxmux.Prelude.{
  ℕ, zero, suc, ◌≡◌, refl, true, false, List, [], ◌∷◌, Option, none, some, if◌then◌else◌,
}
use oxmux.Prelude.Text.{Text, codes, text_eq, trim}
use oxmux.Prelude.Decimal.{show}
use oxmux.Result.{err}
use oxmux.Session.Types.{private_key}
use oxmux.Session.Transports.Ssh.{Remote, ExecMsg, stdout_data, stderr_data, eof}
use oxmux.Deploy.{Tools, Target, DeployResult, install_cmd, deploy_via_ssh}
use oxmux.Deploy.Outcome.{DeployOutcome, deploy_via_ssh-DeployOutcome}
use oxmux.Deploy.Install.{Meets, install_task, installing, starting, online, agent_info}
use oxmux.Deploy.Online.{InstallOutcome, install_task-InstallOutcome}
use oxmux.Prelude.Maps.{insert}
use oxmux.Registry.{register}

-- the host answers the installation with its mark, and everything else with that of the service
abbrev answers : Text → Option (List ExecMsg)
answers cmd =
    if text_eq cmd install_cmd
    then some (stderr_data (codes "x") ∷ stdout_data (codes "INSTALL_OK") ∷ eof ∷ [])
    else some (stdout_data (codes "SERVICE_OK") ∷ [])

abbrev tools : Tools
tools = record {
  agent_binary_path = none;
  home = some (codes "/root");
  exists = λ path. true;
  read = λ path. some (1 ∷ []);
  read_to_string = λ path. some (codes "Proc-Type: 4,ENCRYPTED");
  pid = 7;
  write = λ path bytes. true;
  openssl = λ in_path out_path pass. some true;
  scp = λ args. some (true, []);
  exec = answers;
}

abbrev target : Target
target = record {
  host = codes "10.0.0.1";
  port = 22;
  user = codes "root";
  auth = private_key (codes "~/key") none;
  agent_secret = codes "k";
  coturn_secret = codes "c";
  coturn_servers = codes "a:1";
  quic_port = 4433;
}

-- a server that refuses the key, which is no error
abbrev remote : Remote
remote = record {
  connection = some 2;
  authenticate_none = λ user. none;
  authenticate_password = λ user password. none;
  authenticate_publickey = λ user key. some false;
  exec = λ cmd. none;
  control_channel = none;
  request_pty = true;
  exec_attach = true;
  home = none;
  read_to_string = λ path. some (codes "key");
  openssl = λ path pass. none;
  decode_secret_key = λ key_data pass. some key_data;
}

-- the service is active from the third attempt on
abbrev is_up : ℕ → Option (List ExecMsg)
is_up zero = none
is_up (suc zero) = none
is_up n = some (stdout_data (codes "active\n") ∷ [])

abbrev meets : Meets
meets = record {
  remote = remote;
  tools = tools;
  check = is_up;
  fingerprint = some (stdout_data (codes "AB") ∷ []);
  to_lowercase = λ s. s;
  fresh_id = codes "a9";
  now = 5;
}

deploy_via_ssh-DeployOutcome_example : DeployOutcome tools target (deploy_via_ssh tools target)
deploy_via_ssh-DeployOutcome_example = deploy_via_ssh-DeployOutcome tools target

install_task-InstallOutcome_example :
    InstallOutcome meets (codes "id1") target [] [] (install_task meets (codes "id1") target [] [])
install_task-InstallOutcome_example = install_task-InstallOutcome meets (codes "id1") target [] []

abbrev deployed : DeployResult
deployed = record { host = codes "10.0.0.1"; quic_port = 4433; status = codes "starting" }

-- The installation goes on although the server refused the key.
refused_goes_on : install_task meets (codes "id1") target [] [] ≡ (
  installing (codes "id1") target
      ∷ starting (codes "id1") target deployed
      ∷ online (codes "id1") target (codes "a9") deployed
      ∷ [],
  register (agent_info meets target deployed) [],
)
unfolding install_task text_eq deploy_via_ssh trim insert
refused_goes_on = refl

-- The decrypted key stays on the disk of the server when `scp` does not start.
key_stays : deploy_via_ssh (record tools { scp = λ args. none }) target ≡ (
  err (codes "scp command failed"),
  codes "/tmp/oxmux-agent-7" ∷ codes "/tmp/oxmux-scp-key-7" ∷ [],
)
unfolding deploy_via_ssh show
key_stays = refl
