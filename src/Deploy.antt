-- ===== src/Deploy.antt =====
-- server/src/agent/deployer.rs and server/src/agent/binary.rs: the installation of an agent on a host. The
-- programs that run on the server, the file system and the answers of the host are the parameter `Tools`.
pub mod Install
pub mod Online
pub mod Outcome
use oxmux.Prelude.{
  ℕ, Bool, true, false, ◌||◌, List, [], ◌∷◌, ◌++◌, Option, none, some, if◌then◌else◌, unwrap_or,
  is_empty,
}
use oxmux.Prelude.Text.{Text, codes, contains_text, trim}
use oxmux.Prelude.Decimal.{show}
use oxmux.Result.{Result, ok, err, ok_or, ◌>>=◌}
use oxmux.Session.Types.{SshAuthConfig, private_key}
use oxmux.Session.Transports.Ssh.{ExecMsg, expand_path}

-- what one deployment meets
pub record Tools : Type 0 where
  -- `AGENT_BINARY_PATH` and `HOME`
  pub agent_binary_path : Option Text
  pub home : Option Text
  pub exists : (path : Text) → Bool
  pub read : (path : Text) → Option (List ℕ)
  pub read_to_string : (path : Text) → Option Text
  pub pid : ℕ
  pub write : (path : Text) → List ℕ → Bool
  -- `none`: the program does not start; then whether it succeeds, and what it writes to stderr
  pub openssl : (in_path out_path pass : Text) → Option Bool
  pub scp : (args : List Text) → Option (Bool × Text)
  -- the messages that a command on the host gives, if it starts
  pub exec : (cmd : Text) → Option (List ExecMsg)

-- the arguments of `deploy_via_ssh`
pub record Target : Type 0 where
  pub host : Text
  pub port : ℕ
  pub user : Text
  pub auth : SshAuthConfig
  pub agent_secret : Text
  pub coturn_secret : Text
  pub coturn_servers : Text
  pub quic_port : ℕ

pub record DeployResult : Type 0 where
  pub host : Text
  pub quic_port : ℕ
  pub status : Text

unfoldable pub bundled_binary : (Text → Bool) → Result Text
bundled_binary exists =
    if exists (codes "/app/oxmux-agent")
    then ok (codes "/app/oxmux-agent")
    else if exists (codes "target/release/oxmux-agent")
    then ok (codes "target/release/oxmux-agent")
    else err (codes "oxmux-agent binary not found")

unfoldable pub find_agent_binary : Option Text → (Text → Bool) → Result Text
unfolding bundled_binary
find_agent_binary none exists = bundled_binary exists
find_agent_binary (some path) exists = if exists path then ok path else bundled_binary exists

-- the loop of `exec_ssh_command`
unfoldable pub gather : List ExecMsg → Text
gather [] = []
gather (ExecMsg.stdout_data s ∷ msgs) = s ++ gather msgs
gather (ExecMsg.eof ∷ msgs) = []
gather (ExecMsg.close ∷ msgs) = []
gather (ExecMsg.stderr_data s ∷ msgs) = gather msgs
gather (ExecMsg.exit_status n ∷ msgs) = gather msgs
gather (ExecMsg.other ∷ msgs) = gather msgs

unfoldable pub exec_ssh_command : Option (List ExecMsg) → Result Text
unfolding gather
exec_ssh_command ran = ok_or ran (codes "no channel") >>= λ msgs. ok (gather msgs)

unfoldable pub is_encrypted : Text → Bool
unfolding contains_text
is_encrypted key_content =
    contains_text (codes "DES-EDE3-CBC") key_content
    || contains_text (codes "DES-CBC") key_content
    || contains_text (codes "Proc-Type: 4,ENCRYPTED") key_content

abbrev pub binary_tmp : Tools → Text
binary_tmp t = codes "/tmp/oxmux-agent-" ++ show t.pid

abbrev pub key_tmp : Tools → Text
key_tmp t = codes "/tmp/oxmux-scp-key-" ++ show t.pid

abbrev converted : Tools → Option Bool → Result (Text × Option Text)
converted t none = err (codes "openssl does not start")
converted t (some false) = err (codes "failed to convert encrypted key for scp")
converted t (some true) = ok (key_tmp t, some (key_tmp t))

-- the path of the key for `scp`, empty for none, and that of the key that was made for it
unfoldable pub scp_key : Tools → SshAuthConfig → Result (Text × Option Text)
unfolding expand_path is_encrypted
scp_key t (private_key path passphrase) =
    let expanded = expand_path t.home path in
    if is_encrypted (unwrap_or (t.read_to_string expanded) [])
    then converted t (t.openssl expanded (key_tmp t) (unwrap_or passphrase []))
    else ok (expanded, none)
scp_key t _ = ok ([], none)

unfoldable pub scp_args : Tools → Target → Text → List Text
scp_args t d key_path =
    codes "-o"
    ∷ codes "StrictHostKeyChecking=no"
    ∷ codes "-o"
    ∷ codes "UserKnownHostsFile=/dev/null"
    ∷ codes "-P"
    ∷ show d.port
    ∷ ((if is_empty key_path then [] else codes "-i" ∷ key_path ∷ [])
        ++ (binary_tmp t ∷ (d.user ++ (b'@' ∷ (d.host ++ codes ":/tmp/oxmux-agent-upload"))) ∷ []))

abbrev pub install_cmd : Text
install_cmd =
    codes "sudo mv /tmp/oxmux-agent-upload /usr/local/bin/oxmux-agent && "
    ++ (codes "sudo chmod +x /usr/local/bin/oxmux-agent && echo INSTALL_OK || "
        ++ (codes "(mv /tmp/oxmux-agent-upload ~/oxmux-agent && "
            ++ codes "chmod +x ~/oxmux-agent && echo INSTALL_OK_HOME)"))

-- where the binary is, by the output of the installation
unfoldable pub agent_bin : Text → Text → Result Text
unfolding contains_text
agent_bin user output =
    if contains_text (codes "INSTALL_OK_HOME") output
    then ok (codes "/home/" ++ (user ++ codes "/oxmux-agent"))
    else if contains_text (codes "INSTALL_OK") output
    then ok (codes "/usr/local/bin/oxmux-agent")
    else err (codes "install failed: " ++ trim output)

abbrev concat : List Text → Text
concat [] = []
concat (s ∷ ss) = s ++ concat ss

unfoldable pub service_cmd : Target → Text → Text
service_cmd d bin = concat (
    codes "sudo bash -c 'cat > /etc/systemd/system/oxmux-agent.service << SVCEOF\n"
    ∷ codes "[Unit]\nDescription=Oxmux Agent\nAfter=network.target\n\n"
    ∷ codes "[Service]\nType=simple\nUser="
    ∷ d.user
    ∷ codes "\nEnvironment=AGENT_QUIC_PORT="
    ∷ show d.quic_port
    ∷ codes "\nEnvironment=OXMUX_AGENT_SECRET="
    ∷ d.agent_secret
    ∷ codes "\nEnvironment=COTURN_AUTH_SECRET="
    ∷ d.coturn_secret
    ∷ codes "\nEnvironment=COTURN_SERVERS="
    ∷ d.coturn_servers
    ∷ codes "\nEnvironment=PUBLIC_IP="
    ∷ d.host
    ∷ codes "\nEnvironment=RUST_LOG=oxmux_agent=info\nExecStart="
    ∷ bin
    ∷ codes "\nRestart=always\nRestartSec=5\n\n[Install]\nWantedBy=multi-user.target\nSVCEOF\n"
    ∷ codes "systemctl daemon-reload && systemctl enable --now oxmux-agent' && echo SERVICE_OK"
    ∷ [])

unfoldable pub started : Target → Text → Result DeployResult
unfolding contains_text
started d result =
    if contains_text (codes "SERVICE_OK") result
    then ok (record { host = d.host; quic_port = d.quic_port; status = codes "starting" })
    else err (codes "service creation failed: " ++ trim result)

-- the two commands on the host, once the binary is there
unfoldable pub install_and_start : Tools → Target → Result DeployResult
unfolding exec_ssh_command agent_bin started service_cmd
install_and_start t d = exec_ssh_command (t.exec install_cmd) >>= λ output.
    agent_bin d.user output >>= λ bin.
    exec_ssh_command (t.exec (service_cmd d bin)) >>= λ result. started d result

-- what came of it, and the temporary files of the server that are left: a file is there once it has been
-- written, and removing one does not fail
abbrev pub Deployed : Type 0
Deployed = Result DeployResult × List Text

abbrev key_file : Option Text → List Text
key_file none = []
key_file (some path) = path ∷ []

abbrev pub uploaded : Tools → Target → Option Text → Option (Bool × Text) → Deployed
uploaded t d tmp_key none = (err (codes "scp command failed"), binary_tmp t ∷ key_file tmp_key)
uploaded t d tmp_key (some (false, stderr)) = (err (codes "scp failed: " ++ trim stderr), [])
uploaded t d tmp_key (some (true, stderr)) = (install_and_start t d, [])

abbrev pub with_scp_key : Tools → Target → Result (Text × Option Text) → Deployed
with_scp_key t d (err e) = (err e, binary_tmp t ∷ [])
with_scp_key t d (ok (key_path, tmp_key)) = uploaded t d tmp_key (t.scp (scp_args t d key_path))

abbrev pub with_binary : Tools → Target → Option (List ℕ) → Deployed
with_binary t d none = (err (codes "failed to read agent binary"), [])
with_binary t d (some bytes) =
    if t.write (binary_tmp t) bytes
    then with_scp_key t d (scp_key t d.auth)
    else (err (codes "failed to write temp agent binary"), [])

abbrev pub with_path : Tools → Target → Result Text → Deployed
with_path t d (err e) = (err e, [])
with_path t d (ok path) = with_binary t d (t.read path)

unfoldable pub deploy_via_ssh : Tools → Target → Deployed
unfolding find_agent_binary scp_key scp_args install_and_start
deploy_via_ssh t d = with_path t d (find_agent_binary t.agent_binary_path t.exists)
