-- ===== src/Tests/Transport.antt =====
-- server/src/session/local.rs and quic_transport.rs at a host with one pane.
use oxmux.Prelude.{false, ℕ, suc, ◌≡◌, refl, true, List, [], ◌∷◌, Option, none, some}
use oxmux.Prelude.Text.{text_eq, Text, codes}
use oxmux.Result.{ok}
use oxmux.Session.Transports.{connected}
use oxmux.Session.Transports.Local
use oxmux.Session.Transports.Local.{Ran}
use oxmux.Session.Transports.Quic
use oxmux.Session.Transports.Quic.{Codec, Command, QuicTransport}
use oxmux.Session.Transports.Outcome.{LocalOutcome, QuicOutcome, connect_outcomes}
use oxmux.Session.Types.{password}
use oxmux.Session.Transports.Ssh
use oxmux.Session.Transports.Ssh.{SshTransport, Remote, stdout_data, eof, exit_status}
use oxmux.Session.Transports.Secured.{SshOutcome}
use oxmux.Tests.Session.{listing}

abbrev row : Text
row = codes "$1\tmain\t@1\tsh\t0\tL\t%1\t0\t80\t24\tbash\t1\n"

-- Every program succeeds and prints the row; the world counts them.
abbrev run : List Text → ℕ → Ran × ℕ
run args w = (some (true, row), suc w)

abbrev command_bytes : Command → Option (List ℕ)
command_bytes (Command.ensure_session name) = some (1 ∷ [])
command_bytes (Command.list_sessions name) = some (2 ∷ [])
command_bytes _ = none

-- every response is the listing
abbrev json : Codec ℕ
json = record {
  to_vec = command_bytes;
  from_slice = λ bytes. some 0;
  sessions = λ v. some listing;
  output = λ v. [];
  base64 = λ bytes. bytes;
}

-- two responses of one byte
abbrev responses : List ℕ
responses = 0 ∷ 0 ∷ 0 ∷ 1 ∷ 7 ∷ 0 ∷ 0 ∷ 0 ∷ 1 ∷ 7 ∷ []

abbrev quic : QuicTransport
quic = Quic.new (codes "10.0.0.1") 4433 (codes "main")

-- a server that takes the password, and opens no control channel
abbrev remote : Remote
remote = record {
  connection = some 2;
  authenticate_none = λ user. none;
  authenticate_password = λ user password. some (text_eq password (codes "secret"));
  authenticate_publickey = λ user key. none;
  exec = λ cmd. some (stdout_data (codes "x") ∷ eof ∷ exit_status 0 ∷ []);
  control_channel = none;
  request_pty = true;
  exec_attach = true;
  home = none;
  read_to_string = λ path. none;
  openssl = λ path pass. none;
  decode_secret_key = λ key_data pass. none;
}

abbrev over_ssh : SshTransport
over_ssh = record {
  host = codes "host";
  port = 22;
  user = codes "root";
  auth = password (codes "secret");
  session_name = codes "main";
  status = connected;
  ssh_handle = some 1;
  control_channel_id = some 1;
  reader_task = some 1;
  tmux_state = [];
}

-- The same server with a control channel whose PTY is refused: the old connection is still there, and
-- the commands would go to the new channel's number.
mixed_up :
    ((Ssh.connect
        (record remote { control_channel = some 7; request_pty = false })
        []
        over_ssh).1.ssh_handle
      ≡ some 1)
    × ((Ssh.connect
          (record remote { control_channel = some 7; request_pty = false })
          []
          over_ssh).1.control_channel_id
        ≡ some 7)
unfolding Ssh.connect text_eq
mixed_up = (refl, refl)

connect_outcomes_example :
    LocalOutcome
      (codes "%1")
      (Local.new (codes "main"))
      (Local.connect run (Local.new (codes "main")) 0)
    × QuicOutcome (codes "%1") quic (Quic.connect json (ok responses) quic)
    × SshOutcome remote [] over_ssh (Ssh.connect remote [] over_ssh)
connect_outcomes_example =
    connect_outcomes run 0 (Local.new (codes "main")) json (ok responses) quic (codes "%1") remote
      [] over_ssh

-- Both connections succeed.
both_succeed :
    ((Local.connect run (Local.new (codes "main")) 0).0 ≡ ok tt)
    × ((Quic.connect json (ok responses) quic).0 ≡ ok tt)
    × ((Quic.connect json (ok responses) quic).1.control_send
        ≡ some (0 ∷ 0 ∷ 0 ∷ 1 ∷ 1 ∷ 0 ∷ 0 ∷ 0 ∷ 1 ∷ 2 ∷ []))
unfolding Local.connect Quic.connect Quic.new Local.new
both_succeed = (refl, refl, refl)
