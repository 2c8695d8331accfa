-- ===== src/Tests/Server.antt =====
-- server/src/webrtc, claude, agent and ws at concrete inputs.
use oxmux.Prelude.{
  ◌≡◌, refl, ℕ, ◌+◌, Bool, true, false, ◌&&◌, ◌==◌, ◌<◌, List, [], ◌∷◌, ◌++◌, Option, none, some,
  arith, if◌then◌else◌,
}
use oxmux.Prelude.Text.{
  Text, codes, text_eq, text_eq_iff, trim, trim_start, trim_end, split, split_once,
}
use oxmux.Prelude.Maps.{get, values}
use oxmux.Result.{Result, ok, err}
use oxmux.Ice.{CoturnConfig}
use oxmux.Jwt.{Claims, JwtLibrary, agent_claims, create_agent_token}
use oxmux.Claude.{Amounts, JsonValue, ClaudeEvent, assistant, result, tool_use, ClaudeStreamParser}
use oxmux.Registry.{AgentInfo, find_by_host}
use oxmux.Session.Types.{ManagedSession, TransportConfig, websocket, password, ssh}
use oxmux.Session.Manager.{entry_of, new_session, get_session}
use oxmux.Session.Manager.Connect.{failed}
use oxmux.Db.Repo.{Json}
use oxmux.Ws.Protocol.{ServerMsg, ClientMsg, UpgradeReady}
use oxmux.Ws.Handler.{handle_client_msg, upgrade_reply, upgrade_host, upgrade_agent, ready_reply}
use oxmux.Ws.State.{Outside, AppState, ConnectionState, p2p_host, agent_host, mapped_host, replace}
use oxmux.Ws.Handler.Replies.{ReplyLacks, IsSecretFree, reply-ReplyLacks}
use oxmux.Ws.Handler.Upgrade.{IsUpgrade, handle_client_msg-IsUpgrade}

abbrev pub coturn : CoturnConfig
coturn = record {
  auth_secret = codes "k";
  realm = codes "r";
  ttl = 60;
  servers = codes "a:1, b:2";
  tls_servers = codes "c:3";
}

abbrev mac : Text → Text → Result Text
mac secret name = ok (secret ++ name)

abbrev cents : Amounts ℕ
cents = record { zero_usd = 0; add_usd = λ a b. a + b }

-- values that are texts
abbrev texts : JsonValue Text
texts = record { get_value = λ v key. some v; as_str = λ v. some v }

-- a line is a message with an edit, or a result
abbrev read_line : Text → Option (ClaudeEvent Text ℕ)
read_line line =
    if text_eq line (codes "edit")
    then some (
        assistant (record {
          id = none;
          model = none;
          content = tool_use (codes "t1") (codes "Edit") (codes "main.rs") ∷ [];
          usage = none;
        }))
    else if text_eq line (codes "done")
    then some (result (codes "success") (some 42) 5000 3 none false none)
    else none

abbrev parser : ClaudeStreamParser Text ℕ
parser = record {
  tx = [];
  accumulator = record {
    session_id = codes "s";
    total_cost_usd = 0;
    turn_count = 0;
    file_changes = [];
    last_usage = none;
    is_complete = false;
    is_error = false;
    duration = none;
  };
}

abbrev lines : List Text
lines = codes "edit" ∷ codes " " ∷ codes "???" ∷ codes "done" ∷ []

abbrev pub agent : AgentInfo
agent = record {
  id = codes "a1";
  hostname = codes "host";
  host = codes "host";
  quic_port = 4433;
  version = codes "0.1.0";
  last_seen = 1;
  cert_hash = none;
}

-- a library that signs one set of claims
abbrev is_known : Claims → Bool
is_known c = text_eq c.sub (codes "a1") && (text_eq c.username (codes "agent") && c.exp == 1300)

abbrev sign : Claims → Text → Result Text
sign c secret = if is_known c then ok (codes "token") else err []

pub read_back :
    (c : Claims) (secret token : Text) (now : ℕ)
    → sign c secret ≡ ok token
    → now < c.exp
    → ok (agent_claims 1000 (codes "a1")) ≡ ok c
read_back c secret token now e h =
    ground (arith, text_eq_iff c.sub (codes "a1"), text_eq_iff c.username (codes "agent"))

abbrev pub jwt : JwtLibrary
jwt = record {
  encode = sign;
  decode = λ now token secret. ok (agent_claims 1000 (codes "a1"));
  decode-encode = read_back;
}

pub unwritten : (c : TransportConfig) (t : Text) → none ≡ some t → none ≡ some c
unwritten c t e = cc

abbrev pub json : Json
json = record {
  to_string = λ c. none;
  from_str = λ t. none;
  backend_from_str = λ t. none;
  from-to = unwritten;
  order = λ rows. rows;
  any-order = λ p rows. refl;
}

abbrev pub outside : Outside
outside = record {
  json = json;
  jwt = jwt;
  mac = mac;
  now = 1000;
  fresh_id = codes "id2";
  up1 = true;
  up2 = true;
  send_input = λ t pane bytes. ok tt;
  resize = λ t pane cols rows. ok tt;
  connected = failed (codes "refused");
  disconnected = ok tt;
  listing = ok [];
  turns_domain = none;
  agent_dns_map = some (codes "host=agent.example.com");
  agent_dns_domain = none;
}

abbrev pub dev : ManagedSession
dev = new_session (codes "id1") (record {
  name = codes "main";
  transport = record {
    browser = websocket;
    backend = ssh (codes "host") 22 (codes "root") (password (codes "secret"));
  };
})

abbrev pub app : AppState
app = record {
  coturn = coturn;
  jwt_secret = codes "k";
  pane_outputs = [];
  session_manager = record {
    sessions = (codes "id1", entry_of dev) ∷ [];
    pane_to_session = [];
    db = [];
    ephemeral_keys = [];
  };
  agent_registry = (codes "a1", agent) ∷ [];
}

abbrev pub conn : ConnectionState
conn = record { user_id = codes "u1"; pane_subs = [] }

abbrev pub ready : UpgradeReady
ready = record {
  session_id = codes "id1";
  agent_host = codes "agent.example.com";
  agent_port = 4433;
  agent_token = codes "token";
  target = some (codes "quic_p2p");
  cert_hash = none;
}

reply-ReplyLacks_example :
    ReplyLacks
      (handle_client_msg {Payload = Text} {Usd = ℕ} outside
        (ClientMsg.install_agent (codes "id1"))
        app
        conn).0
    × IsSecretFree Text ℕ outside (ClientMsg.install_agent (codes "id1")) app conn
reply-ReplyLacks_example =
    reply-ReplyLacks Text ℕ outside (ClientMsg.install_agent (codes "id1")) app conn

pub upgrade_replied :
    (handle_client_msg {Payload = Text} {Usd = ℕ} outside
      (ClientMsg.transport_upgrade (codes "id1") (codes "quic_p2p"))
      app
      conn).0
    ≡ some (ServerMsg.transport_upgrade_ready ready)
unfolding handle_client_msg upgrade_reply upgrade_host upgrade_agent p2p_host ready_reply agent_host
    mapped_host replace get_session get text_eq find_by_host create_agent_token split split_once
    trim trim_start trim_end values
upgrade_replied = refl

handle_client_msg-IsUpgrade_example : IsUpgrade outside app (codes "id1") (codes "quic_p2p") ready
handle_client_msg-IsUpgrade_example =
    handle_client_msg-IsUpgrade Text ℕ outside app conn (codes "id1") (codes "quic_p2p") ready
      upgrade_replied
