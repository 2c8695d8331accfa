-- ===== src/Tests/Config.antt =====
-- server/src/config.rs at concrete settings.
use oxmux.Prelude.{ℕ, ◌≡◌, refl, ◌++◌, none, some}
use oxmux.Prelude.Text.{Text, codes}
use oxmux.Prelude.Int.{ℤ, pos, negsuc, as_u}
use oxmux.Prelude.Decimal.{show}
use oxmux.Result.{Result, ok}
use oxmux.Ice.{TurnCredentials, turn_username, turn_urls, turns_urls}
use oxmux.Config.{Settings, Config, load_coturn, listen_address}

-- every text is set to its name, and every integer to `z`; `f64` is a number of fifths
abbrev settings : ℤ → Settings ℕ
settings z = record {
  get_string = λ name. ok name;
  get_int = λ name. some z;
  get_float = λ name. none;
}

abbrev config : ℤ → Config ℕ
config z = record {
  server = record {
    host = codes "OXMUX_HOST";
    port = as_u 16 z;
    log_level = codes "OXMUX_LOG_LEVEL";
    jwt_secret = codes "OXMUX_JWT_SECRET";
  };
  quic = record {
    listen_port = as_u 16 z;
    cert_path = codes "QUIC_CERT_PATH";
    key_path = codes "QUIC_KEY_PATH";
  };
  coturn = load_coturn (settings z) (codes "COTURN_AUTH_SECRET");
  claude = record {
    default_flags = codes "CLAUDE_DEFAULT_FLAGS";
    cost_alert_usd = 5;
    context_warn_threshold = 4;
  };
  database = record { url = codes "DATABASE_URL" };
}

-- a port of 70000 is the port 4464
port_wraps : listen_address (config (pos 70000)) ≡ codes "OXMUX_HOST:4464"
unfolding listen_address as_u show
port_wraps = refl

abbrev mac : Text → Text → Result Text
mac secret name = ok (secret ++ name)

abbrev username : Text
username = turn_username 1000 (as_u 64 (negsuc 4)) (codes "u")

abbrev creds : TurnCredentials
creds = record {
  username = username;
  credential = codes "COTURN_AUTH_SECRET" ++ username;
  ttl = as_u 64 (negsuc 4);
  uris = turn_urls (config (negsuc 4)).coturn ++ turns_urls (config (negsuc 4)).coturn;
}
