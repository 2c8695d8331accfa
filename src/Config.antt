-- ===== src/Config.antt =====
-- server/src/config.rs: the settings of the server, from the environment. The library `config` is the
-- parameter `Settings`, what it reads under a name; `f64` is a parameter with the numbers that the
-- source writes.
pub mod Turn
use oxmux.Prelude.{ℕ, ◌++◌, Option, unwrap_or}
use oxmux.Prelude.Text.{Text, codes}
use oxmux.Prelude.Decimal.{show}
use oxmux.Prelude.Int.{ℤ, pos, as_u}
use oxmux.Result.{Result, ok, err, ◌>>=◌}
use oxmux.Session.Types.{SecretString}
use oxmux.Ice.{CoturnConfig}

-- what the environment, with the file `.env`, holds under a name. `get_string` keeps its error, which `?` passes on; those of the others are not looked at
pub record Settings (F64 : Type 0) : Type 0 where
  pub get_string : Text → Result Text
  pub get_int : Text → Option ℤ
  pub get_float : Text → Option F64

pub record ServerConfig : Type 0 where
  pub host : Text
  pub port : ℕ
  pub log_level : Text
  pub jwt_secret : SecretString

pub record QuicConfig : Type 0 where
  pub listen_port : ℕ
  pub cert_path : Text
  pub key_path : Text

pub record ClaudeConfig (F64 : Type 0) : Type 0 where
  pub default_flags : Text
  pub cost_alert_usd : F64
  pub context_warn_threshold : F64

pub record DatabaseConfig : Type 0 where
  pub url : SecretString

pub record Config (F64 : Type 0) : Type 0 where
  pub server : ServerConfig
  pub quic : QuicConfig
  pub coturn : CoturnConfig
  pub claude : ClaudeConfig F64
  pub database : DatabaseConfig

abbrev string_or : {F64 : Type 0} → Settings F64 → Text → Text → Text
string_or cfg name default = text_or (cfg.get_string name)
  where
    text_or : Result Text → Text
    text_or (ok t) = t
    text_or (err e) = default

-- `get_int(name).unwrap_or(default) as u<w>`
abbrev int_or : {F64 : Type 0} → ℕ → Settings F64 → Text → ℕ → ℕ
int_or w cfg name default = as_u w (unwrap_or (cfg.get_int name) (pos default))

abbrev pub load_coturn : {F64 : Type 0} → Settings F64 → SecretString → CoturnConfig
load_coturn cfg auth_secret = record {
  auth_secret = auth_secret;
  realm = string_or cfg (codes "COTURN_REALM") (codes "localhost");
  ttl = int_or 64 cfg (codes "COTURN_TTL") 86400;
  servers =
      string_or cfg (codes "COTURN_SERVERS")
        (codes "198.51.100.10:3478,198.51.100.20:3478,198.51.100.30:3478");
  tls_servers =
      string_or cfg (codes "COTURN_TLS_SERVERS")
        (codes "198.51.100.10:5349,198.51.100.20:5349,198.51.100.30:5349");
}

unfoldable pub load :
    {F64 : Type 0} (one four_fifths : F64) → Result (Settings F64) → Result (Config F64)
load one four_fifths built = built >>= λ cfg.
    cfg.get_string (codes "OXMUX_JWT_SECRET") >>= λ jwt_secret.
    cfg.get_string (codes "COTURN_AUTH_SECRET") >>= λ auth_secret. ok (record {
      server = record {
        host = string_or cfg (codes "OXMUX_HOST") (codes "0.0.0.0");
        port = int_or 16 cfg (codes "OXMUX_PORT") 8080;
        log_level = string_or cfg (codes "OXMUX_LOG_LEVEL") (codes "info");
        jwt_secret = jwt_secret;
      };
      quic = record {
        listen_port = int_or 16 cfg (codes "QUIC_LISTEN_PORT") 4433;
        cert_path = string_or cfg (codes "QUIC_CERT_PATH") (codes "/etc/oxmux/tls/fullchain.pem");
        key_path = string_or cfg (codes "QUIC_KEY_PATH") (codes "/etc/oxmux/tls/key.pem");
      };
      coturn = load_coturn cfg auth_secret;
      claude = record {
        default_flags =
            string_or cfg (codes "CLAUDE_DEFAULT_FLAGS") (codes "--output-format stream-json");
        cost_alert_usd = unwrap_or (cfg.get_float (codes "CLAUDE_COST_ALERT_USD")) one;
        context_warn_threshold =
            unwrap_or (cfg.get_float (codes "CLAUDE_CONTEXT_WARN_THRESHOLD")) four_fifths;
      };
      database = record { url = string_or cfg (codes "DATABASE_URL") (codes "sqlite:./oxmux.db") };
    })

-- the address that `main` binds
unfoldable pub listen_address : {F64 : Type 0} → Config F64 → Text
listen_address config = config.server.host ++ (codes ":" ++ show config.server.port)
