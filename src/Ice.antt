-- ===== src/Ice.antt =====
-- server/src/webrtc/turn.rs, and `CoturnConfig` of server/src/config.rs. HMAC-SHA1 with base64, the
-- time and the environment's `COTURN_TURNS_DOMAIN` are arguments.
pub mod Servers
use oxmux.Prelude.{ℕ, ◌+◌, ◌%◌, ◌^◌, List, [], ◌∷◌, ◌++◌, Option, none, some, map, keep}
use oxmux.Prelude.Text.{Text, codes, split, trim, starts_with}
use oxmux.Prelude.Decimal.{show}
use oxmux.Result.{Result, ok, err}
use oxmux.Session.Types.{SecretString}

pub record CoturnConfig : Type 0 where
  pub auth_secret : SecretString
  pub realm : Text
  pub ttl : ℕ
  pub servers : Text
  pub tls_servers : Text

abbrev pub turn_url : Text → Text
turn_url s = codes "turn:" ++ trim s

abbrev pub turns_url : Text → Text
turns_url s = codes "turns:" ++ trim s

unfoldable pub turn_urls : CoturnConfig → List Text
turn_urls config = map turn_url (split b',' config.servers)

unfoldable pub turns_urls : CoturnConfig → List Text
turns_urls config = map turns_url (split b',' config.tls_servers)

pub record TurnCredentials : Type 0 where
  pub username : Text
  pub credential : Text
  pub ttl : ℕ
  pub uris : List Text

-- `<expiry>:<user_id>`; the sum is of `u64`
abbrev pub turn_username : ℕ → ℕ → Text → Text
turn_username now ttl user_id = show ((now + ttl) % 2 ^ 64) ++ b':' ∷ user_id

-- `mac` is base64 of the HMAC of a text under a secret.
unfoldable pub generate_turn_credentials :
    (Text → Text → Result Text) → ℕ → CoturnConfig → Text → Result TurnCredentials
unfolding turn_urls turns_urls
generate_turn_credentials mac now config user_id =
    let username = turn_username now config.ttl user_id in
    elim (mac config.auth_secret username) [
      | err e ↦ err e
      | ok credential ↦ ok (record {
        username = username;
        credential = credential;
        ttl = config.ttl;
        uris = turn_urls config ++ turns_urls config;
      })
    ]

pub record IceServer : Type 0 where
  pub urls : List Text
  pub username : Option Text
  pub credential : Option Text

pub record IceConfig : Type 0 where
  pub ice_servers : List IceServer

abbrev pub domain_urls : Option Text → List Text
domain_urls none = []
domain_urls (some domain) = (codes "turns:" ++ (domain ++ codes ":443?transport=tcp")) ∷ []

abbrev pub stun_server : IceServer
stun_server = record {
  urls = codes "stun:stun.l.google.com:19302" ∷ [];
  username = none;
  credential = none;
}

unfoldable pub build_ice_config : Option Text → TurnCredentials → IceConfig
build_ice_config turns_domain c = record {
  ice_servers =
      stun_server
      ∷ record {
        urls = keep (starts_with (codes "turn:")) c.uris ++ domain_urls turns_domain;
        username = some c.username;
        credential = some c.credential;
      }
      ∷ [];
}
