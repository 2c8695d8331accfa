-- ===== src/Ice/Servers.antt =====
-- server/src/webrtc/turn.rs: what the browser gets.
use mathlib.Core.Path.{subst}
use oxmux.Prelude.{
  ℕ, ◌+◌, ◌%◌, ◌^◌, ◌≡◌, refl, sym, ap, ◌∙◌, List, [], ◌∷◌, ◌++◌, Option, none, some, map, keep,
  arith, append-nil, inl, inr,
}
use oxmux.Prelude.Text.{
  Text, codes, split, trim, splitn, splitn-append, starts_with, strip_prefix, parse_uint,
}
use oxmux.Prelude.Decimal.{show, show-IsNumeral, IsNumeral-Lacks, parse_uint-show}
use oxmux.Result.{Result, ok, err, Result-cases, ok-injective, err-ok}
use oxmux.Ice.{
  CoturnConfig, turn_url, turns_url, turn_urls, turns_urls, TurnCredentials, turn_username,
  generate_turn_credentials, domain_urls, stun_server, build_ice_config,
}

keep-turn :
    (xs : List Text) (ys : List Text)
    → keep (starts_with (codes "turn:")) (map turn_url xs ++ ys)
      ≡ map turn_url xs ++ keep (starts_with (codes "turn:")) ys
unfolding strip_prefix
keep-turn [] ys = refl
keep-turn (x ∷ xs) ys = ap (λ t. turn_url x ∷ t) (keep-turn xs ys)

keep-turns : (xs : List Text) → keep (starts_with (codes "turn:")) (map turns_url xs) ≡ []
unfolding strip_prefix
keep-turns [] = refl
keep-turns (x ∷ xs) = keep-turns xs

-- the credentials for one call
abbrev creds_of : ℕ → CoturnConfig → Text → Text → TurnCredentials
creds_of now config user_id credential = record {
  username = turn_username now config.ttl user_id;
  credential = credential;
  ttl = config.ttl;
  uris = turn_urls config ++ turns_urls config;
}

build-creds :
    (domain : Option Text) (now : ℕ) (config : CoturnConfig) (user_id credential : Text)
    → build_ice_config domain (creds_of now config user_id credential) ≡ record {
      ice_servers =
          stun_server
          ∷ record {
            urls = turn_urls config ++ domain_urls domain;
            username = some (turn_username now config.ttl user_id);
            credential = some credential;
          }
          ∷ [];
    }
unfolding build_ice_config turn_urls turns_urls
build-creds domain now config user_id credential =
    ap
      (λ urls. record {
        ice_servers =
            stun_server
            ∷ record {
              urls = urls ++ domain_urls domain;
              username = some (turn_username now config.ttl user_id);
              credential = some credential;
            }
            ∷ [];
      })
      (keep-turn (split b',' config.servers) (map turns_url (split b',' config.tls_servers))
        ∙ (ap (λ t. map turn_url (split b',' config.servers) ++ t)
              (keep-turns (split b',' config.tls_servers))
            ∙ append-nil (map turn_url (split b',' config.servers))))

username-splitn :
    (now ttl : ℕ) (user_id : Text)
    → splitn 2 b':' (turn_username now ttl user_id) ≡ show ((now + ttl) % 2 ^ 64) ∷ user_id ∷ []
username-splitn now ttl user_id =
    splitn-append 0 b':' (show ((now + ttl) % 2 ^ 64)) user_id
      (IsNumeral-Lacks b':' refl (show-IsNumeral ((now + ttl) % 2 ^ 64)))
    ∙ unfold splitn in refl

-- the address at the TURNS domain
abbrev pub domain_addresses : Option Text → List Text
domain_addresses none = []
domain_addresses (some domain) = (codes "turns:" ++ (domain ++ codes ":443?transport=tcp")) ∷ []

domain-addresses : (domain : Option Text) → domain_urls domain ≡ domain_addresses domain
domain-addresses none = refl
domain-addresses (some domain) = refl

-- what a browser gets, with credentials that expire at `expiry`
abbrev pub IsFor :
    (Text → Text → Result Text) → Option Text → ℕ → CoturnConfig → Text → TurnCredentials → Type 0
IsFor mac domain expiry config user_id creds =
    ((build_ice_config domain creds).ice_servers
      ≡ record {
        urls = codes "stun:stun.l.google.com:19302" ∷ [];
        username = none;
        credential = none;
      }
        ∷ record {
          urls =
              map (λ s. codes "turn:" ++ trim s) (split b',' config.servers)
              ++ domain_addresses domain;
          username = some creds.username;
          credential = some creds.credential;
        }
        ∷ [])
    × (splitn 2 b':' creds.username ≡ show expiry ∷ user_id ∷ [])
    × (parse_uint (2 ^ 64) (show expiry) ≡ some expiry)
    × (mac config.auth_secret creds.username ≡ ok creds.credential)

creds_of-IsFor :
    (mac : Text → Text → Result Text) (domain : Option Text) (now : ℕ) (config : CoturnConfig)
    (user_id credential : Text)
    → mac config.auth_secret (turn_username now config.ttl user_id) ≡ ok credential
    → IsFor mac domain
        ((now + config.ttl) % 2 ^ 64)
        config
        user_id
        (creds_of now config user_id credential)
creds_of-IsFor mac domain now config user_id credential e = (
  unfold turn_urls in
      rw (← domain-addresses domain)
        (ap (λ c. c.ice_servers) (build-creds domain now config user_id credential)),
  username-splitn now config.ttl user_id,
  parse_uint-show (2 ^ 64) ((now + config.ttl) % 2 ^ 64) (omega arith),
  e,
)

-- What a browser gets when the credentials are made at `now`: a STUN server without credentials and a
-- TURN server whose addresses are those of `servers` (none of `tls_servers`) and that of the TURNS
-- domain, if there is one. The user name splits at its first colon into the time of expiry, which is
-- the sum of `now` and the lifetime modulo 2^64, and the user; the credential is the code of that name
-- under the secret.
pub ice_servers-generated :
    (mac : Text → Text → Result Text) (domain : Option Text) (now : ℕ) (config : CoturnConfig)
    (user_id : Text) (creds : TurnCredentials)
    → generate_turn_credentials mac now config user_id ≡ ok creds
    → IsFor mac domain ((now + config.ttl) % 2 ^ 64) config user_id creds
unfolding generate_turn_credentials
ice_servers-generated mac domain now config user_id creds h =
    elim (Result-cases (mac config.auth_secret (turn_username now config.ttl user_id))) [
      | inl (credential, e) ↦
          let same : creds_of now config user_id credential ≡ creds =
            ok-injective (sym (generated e) ∙ h) in
          subst (IsFor mac domain ((now + config.ttl) % 2 ^ 64) config user_id) same
            (creds_of-IsFor mac domain now config user_id credential e)
      | inr (e', e) ↦ absurd (err-ok (refused e) h)
    ]
  where
    generated :
        {credential : Text}
        → mac config.auth_secret (turn_username now config.ttl user_id) ≡ ok credential
        → generate_turn_credentials mac now config user_id
          ≡ ok (creds_of now config user_id credential)
    generated e = rw (e, generate_turn_credentials) refl

    refused :
        {t : Text}
        → mac config.auth_secret (turn_username now config.ttl user_id) ≡ err t
        → generate_turn_credentials mac now config user_id ≡ err t
    refused e = rw (e, generate_turn_credentials) refl
