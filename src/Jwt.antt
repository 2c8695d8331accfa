-- ===== src/Jwt.antt =====
-- server/src/auth/jwt.rs. The library `jsonwebtoken` is the parameter: its `encode` and `decode` with
-- the default header and validation. Times are seconds.
use oxmux.Prelude.{ℕ, ◌+◌, ◌*◌, ◌<◌, ◌≡◌}
use oxmux.Prelude.Text.{Text, codes}
use oxmux.Result.{Result, ok}

pub record Claims : Type 0 where
  pub sub : Text
  pub username : Text
  pub exp : ℕ

pub record JwtLibrary : Type 0 where
  pub encode : Claims → Text → Result Text
  -- at a time
  pub decode : ℕ → Text → Text → Result Claims
  -- the claims are read back under the same secret until they expire
  pub decode-encode :
      (claims : Claims) (secret token : Text) (now : ℕ)
      → encode claims secret ≡ ok token
      → now < claims.exp
      → decode now token secret ≡ ok claims

abbrev pub user_claims : ℕ → Text → Text → Claims
user_claims now user_id username = record {
  sub = user_id;
  username = username;
  exp = now + 7 * 24 * 3600;
}

abbrev pub agent_claims : ℕ → Text → Claims
agent_claims now agent_id = record { sub = agent_id; username = codes "agent"; exp = now + 300 }

unfoldable pub create_token : JwtLibrary → ℕ → Text → Text → Text → Result Text
create_token jwt now user_id username secret = jwt.encode (user_claims now user_id username) secret

unfoldable pub create_agent_token : JwtLibrary → ℕ → Text → Text → Result Text
create_agent_token jwt now agent_id secret = jwt.encode (agent_claims now agent_id) secret

unfoldable pub validate_token : JwtLibrary → ℕ → Text → Text → Result Claims
validate_token jwt now token secret = jwt.decode now token secret
