-- ===== src/Config/Turn.antt =====
-- server/src/config.rs with server/src/webrtc/turn.rs: from the environment to what a browser gets.
use oxmux.Prelude.{ℕ, ◌+◌, ◌-◌, ◌^◌, ◌<◌, Option, none, some}
use oxmux.Prelude.Text.{Text}
use oxmux.Prelude.Int.{ℤ, pos, negsuc, as_u}
use oxmux.Result.{Result}
use oxmux.Config.{Config}

-- a setting of `COTURN_TTL` that, `now` being the time, leads neither before 1970 nor out of `i64`
abbrev pub IsLifetime : ℕ → Option ℤ → Type 0
IsLifetime now none = Unit
IsLifetime now (some (pos n)) = n < 2 ^ 63
IsLifetime now (some (negsuc n)) = n < now

-- the sum of the time and the lifetime, as integers
abbrev pub expires_at : ℕ → Option ℤ → ℕ
expires_at now none = now + 86400
expires_at now (some (pos n)) = now + n
expires_at now (some (negsuc n)) = now - (n + 1)

abbrev ttl_of : Option ℤ → ℕ
ttl_of none = as_u 64 (pos 86400)
ttl_of (some z) = as_u 64 z
