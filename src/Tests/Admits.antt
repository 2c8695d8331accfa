-- ===== src/Tests/Admits.antt =====
-- agent/src/quic/server.rs, `handle_session`: tokens of the server at the agent of Tests/Server.
use oxmux.Prelude.{
  ℕ, ◌<◌, ◌≡◌, refl, Bool, true, ◌&&◌, ◌==◌, List, [], Option, some, if◌then◌else◌, arith,
  Bool-cases, inl, inr,
}
use oxmux.Prelude.Text.{Text, codes, text_eq, text_eq_iff}
use oxmux.Result.{Result, ok, err, ok-injective}
use oxmux.Jwt.{Claims, JwtLibrary, agent_claims, user_claims}
use oxmux.Agent.Messages.{Value, table, string, entry, end}
use oxmux.Agent.Session.Start.{AnyClaims}
use oxmux.Deploy.{Target}
use oxmux.Session.Types.{password}
use oxmux.Ws.State.{Outside}
use oxmux.Tests.Server.{outside}

abbrev of_agent : Claims
of_agent = agent_claims 1000 (codes "a1")

abbrev of_user : Claims
of_user = user_claims 1000 (codes "u2") (codes "eve")

abbrev same : Claims → Claims → Bool
same c d = text_eq c.sub d.sub && (text_eq c.username d.username && c.exp == d.exp)

-- a library that signs these two
abbrev sign : Claims → Text → Result Text
sign c secret =
    if same c of_agent
    then ok (codes "token")
    else if same c of_user
    then ok (codes "login")
    else err []

abbrev read : ℕ → Text → Text → Result Claims
read now token secret = if text_eq token (codes "token") then ok of_agent else ok of_user

same-eq : (c d : Claims) → same c d ≡ true → c ≡ d
same-eq c d h = ground (arith, text_eq_iff c.sub d.sub, text_eq_iff c.username d.username)

read_back :
    (c : Claims) (secret token : Text) (now : ℕ)
    → sign c secret ≡ ok token
    → now < c.exp
    → read now token secret ≡ ok c
unfolding text_eq
read_back c secret token now e h = elim (Bool-cases (same c of_agent)) [
  | inl agent ↦ rw (← ok-injective (rw agent at e)) (rw (same-eq c of_agent agent) refl)
  | inr other ↦ elim (Bool-cases (same c of_user)) [
    | inl user ↦ rw (← ok-injective (rw user at (rw other at e))) (rw (same-eq c of_user user) refl)
    | inr neither ↦ absurd (cc (rw neither at (rw other at e)))
  ]
]

abbrev jwt : JwtLibrary
jwt = record { encode = sign; decode = read; decode-encode = read_back }

verified :
    (now : ℕ) (token secret : Text) (claims : Claims)
    → read now token secret ≡ ok claims
    → true ≡ true
verified now token secret claims h = refl

abbrev lib : AnyClaims jwt
lib = record { verify = λ now token secret. true; verify-decode = verified }

abbrev meets : Outside
meets = record outside { jwt = jwt }

-- The first message is its token.
abbrev decode : List ℕ → Option Value
decode token = some (table (entry (string (codes "token")) (string token) end))

abbrev target : Target
target = record {
  host = codes "host";
  port = 22;
  user = codes "root";
  auth = password (codes "secret");
  agent_secret = codes "k";
  coturn_secret = codes "k";
  coturn_servers = codes "a:1, b:2";
  quic_port = 4433;
}
