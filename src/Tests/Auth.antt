-- ===== src/Tests/Auth.antt =====
-- server/src/auth/handler.rs at a concrete account.
use oxmux.Prelude.{
  ℕ, ◌<◌, ◌≡◌, ◌⊎◌, refl, Bool, true, false, ◌+◌, [], ◌∷◌, ◌++◌, some, arith, length, take, drop,
  take_all, drop_all, ltb, if◌then◌else◌,
}
use mathlib.Core.Path.{subst}
use oxmux.Prelude.Text.{Text, codes, text_eq, text_eq_refl, trim}
use oxmux.Tmux.Decode.{encode_utf8, utf8}
use oxmux.Result.{Result, ok, err, ok-injective}
use oxmux.Jwt.{Claims, JwtLibrary, create_token}
use oxmux.Db.Users.{UserRow, find_user_by_username}
use oxmux.Auth.{
  Argon, hash_password, verify_password, AuthRequest, AuthResponse, refused, granted, auth_response,
  register, login, me,
}
use oxmux.Auth.Accounts.{register-login, login-me, LoggedIn, bearer, register_refused}
use oxmux.Auth.Registration.{account}

-- a token with the claims in the clear
abbrev sign : Claims → Text
sign claims = claims.exp ∷ length claims.sub ∷ (claims.sub ++ claims.username)

abbrev read : ℕ → Text → Result Claims
read now (exp ∷ n ∷ s) =
    if ltb now exp
    then ok (record { sub = take n s; username = drop n s; exp = exp })
    else err (codes "expired")
read now _ = err (codes "malformed")

read-sign :
    (claims : Claims) (secret token : Text) (now : ℕ)
    → ok (sign claims) ≡ ok token
    → now < claims.exp
    → read now token ≡ ok claims
read-sign claims secret token now e h =
    subst (λ t. read now t ≡ ok claims) (ok-injective e)
      (rw (take_all claims.sub claims.username)
        (rw (drop_all claims.sub claims.username) (ground arith)))

abbrev jwt : JwtLibrary
jwt = record {
  encode = λ claims secret. ok (sign claims);
  decode = λ now token secret. read now token;
  decode-encode = read-sign;
}

-- the hash is the salt and the password
abbrev salted : Text → Text → Text
salted salt password = length salt ∷ (salt ++ password)

abbrev verify : Text → Text → Bool
verify password [] = false
verify password (n ∷ s) = text_eq (drop n s) password

verifies :
    (salt password hash : Text)
    → some (salted salt password) ≡ some hash
    → verify password hash ≡ true
verifies salt password hash e =
    subst (λ t. verify password t ≡ true) (some_injective e)
      (rw (drop_all salt password) (text_eq_refl password))
  where
    some_injective : {a b : Text} → some a ≡ some b → a ≡ b
    some_injective h = cc

abbrev argon : Argon
argon = record {
  hash = λ salt password. some (salted salt password);
  is_hash = λ hash. true;
  verifies = verify;
  is_hash-hash = λ salt password hash e. refl;
  verifies-hash = verifies;
}

abbrev secret : Text
secret = codes "k"

abbrev ann : AuthRequest
ann = record { username = codes " ann "; password = codes "secret" }

abbrev ann_row : UserRow
ann_row = account (codes "u1") (2 ∷ codes "sasecret") ann

-- the reply to her registration at time 5
abbrev granted_ann : ℕ → AuthResponse
granted_ann now = record {
  token = sign (record { sub = codes "u1"; username = codes "ann"; exp = now + 604800 });
  user = record { id = codes "u1"; username = codes "ann" };
}

registered :
    register jwt argon 5 secret true true (codes "sa") (codes "u1") ann []
    ≡ (granted (granted_ann 5), ann_row ∷ [])
unfolding register hash_password encode_utf8 utf8 trim
registered = refl

register-login_example :
    login jwt argon 8 secret true
      (record { username = trim ann.username; password = ann.password })
      (ann_row ∷ [])
    ≡ auth_response
        (codes "u1")
        (codes "ann")
        (create_token jwt 8 (codes "u1") (codes "ann") secret)
register-login_example =
    register-login jwt argon 5 8 secret true true (codes "sa") (codes "u1") ann [] (ann_row ∷ [])
      (granted_ann 5) registered

abbrev trimmed : AuthRequest
trimmed = record { username = codes "ann"; password = codes "secret" }

logged_in : login jwt argon 8 secret true trimmed (ann_row ∷ []) ≡ granted (granted_ann 8)
unfolding login verify_password find_user_by_username create_token text_eq trim
logged_in = refl

login-me_example :
    LoggedIn jwt argon 8 secret trimmed (ann_row ∷ []) (granted_ann 8)
    × (me jwt 9 secret (bearer (granted_ann 8)) [] ≡ granted ((granted_ann 8).user))
login-me_example =
    login-me jwt argon 8 9 secret true trimmed (ann_row ∷ []) (granted_ann 8) [] logged_in
      (omega arith)

-- The name as it was registered, with its spaces, is not found.
untrimmed :
    login jwt argon 8 secret true ann (ann_row ∷ []) ≡ refused 401 (codes "invalid credentials")
unfolding login verify_password find_user_by_username text_eq trim
untrimmed = refl

abbrev conflict : ℕ
conflict = 409

taken :
    register jwt argon 9 secret true true (codes "t") (codes "u2") trimmed (ann_row ∷ [])
    ≡ (refused 409 (codes "username already taken"), ann_row ∷ [])
unfolding register hash_password encode_utf8 utf8 trim text_eq find_user_by_username
taken = refl

register_refused_example :
    (ann_row ∷ [] ≡ ann_row ∷ [])
    ⊎ ((conflict ≡ 500)
        × (create_token jwt 9 (codes "u2") (trim trimmed.username) secret
            ≡ err (codes "username already taken"))
        × ((hash : Text) × (ann_row ∷ []
              ≡ (ann_row ∷ []) ++ account (codes "u2") hash trimmed ∷ [])))
register_refused_example =
    register_refused jwt argon 9 secret true true (codes "t") (codes "u2") trimmed (ann_row ∷ [])
      conflict (codes "username already taken") (ann_row ∷ []) taken
