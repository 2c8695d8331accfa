-- ===== src/Auth.antt =====
-- server/src/auth/handler.rs: registration, login and `me`. `argon2` is a parameter.
pub mod Registration
pub mod Accounts
use oxmux.Prelude.{
  ℕ, Bool, true, false, ◌||◌, ◌≡◌, Option, none, some, ltb, if◌then◌else◌, is_empty, length, not,
}
use oxmux.Prelude.Text.{Text, codes, strip_prefix, trim}
use oxmux.Prelude.Maps.{Map}
use oxmux.Prelude.Maps
use oxmux.Tmux.Decode.{utf8}
use oxmux.Result.{Result, ok, err, ok_or}
use oxmux.Jwt.{JwtLibrary, Claims, create_token, validate_token}
use oxmux.Db.Users.{UserRow, Users, create_user, find_user_by_username}

-- the header `authorization`, if it is text, and the query's parameters
unfoldable pub extract_token : Option Text → Map Text → Option Text
extract_token none params = Maps.get (codes "token") params
extract_token (some auth) params = elim (strip_prefix (codes "Bearer ") auth) [
  | some token ↦ some token
  | none ↦ Maps.get (codes "token") params
]

-- the library `argon2` with the default parameters
pub record Argon : Type 0 where
  -- `hash_password`
  pub hash : (salt password : Text) → Option Text
  -- whether `PasswordHash::new` reads the text, and whether `verify_password` then succeeds
  pub is_hash : Text → Bool
  pub verifies : (password hash : Text) → Bool
  -- a hash is read back, and verifies the password that it was made from
  pub is_hash-hash : (salt password h : Text) → hash salt password ≡ some h → is_hash h ≡ true
  pub verifies-hash :
      (salt password h : Text) → hash salt password ≡ some h → verifies password h ≡ true

unfoldable pub hash_password : Argon → (salt password : Text) → Result Text
hash_password argon salt password =
    ok_or (argon.hash salt password) (codes "failed to hash password")

unfoldable pub verify_password : Argon → (password hash : Text) → Bool
verify_password argon password hash =
    if argon.is_hash hash then argon.verifies password hash else false

pub record AuthRequest : Type 0 where
  pub username : Text
  pub password : Text

pub record UserInfo : Type 0 where
  pub id : Text
  pub username : Text

-- a status code and a text, or the body of the reply
pub data Reply (A : Type 0) : Type 0 where
  refused : (status : ℕ) (message : Text) → Reply A
  granted : A → Reply A

pub record AuthResponse : Type 0 where
  pub token : Text
  pub user : UserInfo

abbrev pub auth_response : Text → Text → Result Text → Reply AuthResponse
auth_response id username (err e) = refused 500 e
auth_response id username (ok token) =
    granted (record { token = token; user = record { id = id; username = username } })

abbrev pub bad_request : Text
bad_request = codes "username required, password must be at least 4 characters"

module _ (jwt : JwtLibrary) (argon : Argon) (now : ℕ) (secret : Text) where
  -- the insertion, and the token after it
  unfoldable pub add_user :
      (up : Bool) (user_id username password_hash : Text) → Users → Reply AuthResponse × Users
  unfolding create_user create_token
  add_user up user_id username password_hash users =
      let (added, more) = create_user up user_id username password_hash users in
      elim added [
        | err e ↦ (refused 500 e, more)
        | ok u ↦
            (auth_response user_id username (create_token jwt now user_id username secret), more)
      ]

  -- the steps after the tests of the name and the password
  unfoldable pub add_new :
      (finds creates : Bool) (salt user_id username password : Text)
      → Users
      → Reply AuthResponse × Users
  unfolding find_user_by_username hash_password add_user
  add_new finds creates salt user_id username password users =
      elim (find_user_by_username finds username users) [
        | err e ↦ (refused 500 e, users)
        | ok (some row) ↦ (refused 409 (codes "username already taken"), users)
        | ok none ↦ elim (hash_password argon salt password) [
          | err e ↦ (refused 500 e, users)
          | ok hash ↦ add_user creates user_id username hash users
        ]
      ]

  -- `finds` and `creates`: whether the database executes the query and the insertion; `user_id` is
  -- the new UUID
  unfoldable pub register :
      (finds creates : Bool) (salt user_id : Text)
      → AuthRequest
      → Users
      → Reply AuthResponse × Users
  unfolding add_new
  register finds creates salt user_id req users =
      let username = trim req.username in
      if is_empty username || ltb (length (utf8 req.password)) 4
      then (refused 400 bad_request, users)
      else add_new finds creates salt user_id username req.password users

  unfoldable pub login : (up : Bool) → AuthRequest → Users → Reply AuthResponse
  unfolding find_user_by_username verify_password create_token
  login up req users = elim (find_user_by_username up req.username users) [
    | err e ↦ refused 500 e
    | ok none ↦ refused 401 (codes "invalid credentials")
    | ok (some user) ↦
        if not (verify_password argon req.password user.password_hash)
        then refused 401 (codes "invalid credentials")
        else auth_response user.id user.username (create_token jwt now user.id user.username secret)
  ]

abbrev pub info_of : Claims → UserInfo
info_of claims = record { id = claims.sub; username = claims.username }

unfoldable pub me : JwtLibrary → ℕ → Text → Option Text → Map Text → Reply UserInfo
unfolding extract_token validate_token
me jwt now secret authorization params = elim (extract_token authorization params) [
  | none ↦ refused 401 (codes "missing token")
  | some token ↦ elim (validate_token jwt now token secret) [
    | err e ↦ refused 401 (codes "invalid token")
    | ok claims ↦ granted (info_of claims)
  ]
]
