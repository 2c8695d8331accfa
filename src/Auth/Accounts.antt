-- ===== src/Auth/Accounts.antt =====
-- server/src/auth/handler.rs: `register`, `login` and `me`, one after the other.
use oxmux.Prelude.{
  ℕ, ◌+◌, ◌*◌, ◌<◌, ◌≡◌, refl, sym, ap, ◌∙◌, Bool, true, false, ◌⊎◌, inl, inr, [], ◌∷◌, ◌++◌,
  Option, some, arith, is_empty, any, find, Bool-cases, Option-cases,
}
use mathlib.Core.Path.{subst}
use oxmux.Prelude.Text.{Text, codes, text_eq_iff, strip_prefix-append, trim}
use oxmux.Prelude.Maps.{Map}
use oxmux.Result.{ok, err, Result-cases}
use oxmux.Jwt.{JwtLibrary, user_claims, create_token, validate_token}
use oxmux.Db.Users.{UserRow, Users, has_username, clashes, find_user_by_username}
use oxmux.Auth.{
  Argon, verify_password, AuthRequest, AuthResponse, refused, granted, auth_response, register,
  login, me, extract_token,
}
use oxmux.Auth.Registration.{find-new, verify-hash, account, register-cases, granted_response}

login_account :
    (jwt : JwtLibrary) (argon : Argon) (now : ℕ) (secret : Text) (req : AuthRequest)
    (user : UserRow) (users : Users)
    → find (has_username req.username) users ≡ some user
    → verify_password argon req.password user.password_hash ≡ true
    → login jwt argon now secret true req users
      ≡ auth_response user.id user.username (create_token jwt now user.id user.username secret)
unfolding login find_user_by_username
login_account jwt argon now secret req user users f v = rw (f, login) (rw (v, login) refl)

-- After a registration that was granted, at any time: the login with the stored name and the same
-- password answers with the registered user and a new token, or with status 500 if no token can be
-- made.
pub register-login :
    (jwt : JwtLibrary) (argon : Argon) (now later : ℕ) (secret : Text) (finds creates : Bool)
    (salt user_id : Text) (req : AuthRequest) (users more : Users) (response : AuthResponse)
    → register jwt argon now secret finds creates salt user_id req users ≡ (granted response, more)
    → login jwt argon later secret true
        (record { username = trim req.username; password = req.password })
        more
      ≡ auth_response response.user.id response.user.username
          (create_token jwt later response.user.id response.user.username secret)
register-login jwt argon now later secret finds creates salt user_id req users more response e =
    let (hash, h, fresh, m, u, t) =
      granted_response jwt argon now secret finds creates salt user_id req users response more e in
    rw m (
      rw u (
        login_account jwt argon later secret
          (record { username = trim req.username; password = req.password })
          (account user_id hash req) (users ++ account user_id hash req ∷ [])
          (find-new (account user_id hash req) users fresh)
          (verify-hash argon salt req.password hash h)))

-- what a granted login has checked
abbrev pub LoggedIn : JwtLibrary → Argon → ℕ → Text → AuthRequest → Users → AuthResponse → Type 0
LoggedIn jwt argon now secret req users response =
    (user : UserRow) × (find (has_username req.username) users ≡ some user)
    × (verify_password argon req.password user.password_hash ≡ true)
    × (response.user ≡ record { id = user.id; username = user.username })
    × (create_token jwt now user.id user.username secret ≡ ok response.token)

-- the token of a response, as the header of a later request
abbrev pub bearer : AuthResponse → Option Text
bearer response = some (codes "Bearer " ++ response.token)

module _ (jwt : JwtLibrary) (argon : Argon) (now : ℕ) (secret : Text) (up : Bool)
    (req : AuthRequest) (users : Users) (response : AuthResponse) where
  login_checked :
      login jwt argon now secret up req users ≡ granted response
      → LoggedIn jwt argon now secret req users response
  unfolding login find_user_by_username
  login_checked e = elim (Bool-cases up) [
    | inr down ↦ absurd (ground arith)
    | inl runs ↦ elim (Option-cases (find (has_username req.username) users)) [
      | inl f ↦ absurd (ground arith)
      | inr (user, f) ↦ elim (Bool-cases (verify_password argon req.password user.password_hash)) [
        | inr v ↦ absurd (ground arith)
        | inl v ↦ elim (Result-cases (create_token jwt now user.id user.username secret)) [
          | inr (t, c) ↦ absurd (ground arith)
          | inl (token, c) ↦ ground arith
        ]
      ]
    ]
  ]

me-token :
    (jwt : JwtLibrary) (now later : ℕ) (secret id username token : Text) (params : Map Text)
    → create_token jwt now id username secret ≡ ok token
    → later < now + 7 * 24 * 3600
    → me jwt later secret (some (codes "Bearer " ++ token)) params
      ≡ granted (record { id = id; username = username })
unfolding me extract_token validate_token create_token
me-token jwt now later secret id username token params c h =
    rw (strip_prefix-append (codes "Bearer ") token, me, extract_token)
      (rw (jwt.decode-encode (user_claims now id username) secret token later c h) refl)

-- A granted login has checked the password against the account of that name; its token, in a later
-- request within seven days, is answered with the same user.
pub login-me :
    (jwt : JwtLibrary) (argon : Argon) (now later : ℕ) (secret : Text) (up : Bool)
    (req : AuthRequest) (users : Users) (response : AuthResponse) (params : Map Text)
    → login jwt argon now secret up req users ≡ granted response
    → later < now + 7 * 24 * 3600
    → LoggedIn jwt argon now secret req users response
      × (me jwt later secret (bearer response) params ≡ granted response.user)
login-me jwt argon now later secret up req users response params e h =
    let (user, f, v, u, c) = login_checked jwt argon now secret up req users response e in
    (
      (user, f, v, u, c),
      me-token jwt now later secret user.id user.username response.token params c h
          ∙ ap (λ info. granted info) (sym u),
    )

-- No two accounts share an id or a name, and none has an empty name.
abbrev pub AreAccounts : Users → Type 0
AreAccounts [] = Unit
AreAccounts (row ∷ users) =
    (any (clashes row.id row.username) users ≡ false)
    × (is_empty row.username ≡ false)
    × AreAccounts users

clashes-append :
    (row new : UserRow) (users : Users)
    → any (clashes row.id row.username) users ≡ false
    → clashes new.id new.username row ≡ false
    → any (clashes row.id row.username) (users ++ new ∷ []) ≡ false
clashes-append row new [] h k = ground (
  arith,
  text_eq_iff row.id new.id,
  text_eq_iff new.id row.id,
  text_eq_iff row.username new.username,
  text_eq_iff new.username row.username,
)
clashes-append row new (other ∷ users) h k = ground (arith, clashes-append row new users)

append-AreAccounts :
    (new : UserRow) (users : Users)
    → any (clashes new.id new.username) users ≡ false
    → is_empty new.username ≡ false
    → AreAccounts users
    → AreAccounts (users ++ new ∷ [])
append-AreAccounts new [] h full k = (refl, full, tt)
append-AreAccounts new (row ∷ users) h full (fresh, named, more) = (
  clashes-append row new users fresh (ground arith),
  named,
  append-AreAccounts new users (ground arith) full more,
)

module _ (jwt : JwtLibrary) (argon : Argon) (now : ℕ) (secret : Text) (finds creates : Bool)
    (salt user_id : Text) (req : AuthRequest) (users : Users) where
  -- A registration keeps the ids and the names of the accounts distinct, and the names non-empty.
  pub register-AreAccounts :
      AreAccounts users
      → AreAccounts (register jwt argon now secret finds creates salt user_id req users).1
  register-AreAccounts k =
      elim (register-cases jwt argon now secret finds creates salt user_id req users) [
        | inl (status, message, r) ↦ subst (λ p. AreAccounts p.1) (sym r) k
        | inr (hash, h, fresh, full, r) ↦
            subst (λ p. AreAccounts p.1) (sym r)
              (append-AreAccounts (account user_id hash req) users fresh full k)
      ]

  -- A registration that was refused has left the table as it was, except that with status 500 the
  -- account may be there: its token could not be made.
  pub register_refused :
      (status : ℕ) (message : Text) (more : Users)
      → register jwt argon now secret finds creates salt user_id req users
        ≡ (refused status message, more)
      → (more ≡ users)
        ⊎ ((status ≡ 500)
            × (create_token jwt now user_id (trim req.username) secret ≡ err message)
            × ((hash : Text) × (more ≡ users ++ account user_id hash req ∷ [])))
  register_refused status message more e =
      elim (register-cases jwt argon now secret finds creates salt user_id req users) [
        | inl (s, t, r) ↦ inl (cc)
        | inr (hash, h, fresh, full, r) ↦
            elim (Result-cases (create_token jwt now user_id (trim req.username) secret)) [
              | inl (token, c) ↦ absurd (cc)
              | inr (t, c) ↦ inr (cc, cc, (hash, cc))
            ]
      ]
