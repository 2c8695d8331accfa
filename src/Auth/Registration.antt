-- ===== src/Auth/Registration.antt =====
-- server/src/auth/handler.rs: the branches of `register`.
use oxmux.Prelude.{
  ℕ, ◌≡◌, refl, sym, Bool, true, false, not, ◌&&◌, ◌⊎◌, inl, inr, [], ◌∷◌, ◌++◌, none, some, arith,
  ltb, is_empty, length, any, find, Bool-cases, Option-cases,
}
use mathlib.Core.Path.{subst}
use oxmux.Prelude.Text.{Text, codes, text_eq_refl, trim}
use oxmux.Tmux.Decode.{utf8}
use oxmux.Result.{ok, Result-cases}
use oxmux.Jwt.{JwtLibrary, create_token}
use oxmux.Db.Users.{UserRow, Users, has_username, clashes, create_user, find_user_by_username}
use oxmux.Auth.{
  bad_request, Argon, hash_password, verify_password, AuthRequest, AuthResponse, Reply, refused,
  granted, auth_response, add_user, add_new, register,
}

pub find-new :
    (row : UserRow) (users : Users)
    → any (clashes row.id row.username) users ≡ false
    → find (has_username row.username) (users ++ row ∷ []) ≡ some row
-- The new row is found by its name.
find-new row [] h = rw (text_eq_refl row.username, find) refl
find-new row (other ∷ users) h = ground (arith, find-new row users)

-- A hashed password verifies.
pub verify-hash :
    (argon : Argon) (salt password hash : Text)
    → hash_password argon salt password ≡ ok hash
    → verify_password argon password hash ≡ true
unfolding hash_password verify_password
verify-hash argon salt password hash e = elim (Option-cases (argon.hash salt password)) [
  | inl h ↦ absurd (ground arith)
  | inr (t, h) ↦
      ground (arith, argon.is_hash-hash salt password t h, argon.verifies-hash salt password t h)
]

abbrev pub account : (user_id password_hash : Text) → AuthRequest → UserRow
account user_id password_hash req = record {
  id = user_id;
  username = trim req.username;
  password_hash = password_hash;
}

module _ (jwt : JwtLibrary) (argon : Argon) (now : ℕ) (secret : Text) (finds creates : Bool)
    (salt user_id : Text) (req : AuthRequest) (users : Users) where
  -- nobody is added
  abbrev Refusal : Reply AuthResponse × Users → Type 0
  Refusal r = (status : ℕ) × (message : Text) × (r ≡ (refused status message, users))

  -- the account is added, under a name and an id that are new
  abbrev Added : Reply AuthResponse × Users → Type 0
  Added r =
      (hash : Text) × (hash_password argon salt req.password ≡ ok hash)
      × (any (clashes user_id (trim req.username)) users ≡ false)
      × (is_empty (trim req.username) ≡ false)
      × (r ≡ (
        auth_response user_id (trim req.username)
            (create_token jwt now user_id (trim req.username) secret),
        users ++ account user_id hash req ∷ [],
      ))

  abbrev Outcome : Reply AuthResponse × Users → Type 0
  Outcome r = Refusal r ⊎ Added r

  back : {r r' : Reply AuthResponse × Users} → r ≡ r' → Outcome r' → Outcome r
  back e o = subst Outcome (sym e) o

  add_user-cases :
      (hash : Text)
      → hash_password argon salt req.password ≡ ok hash
      → is_empty (trim req.username) ≡ false
      → Outcome (add_user jwt argon now secret creates user_id (trim req.username) hash users)
  unfolding add_user create_user
  add_user-cases hash e full =
      elim (Bool-cases (creates && not (any (clashes user_id (trim req.username)) users))) [
        | inl fits ↦
            back (rw (fits, add_user) (rw (fits, create_user) refl))
              (inr (hash, e, ground arith, full, refl))
        | inr not_fits ↦
            back (rw (not_fits, add_user) (rw (not_fits, create_user) refl))
              (inl (500, codes "failed to create user", refl))
      ]

  add_new-cases :
      is_empty (trim req.username) ≡ false
      → Outcome (
          add_new jwt argon now secret finds creates salt user_id
            (trim req.username)
            req.password
            users)
  unfolding add_new
  add_new-cases full = elim (Result-cases (find_user_by_username finds (trim req.username) users)) [
    | inr (t, e) ↦ back (rw (e, add_new) refl) (inl (500, t, refl))
    | inl (none, e) ↦ elim (Result-cases (hash_password argon salt req.password)) [
      | inr (t, h) ↦ back (rw (e, add_new) (rw (h, add_new) refl)) (inl (500, t, refl))
      | inl (hash, h) ↦ back (rw (e, add_new) (rw (h, add_new) refl)) (add_user-cases hash h full)
    ]
    | inl (some row, e) ↦
        back (rw (e, add_new) refl) (inl (409, codes "username already taken", refl))
  ]

  pub register-cases : Outcome (register jwt argon now secret finds creates salt user_id req users)
  unfolding register
  register-cases = elim (Bool-cases (is_empty (trim req.username))) [
    | inl blank ↦ back (rw (blank, register) refl) (inl (400, bad_request, refl))
    | inr full ↦ elim (Bool-cases (ltb (length (utf8 req.password)) 4)) [
      | inl short ↦
          back (rw (full, register) (rw (short, register) refl)) (inl (400, bad_request, refl))
      | inr long ↦ back (rw (full, register) (rw (long, register) refl)) (add_new-cases full)
    ]
  ]

  -- A granted registration has added the account that it names.
  abbrev Granted : AuthResponse → Users → Type 0
  Granted response more =
      (hash : Text) × (hash_password argon salt req.password ≡ ok hash)
      × (any (clashes user_id (trim req.username)) users ≡ false)
      × (more ≡ users ++ account user_id hash req ∷ [])
      × (response.user ≡ record { id = user_id; username = trim req.username })
      × (create_token jwt now user_id (trim req.username) secret ≡ ok response.token)

  pub granted_response :
      (response : AuthResponse) (more : Users)
      → register jwt argon now secret finds creates salt user_id req users
        ≡ (granted response, more)
      → Granted response more
  granted_response response more e = elim register-cases [
    | inl (status, message, r) ↦ absurd (cc)
    | inr (hash, h, fresh, full, r) ↦
        elim (Result-cases (create_token jwt now user_id (trim req.username) secret)) [
          | inr (t, c) ↦ absurd (cc)
          | inl (token, c) ↦ (hash, h, fresh, cc, cc, cc)
        ]
  ]

-- Login with the right password, of the account that the name finds.
