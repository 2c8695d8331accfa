-- ===== src/Db/Users.antt =====
-- server/src/db/repo.rs and server/src/db/mod.rs: the table of users. `up` says whether the database
-- executes a statement; the time stamps are not modelled.
use oxmux.Prelude.{Bool, not, ◌&&◌, ◌||◌, List, [], ◌∷◌, ◌++◌, Option, if◌then◌else◌, any, find}
use oxmux.Prelude.Text.{Text, codes, text_eq}
use oxmux.Result.{Result, ok, err}

pub record UserRow : Type 0 where
  pub id : Text
  pub username : Text
  pub password_hash : Text

abbrev pub Users : Type 0
Users = List UserRow

abbrev pub has_username : Text → UserRow → Bool
has_username username row = text_eq row.username username

-- the primary key, and the `UNIQUE` of the user names
abbrev pub clashes : Text → Text → UserRow → Bool
clashes id username row = text_eq row.id id || text_eq row.username username

unfoldable pub create_user : Bool → Text → Text → Text → Users → Result (Unit {0}) × Users
create_user up id username password_hash users =
    if up && not (any (clashes id username) users)
    then (
      ok tt,
      users ++ record { id = id; username = username; password_hash = password_hash } ∷ [],
    )
    else (err (codes "failed to create user"), users)

unfoldable pub find_user_by_username : Bool → Text → Users → Result (Option UserRow)
find_user_by_username up username users =
    if up then ok (find (has_username username) users) else err (codes "failed to query user")

unfoldable pub find_user_by_id : Bool → Text → Users → Result (Option UserRow)
find_user_by_id up id users =
    if up then ok (find (λ row. text_eq row.id id) users) else err (codes "failed to query user")
