-- ===== src/Session/Manager/Offline.antt =====
-- server/src/session/manager.rs, `load_user_sessions`, after the reset of server/src/db/mod.rs: which
-- sessions are there.
use oxmux.Prelude.{
  any, ◌∙◌, ◌≡◌, refl, Bool, true, false, List, [], ◌∷◌, ◌++◌, arith, keep, Option-cases,
  Bool-cases, inl, inr,
}
use mathlib.Core.Path.{subst}
use oxmux.Prelude.Text.{Text, text_eq, codes}
use oxmux.Prelude.Maps.{get, contains_key, AllValues, AllValues-get, AllValues-insert}
use oxmux.Result.{ok, Result-cases}
use oxmux.Session.Types.{ManagedSession, SessionStatus}
use oxmux.Db.Repo.{
  Json, SessionRow, Rows, update_where, list_sessions_for_user, row_to_managed_session, row_status,
  reset_sessions,
}
use oxmux.Session.Manager.{
  SessionEntry, SessionManager, new, entry_of, add_missing, current, load_rows, load_user_sessions,
}

-- No connection is up or on its way.
abbrev pub is_offline : SessionStatus → Bool
is_offline SessionStatus.created = true
is_offline SessionStatus.disconnected = true
is_offline SessionStatus.error = true
is_offline _ = false

abbrev pub IsOffline : SessionStatus → Type 0
IsOffline s = is_offline s ≡ true

abbrev pub AreOffline : List ManagedSession → Type 0
AreOffline [] = Unit
AreOffline (s ∷ sessions) = IsOffline s.status × AreOffline sessions

AreOffline-append :
    (xs ys : List ManagedSession) → AreOffline xs → AreOffline ys → AreOffline (xs ++ ys)
AreOffline-append [] ys hx hy = hy
AreOffline-append (x ∷ xs) ys hx hy = (hx.0, AreOffline-append xs ys hx.1 hy)

-- what the reset leaves in a row
abbrev IsReset : Rows → Type 0
IsReset [] = Unit
IsReset (row ∷ rows) = (text_eq row.status (codes "connecting") ≡ false) × IsReset rows

literal_test : text_eq (codes "disconnected") (codes "connecting") ≡ false
unfolding text_eq
literal_test = refl

reset_sessions-IsReset : (rows : Rows) → IsReset (reset_sessions rows)
unfolding reset_sessions update_where
reset_sessions-IsReset [] = tt
reset_sessions-IsReset (row ∷ rows) = ground (arith, literal_test, reset_sessions-IsReset rows)

keep-IsReset : (p : SessionRow → Bool) (rows : Rows) → IsReset rows → IsReset (keep p rows)
keep-IsReset p [] h = tt
keep-IsReset p (row ∷ rows) h = ground (arith, keep-IsReset p rows)

abbrev is_connecting : SessionRow → Bool
is_connecting row = text_eq row.status (codes "connecting")

IsReset-any : (rows : Rows) → IsReset rows → any is_connecting rows ≡ false
IsReset-any [] h = refl
IsReset-any (row ∷ rows) h = ground (arith, IsReset-any rows)

any-IsReset : (rows : Rows) → any is_connecting rows ≡ false → IsReset rows
any-IsReset [] h = tt
any-IsReset (row ∷ rows) h = ground (arith, any-IsReset rows)

order-IsReset : (json : Json) (rows : Rows) → IsReset rows → IsReset (json.order rows)
order-IsReset json rows h =
    any-IsReset (json.order rows) (json.any-order is_connecting rows ∙ IsReset-any rows h)

row_status-IsOffline :
    (s : Text) → text_eq s (codes "connecting") ≡ false → IsOffline (row_status s)
unfolding row_status
row_status-IsOffline s h = ground arith

row-IsOffline :
    (json : Json) (row : SessionRow) (meta : ManagedSession)
    → text_eq row.status (codes "connecting") ≡ false
    → row_to_managed_session json row ≡ ok meta
    → IsOffline meta.status
unfolding row_to_managed_session
row-IsOffline json row meta h e = ground (arith, row_status-IsOffline row.status h)

abbrev OfflineEntry : SessionEntry → Type 0
OfflineEntry entry = IsOffline entry.meta.status

add_missing-offline :
    (meta : ManagedSession) (m : SessionManager)
    → IsOffline meta.status
    → AllValues OfflineEntry m.sessions
    → AllValues OfflineEntry (add_missing meta m).sessions
unfolding add_missing
add_missing-offline meta m h all = elim (Bool-cases (contains_key meta.id m.sessions)) [
  | inl e ↦ rw (e, add_missing) all
  | inr e ↦
      rw (e, add_missing) (AllValues-insert OfflineEntry meta.id (entry_of meta) m.sessions h all)
]

current-IsOffline :
    (meta : ManagedSession) (m : SessionManager)
    → IsOffline meta.status
    → AllValues OfflineEntry m.sessions
    → IsOffline (current meta m).status
unfolding current
current-IsOffline meta m h all = elim (Option-cases (get meta.id m.sessions)) [
  | inl e ↦ rw (e, current) h
  | inr (entry, e) ↦ rw (e, current) (AllValues-get OfflineEntry meta.id m.sessions all e)
]

load_rows-AreOffline :
    (json : Json) (rows : Rows) (loaded : List ManagedSession) (m : SessionManager)
    (l : List ManagedSession)
    → IsReset rows
    → AllValues OfflineEntry m.sessions
    → AreOffline loaded
    → (load_rows json rows loaded m).0 ≡ ok l
    → AreOffline l
unfolding load_rows
load_rows-AreOffline json [] loaded m l r all h e = subst AreOffline (ground arith) h
load_rows-AreOffline json (row ∷ rows) loaded m l r all h e =
    elim (Result-cases (row_to_managed_session json row)) [
      | inl (meta, got) ↦
          let offline = row-IsOffline json row meta r.0 got in
          let all' = add_missing-offline meta m offline all in
          load_rows-AreOffline json rows (loaded ++ current meta (add_missing meta m) ∷ [])
            (add_missing meta m) l r.1 all'
            (AreOffline-append loaded _ h
              (current-IsOffline meta (add_missing meta m) offline all', tt))
            (rw (got, load_rows) at e)
      | inr (x, lost) ↦ absurd (ground arith)
    ]

pub load-AreOffline :
    (json : Json) (up : Bool) (user_id : Text) (rows : Rows) (l : List ManagedSession)
    → (load_user_sessions json up user_id (new (reset_sessions rows))).0 ≡ ok l
    → AreOffline l
unfolding load_user_sessions list_sessions_for_user new
load-AreOffline json up user_id rows l e = elim (Bool-cases up) [
  | inl yes_up ↦
      load_rows-AreOffline json _ [] (new (reset_sessions rows)) l
        (order-IsReset json _ (
          keep-IsReset (λ row. text_eq row.user_id user_id) (reset_sessions rows)
            (reset_sessions-IsReset rows)))
        tt tt (rw (yes_up, load_user_sessions) at e)
  | inr down ↦ absurd (ground arith)
]
