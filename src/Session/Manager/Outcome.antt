-- ===== src/Session/Manager/Outcome.antt =====
-- server/src/session/manager.rs: what `connect` leaves behind, and the race of `connect` with
-- `delete`.
use oxmux.Prelude.{
  ◌≡◌, refl, ap, ◌∙◌, Bool, true, List, [], ◌∷◌, none, arith, if◌then◌else◌, any, ◌||◌, ◌++◌, map,
  some,
}
use oxmux.Prelude.Text.{Text, text_eq, text_eq_iff, text_eq_refl}
use oxmux.Prelude.Maps.{Map, get, insert, get-insert, get-modify, get_self-remove}
use oxmux.Result.{ok, err}
use oxmux.Ws.Tree.{TmuxPaneInfo, TmuxWindowInfo, TmuxSessionInfo}
use oxmux.Session.Types.{SessionId, SessionStatus}
use oxmux.Session.Manager.{SessionEntry, SessionManager, get_session, delete, reply_session}
use oxmux.Session.Manager.Routes.{reply_session-state}
use oxmux.Session.Manager.Connect.{
  listed, failed, route_panes, window_pane_ids, listing_pane_ids, mark_connected, mark_failed,
  started, connect_start, connect_finish, connect, connect-some, find_session_for_pane,
}

-- the owner of a pane after the panes of a listing were routed
get-route_panes :
    (id : SessionId) (panes : List Text) (pane : Text) (routes : Map SessionId)
    → get pane (route_panes id panes routes)
      ≡ (if any (text_eq pane) panes then some id else get pane routes)
unfolding route_panes
get-route_panes id [] pane routes = refl
get-route_panes id (p ∷ panes) pane routes =
    get-route_panes id panes pane (insert p id routes)
    ∙ ground (arith, get-insert p pane id routes, text_eq_iff p pane, text_eq_iff pane p)

finish-listed :
    (up : Bool) (id : SessionId) (listing : List TmuxSessionInfo) (m : SessionManager)
    (entry : SessionEntry)
    → get id m.sessions ≡ some entry
    → (connect_finish up id (listed listing) m).0 ≡ ok (mark_connected listing entry.meta)
unfolding connect_finish reply_session get_session
finish-listed up id listing m entry e = ground (
  arith,
  get-modify id id (λ (x : SessionEntry). record x { meta = mark_connected listing x.meta })
      m.sessions,
  text_eq_refl id,
)

finish-listed_find :
    (up : Bool) (id : SessionId) (listing : List TmuxSessionInfo) (m : SessionManager) (pane : Text)
    → find_session_for_pane pane (connect_finish up id (listed listing) m).1 ≡ (
        if any (text_eq pane) (listing_pane_ids listing)
        then some id
        else find_session_for_pane pane m)
unfolding connect_finish find_session_for_pane
finish-listed_find up id listing m pane =
    ap (λ m'. get pane m'.pane_to_session) (reply_session-state id _)
    ∙ get-route_panes id (listing_pane_ids listing) pane m.pane_to_session

finish-failed :
    (up : Bool) (id : SessionId) (e : Text) (m : SessionManager) (entry : SessionEntry)
    → get id m.sessions ≡ some entry
    → get_session id (connect_finish up id (failed e) m).1 ≡ some (mark_failed e entry.meta)
unfolding connect_finish get_session
finish-failed up id e m entry known = ground (
  arith,
  get-modify id id (λ (x : SessionEntry). record x { meta = mark_failed e x.meta }) m.sessions,
  text_eq_refl id,
)

started-get :
    (up : Bool) (id : SessionId) (m : SessionManager) (entry : SessionEntry)
    → get id m.sessions ≡ some entry
    → get id (started up id m).sessions
      ≡ some (record entry { meta = record entry.meta { status = SessionStatus.connecting } })
started-get up id m entry e = ground (
  arith,
  get-modify id id
      (λ (x : SessionEntry). record x {
        meta = record x.meta { status = SessionStatus.connecting };
      })
      m.sessions,
  text_eq_refl id,
)

-- a window of a session of the listing has the pane
abbrev pub in_windows : Text → List TmuxWindowInfo → Bool
in_windows pane windows = any (λ w. any (λ p. text_eq pane p.id) w.panes) windows

abbrev pub in_listing : Text → List TmuxSessionInfo → Bool
in_listing pane listing = any (λ s. in_windows pane s.windows) listing

any-append :
    (pane : Text) (xs ys : List Text)
    → any (text_eq pane) (xs ++ ys) ≡ (any (text_eq pane) xs || any (text_eq pane) ys)
any-append pane [] ys = refl
any-append pane (x ∷ xs) ys = ground (arith, any-append pane xs ys)

any-panes :
    (pane : Text) (panes : List TmuxPaneInfo)
    → any (text_eq pane) (map (λ p. p.id) panes) ≡ any (λ p. text_eq pane p.id) panes
any-panes pane [] = refl
any-panes pane (p ∷ panes) = ap (λ b. text_eq pane p.id || b) (any-panes pane panes)

any-windows :
    (pane : Text) (windows : List TmuxWindowInfo)
    → any (text_eq pane) (window_pane_ids windows) ≡ in_windows pane windows
unfolding window_pane_ids
any-windows pane [] = refl
any-windows pane (w ∷ windows) =
    any-append pane (map (λ p. p.id) w.panes) (window_pane_ids windows)
    ∙ rw (any-panes pane w.panes) (rw (any-windows pane windows) refl)

any-listing :
    (pane : Text) (listing : List TmuxSessionInfo)
    → any (text_eq pane) (listing_pane_ids listing) ≡ in_listing pane listing
unfolding listing_pane_ids
any-listing pane [] = refl
any-listing pane (s ∷ listing) =
    any-append pane (window_pane_ids s.windows) (listing_pane_ids listing)
    ∙ rw (any-windows pane s.windows) (rw (any-listing pane listing) refl)

-- Connecting a session in memory. If the transport answers with a listing, the reply is the session,
-- marked connected, without an error and with the listing; every pane of the listing is then owned by
-- the session, and every other pane by what owned it. If the transport fails, the reply is its error,
-- the session in memory carries the error, and every pane is owned by what owned it.
pub connect_outcome :
    (up1 up2 : Bool) (id : SessionId) (m : SessionManager) (entry : SessionEntry)
    → get id m.sessions ≡ some entry
    → ((listing : List TmuxSessionInfo)
        → ((connect up1 up2 id (listed listing) m).0
            ≡ ok (record entry.meta {
              status = SessionStatus.connected;
              error = none;
              tmux_sessions = listing;
            }))
          × ((pane : Text)
              → find_session_for_pane pane (connect up1 up2 id (listed listing) m).1
                ≡ (if in_listing pane listing then some id else find_session_for_pane pane m)))
      × ((e : Text)
          → ((connect up1 up2 id (failed e) m).0 ≡ err e)
            × (get_session id (connect up1 up2 id (failed e) m).1
                ≡ some (record entry.meta { status = SessionStatus.error; error = some e }))
            × ((pane : Text)
                → find_session_for_pane pane (connect up1 up2 id (failed e) m).1
                  ≡ find_session_for_pane pane m))
unfolding find_session_for_pane
connect_outcome up1 up2 id m entry known = (
  λ listing. rw (connect-some up1 up2 id (listed listing) m entry known) (
    finish-listed up2 id listing (started up1 id m) _ (started-get up1 id m entry known),
    λ pane.
        finish-listed_find up2 id listing (started up1 id m) pane
        ∙ rw (any-listing pane listing) refl,
  ),
  λ e. rw (connect-some up1 up2 id (failed e) m entry known) (
    unfold connect_finish in refl,
    finish-failed up2 id e (started up1 id m) _ (started-get up1 id m entry known),
    λ pane. unfold connect_finish in refl,
  ),
)

delete-sessions :
    (up : Bool) (id : SessionId) (m : SessionManager) → get id (delete up id m).1.sessions ≡ none
unfolding delete
delete-sessions up id m = ground (arith, get_self-remove id m.sessions)

finish-sessions :
    (up : Bool) (id : SessionId) (listing : List TmuxSessionInfo) (m : SessionManager)
    → get id m.sessions ≡ none
    → get id (connect_finish up id (listed listing) m).1.sessions ≡ none
unfolding connect_finish
finish-sessions up id listing m e =
    ap (λ m'. get id m'.sessions) (reply_session-state id _)
    ∙ (get-modify id id _ m.sessions ∙ rw e (ground arith))

get_session-none :
    (id : SessionId) (m : SessionManager) → get id m.sessions ≡ none → get_session id m ≡ none
unfolding get_session
get_session-none id m e = ground arith

-- The two halves of `connect` with a `delete` of the same session between them, that is while the
-- transport connects: at the end the session is not in memory, and every pane of the listing is
-- routed to it all the same.
pub connect-delete_race :
    (up1 up2 up3 : Bool) (id : SessionId) (listing : List TmuxSessionInfo) (m : SessionManager)
    (pane : Text)
    → any (text_eq pane) (listing_pane_ids listing) ≡ true
    → let deleted = (delete up2 id (connect_start up1 id m).1).1 in
      let after = (connect_finish up3 id (listed listing) deleted).1 in
      (get_session id after ≡ none) × (find_session_for_pane pane after ≡ some id)
connect-delete_race up1 up2 up3 id listing m pane h =
    let deleted = (delete up2 id (connect_start up1 id m).1).1 in
    (
      get_session-none id _ (
          finish-sessions up3 id listing deleted
            (delete-sessions up2 id (connect_start up1 id m).1)),
      finish-listed_find up3 id listing deleted pane ∙ rw h,
    )
