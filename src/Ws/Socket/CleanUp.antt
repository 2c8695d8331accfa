-- ===== src/Ws/Socket/CleanUp.antt =====
-- server/src/ws/handler.rs: what the clean-up leaves.
use oxmux.Prelude.{
  ◌≡◌, ◌≢◌, Bool, true, not, ◌&&◌, List, [], ◌∷◌, Option, none, some, arith, any, Bool-cases, inl,
  inr,
}
use oxmux.Prelude.Text.{Text, text_eq, text_eq_iff, text_eq_refl}
use oxmux.Prelude.Maps.{filter_option}
use oxmux.Result.{Result, ok}
use oxmux.Db.Repo.{Json, Rows}
use oxmux.Session.Types.{SessionId, ManagedSession}
use oxmux.Session.Manager.{SessionManager, load_user_sessions}
use oxmux.Session.Manager.Connect.{disconnect, find_session_for_pane}
use oxmux.Session.Manager.Routes.{IsRouted, routes-dropped}
use oxmux.Session.Manager.Kept.{load-IsRouted, disconnect-IsRouted}
use oxmux.Session.Manager.Reach.{Reach, Reach-IsRouted}
use oxmux.Ws.Socket.{is_connected, disconnect_all, clean_up}

-- the session with this id, and connected
abbrev pub is_up : SessionId → ManagedSession → Bool
is_up id s = text_eq s.id id && is_connected s.status

-- what one disconnect does to the route of a pane
disconnect-find :
    (up : Bool) (id : SessionId) (answer : Result (Unit {0})) (m : SessionManager) (pane : Text)
    → IsRouted m
    → find_session_for_pane pane (disconnect up id answer m).1
      ≡ filter_option (λ sid. not (text_eq sid id)) (find_session_for_pane pane m)
disconnect-find up id answer m pane r = (routes-dropped up id answer m pane r.unique).1

filter-gone :
    (id : SessionId) (o : Option SessionId)
    → filter_option (λ sid. not (text_eq sid id)) o ≢ some id
filter-gone id none h = absurd (cc)
filter-gone id (some sid) h = ground (arith, text_eq_iff sid id, text_eq_refl id)

filter-stays :
    (p : SessionId → Bool) (id : SessionId) (o : Option SessionId)
    → o ≢ some id
    → filter_option p o ≢ some id
filter-stays p id none k h = k h
filter-stays p id (some sid) k h = ground arith

module _ (up : Bool) (answer : SessionId → Result (Unit {0})) (pane : Text) (id : SessionId) where
  -- A pane that does not lead to a session never leads there again.
  stays-gone :
      (sessions : List ManagedSession) (m : SessionManager)
      → IsRouted m
      → find_session_for_pane pane m ≢ some id
      → find_session_for_pane pane (disconnect_all up answer sessions m) ≢ some id
  unfolding disconnect_all
  stays-gone [] m r k = k
  stays-gone (s ∷ sessions) m r k = elim (Bool-cases (is_connected s.status)) [
    | inr off ↦ rw off (stays-gone sessions m r k)
    | inl on ↦ rw on (
        stays-gone sessions (disconnect up s.id (answer s.id) m).1
          (disconnect-IsRouted up s.id (answer s.id) r)
          (rw (disconnect-find up s.id (answer s.id) m pane r)
            (filter-stays (λ sid. not (text_eq sid s.id)) id (find_session_for_pane pane m) k)))
  ]

  one-gone :
      (sid : SessionId) (m : SessionManager)
      → IsRouted m
      → text_eq sid id ≡ true
      → find_session_for_pane pane (disconnect up sid (answer sid) m).1 ≢ some id
  one-gone sid m r same =
      rw (disconnect-find up sid (answer sid) m pane r)
        (rw ((text_eq_iff sid id).0 same) (filter-gone id (find_session_for_pane pane m)))

  disconnect_all-gone :
      (sessions : List ManagedSession) (m : SessionManager)
      → IsRouted m
      → any (is_up id) sessions ≡ true
      → find_session_for_pane pane (disconnect_all up answer sessions m) ≢ some id
  unfolding disconnect_all
  disconnect_all-gone [] m r h = absurd (cc)
  disconnect_all-gone (s ∷ sessions) m r h =
      let next = (disconnect up s.id (answer s.id) m).1 in
      let routed = disconnect-IsRouted up s.id (answer s.id) r in
      elim (Bool-cases (is_connected s.status)) [
        | inr off ↦ rw off (disconnect_all-gone sessions m r (ground arith))
        | inl on ↦ elim (Bool-cases (text_eq s.id id)) [
          | inl same ↦ rw on (stays-gone sessions next routed (one-gone s.id m r same))
          | inr different ↦ rw on (disconnect_all-gone sessions next routed (ground arith))
        ]
      ]

-- When the socket's loop has ended and the sessions of the user could be loaded: whatever the
-- transports and the database answer to the clean-up, no pane leads any longer to a session that was
-- connected.
pub clean_up-disconnects :
    (json : Json) (db : Rows) (m : SessionManager) (up1 up2 : Bool) (user_id pane : Text)
    (id : SessionId) (answer : SessionId → Result (Unit {0})) (sessions : List ManagedSession)
    → Reach json db m
    → (load_user_sessions json up1 user_id m).0 ≡ ok sessions
    → any (is_up id) sessions ≡ true
    → find_session_for_pane pane (clean_up json up1 up2 user_id answer m) ≢ some id
unfolding clean_up
clean_up-disconnects json db m up1 up2 user_id pane id answer sessions r e h = rw e (
    disconnect_all-gone up2 answer pane id sessions (load_user_sessions json up1 user_id m).1
      (load-IsRouted json up1 user_id (Reach-IsRouted json db r)) h)
