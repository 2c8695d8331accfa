-- ===== src/Session/Manager/Routes.antt =====
-- server/src/session/manager.rs: the routes of panes to sessions, over every method.
use oxmux.Prelude.{◌≡◌, ap, ◌∙◌, Bool, true, false, not, arith}
use oxmux.Prelude.Text.{Text, text_eq}
use oxmux.Prelude.Maps.{
  Map, get, contains_key, filter_option, AllValues, IsUnique, get-retain, IsUnique-retain,
}
use oxmux.Result.{Result}
use oxmux.Session.Types.{SessionId}
use oxmux.Session.Manager.{SessionEntry, SessionManager, drop_routes, delete, reply_session}
use oxmux.Session.Manager.Connect.{disconnect, find_session_for_pane}

-- A route of this manager leads to a session in memory.
abbrev pub IsLive : Map SessionEntry → SessionId → Type 0
IsLive sessions id = contains_key id sessions ≡ true

-- Every route leads to a session in memory, and no pane has two.
pub record IsRouted (m : SessionManager) : Type 0 where
  pub live : AllValues (IsLive m.sessions) m.pane_to_session
  pub unique : IsUnique m.pane_to_session

keeps_other : (id sid : SessionId) → not (text_eq sid id) ≡ true → text_eq sid id ≡ false
keeps_other id sid h = ground arith

drop_routes-IsUnique :
    (id : SessionId) (m : SessionManager)
    → IsUnique m.pane_to_session
    → IsUnique (drop_routes id m).pane_to_session
unfolding drop_routes
drop_routes-IsUnique id m u = IsUnique-retain _ m.pane_to_session u

-- the routes that are left, in terms of the routes before
drop_routes-find :
    (id : SessionId) (m : SessionManager) (pane : Text)
    → IsUnique m.pane_to_session
    → find_session_for_pane pane (drop_routes id m)
      ≡ filter_option (λ sid. not (text_eq sid id)) (find_session_for_pane pane m)
unfolding drop_routes find_session_for_pane
drop_routes-find id m pane u = get-retain _ pane m.pane_to_session u

delete-routes :
    (up : Bool) (id : SessionId) (m : SessionManager)
    → (delete up id m).1.pane_to_session ≡ (drop_routes id m).pane_to_session
unfolding delete
delete-routes up id m = ground arith

pub reply_session-state : (id : SessionId) (m : SessionManager) → (reply_session id m).1 ≡ m
unfolding reply_session
reply_session-state id m = ground arith

disconnect-routes :
    (up : Bool) (id : SessionId) (answer : Result (Unit {0})) (m : SessionManager)
    → (disconnect up id answer m).1.pane_to_session ≡ (drop_routes id m).pane_to_session
unfolding disconnect reply_session
disconnect-routes up id answer m = ground arith

-- Deleting or disconnecting a session, whether it succeeds or fails, takes away exactly the routes
-- of this session: the panes that led to it lead nowhere, and every other pane leads where it led.
pub routes-dropped :
    (up : Bool) (id : SessionId) (answer : Result (Unit {0})) (m : SessionManager) (pane : Text)
    → IsUnique m.pane_to_session
    → let left = filter_option (λ sid. not (text_eq sid id)) (find_session_for_pane pane m) in
      (find_session_for_pane pane (delete up id m).1 ≡ left)
      × (find_session_for_pane pane (disconnect up id answer m).1 ≡ left)
unfolding find_session_for_pane
routes-dropped up id answer m pane u =
    let dropped = drop_routes-find id m pane u in
    (
      ap (get pane) (delete-routes up id m) ∙ dropped,
      ap (get pane) (disconnect-routes up id answer m) ∙ dropped,
    )
