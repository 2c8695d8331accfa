-- ===== src/Session/Manager/Routed.antt =====
-- server/src/session/manager.rs: changes of the two maps, and the routes of panes.
use mathlib.Core.Path.{subst}
use oxmux.Prelude.{◌≡◌, refl, sym, true, not, List, [], ◌∷◌, Option, arith}
use oxmux.Prelude.Text.{Text, text_eq, text_eq_iff}
use oxmux.Prelude.Maps.{
  Map, insert, remove, modify, contains_key, AllValues, IsUnique, AllValues-insert,
  AllValues-retain, AllValues-map, get-insert, get-remove, get-modify, IsUnique-retain,
  IsUnique-insert,
}
use oxmux.Db.Repo.{Rows}
use oxmux.Ws.Tree.{TmuxSessionInfo}
use oxmux.Session.Types.{SessionId, ManagedSession, SecretString}
use oxmux.Session.Manager.{SessionEntry, SessionManager, set_meta, drop_routes, reply_session}
use oxmux.Session.Manager.Connect.{route_panes, listing_pane_ids, add_routes}
use oxmux.Session.Manager.Routes.{IsLive, IsRouted, reply_session-state}

-- The sessions in memory after `m` include those before.
abbrev Keeps : Map SessionEntry → Map SessionEntry → Type 0
Keeps before after = (id : SessionId) → contains_key id before ≡ true → contains_key id after ≡ true

pub IsRouted-more :
    {m : SessionManager} (m' : SessionManager)
    → Keeps m.sessions m'.sessions
    → m'.pane_to_session ≡ m.pane_to_session
    → IsRouted m
    → IsRouted m'
IsRouted-more {m} m' keeps same h = record {
  live =
      rw same
        (AllValues-map (IsLive m.sessions) (IsLive m'.sessions) keeps m.pane_to_session h.live);
  unique = rw same h.unique;
}

pub Keeps-insert :
    (id : SessionId) (entry : SessionEntry) (sessions : Map SessionEntry)
    → Keeps sessions (insert id entry sessions)
Keeps-insert id entry sessions j h = rw (get-insert id j entry sessions) (ground arith)

pub Keeps-modify :
    (id : SessionId) (f : SessionEntry → SessionEntry) (sessions : Map SessionEntry)
    → Keeps sessions (modify id f sessions)
Keeps-modify id f sessions j h = rw (get-modify id j f sessions) (ground arith)

pub IsRouted-set_meta :
    (id : SessionId) (f : ManagedSession → ManagedSession) {m : SessionManager}
    → IsRouted m
    → IsRouted (set_meta id f m)
IsRouted-set_meta id f {m} = IsRouted-more (set_meta id f m) (Keeps-modify id _ m.sessions) refl

pub IsRouted-store : (db : Rows) {m : SessionManager} → IsRouted m → IsRouted (record m { db = db })
IsRouted-store db h = record { live = h.live; unique = h.unique }

route_panes-AllValues :
    (P : SessionId → Type 0) (id : SessionId) (panes : List Text) (routes : Map SessionId)
    → P id
    → AllValues P routes
    → AllValues P (route_panes id panes routes)
unfolding route_panes
route_panes-AllValues P id [] routes p h = h
route_panes-AllValues P id (pane ∷ panes) routes p h =
    route_panes-AllValues P id panes (insert pane id routes) p
      (AllValues-insert P pane id routes p h)

route_panes-IsUnique :
    (id : SessionId) (panes : List Text) (routes : Map SessionId)
    → IsUnique routes
    → IsUnique (route_panes id panes routes)
unfolding route_panes
route_panes-IsUnique id [] routes u = u
route_panes-IsUnique id (pane ∷ panes) routes u =
    route_panes-IsUnique id panes (insert pane id routes) (IsUnique-insert pane id routes u)

pub IsRouted-add_routes :
    (id : SessionId) (listing : List TmuxSessionInfo) {m : SessionManager}
    → contains_key id m.sessions ≡ true
    → IsRouted m
    → IsRouted (add_routes id listing m)
IsRouted-add_routes id listing {m} known h = record {
  live =
      route_panes-AllValues (IsLive m.sessions) id (listing_pane_ids listing) m.pane_to_session
        known h.live;
  unique = route_panes-IsUnique id (listing_pane_ids listing) m.pane_to_session h.unique;
}

pub IsRouted-drop_routes :
    (id : SessionId) {m : SessionManager} → IsRouted m → IsRouted (drop_routes id m)
unfolding drop_routes
IsRouted-drop_routes id {m} h = record {
  live =
      AllValues-retain (IsLive m.sessions) (IsLive m.sessions) _ (λ v kept p. p) m.pane_to_session
        h.live;
  unique = IsUnique-retain _ m.pane_to_session h.unique;
}

-- a session goes after its routes
IsLive-remove :
    (id : SessionId) (sessions : Map SessionEntry) (sid : SessionId)
    → not (text_eq sid id) ≡ true
    → IsLive sessions sid
    → IsLive (remove id sessions) sid
IsLive-remove id sessions sid kept h =
    rw (get-remove id sid sessions) (ground (arith, text_eq_iff sid id, text_eq_iff id sid))

pub IsRouted-remove :
    (id : SessionId) (keys : Map (SecretString × Option SecretString)) {m : SessionManager}
    → IsRouted m
    → IsRouted
        (record (drop_routes id m) { sessions = remove id m.sessions; ephemeral_keys = keys })
unfolding drop_routes
IsRouted-remove id keys {m} h = record {
  live =
      AllValues-retain (IsLive m.sessions) (IsLive (remove id m.sessions)) _
        (IsLive-remove id m.sessions) m.pane_to_session h.live;
  unique = IsUnique-retain _ m.pane_to_session h.unique;
}

pub IsRouted-reply :
    (id : SessionId) {m : SessionManager} → IsRouted m → IsRouted (reply_session id m).1
IsRouted-reply id {m} h = subst IsRouted (sym (reply_session-state id m)) h
