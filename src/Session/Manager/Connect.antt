-- ===== src/Session/Manager/Connect.antt =====
-- server/src/session/manager.rs: connecting, disconnecting, and the routing of panes. What the
-- transport answers is an argument of each method.
use oxmux.Prelude.{Bool, List, [], ◌∷◌, ◌++◌, Option, none, some, ℕ, ◌≡◌, arith}
use oxmux.Prelude.Text.{Text, codes}
use oxmux.Prelude.Maps.{Map, get, insert}
use oxmux.Result.{Result, ok, err}
use oxmux.Ws.Tree.{TmuxPaneInfo, TmuxWindowInfo, TmuxSessionInfo}
use oxmux.Session.Types.{SessionId, SessionStatus, ManagedSession}
use oxmux.Session.Manager.{
  Transport, SessionEntry, SessionManager, Reply, not_found, set_meta, store_status, reply_session,
  drop_routes,
}

-- the panes of a listing, in the order of the three loops
unfoldable pub pane_ids : List TmuxPaneInfo → List Text
pane_ids [] = []
pane_ids (p ∷ panes) = p.id ∷ pane_ids panes

unfoldable pub window_pane_ids : List TmuxWindowInfo → List Text
unfolding pane_ids
window_pane_ids [] = []
window_pane_ids (w ∷ windows) = pane_ids w.panes ++ window_pane_ids windows

unfoldable pub listing_pane_ids : List TmuxSessionInfo → List Text
unfolding window_pane_ids
listing_pane_ids [] = []
listing_pane_ids (s ∷ sessions) = window_pane_ids s.windows ++ listing_pane_ids sessions

-- the inserts into `pane_to_session`
unfoldable pub route_panes : SessionId → List Text → Map SessionId → Map SessionId
route_panes id [] routes = routes
route_panes id (pane ∷ panes) routes = route_panes id panes (insert pane id routes)

-- What a transport answers to `connect`: an error, or the listing that it then gives
-- (`unwrap_or_default`).
pub data Connected : Type 0 where
  listed : List TmuxSessionInfo → Connected
  failed : Text → Connected

-- `connect` up to the call of the transport
unfoldable pub connect_start : Bool → SessionId → SessionManager → Result Transport × SessionManager
connect_start up id m = elim (get id m.sessions) [
  | none ↦ (err (not_found id), m)
  | some entry ↦ (
    ok entry.transport,
    store_status up id (codes "connecting") none
        (set_meta id (λ meta. record meta { status = SessionStatus.connecting }) m),
  )
]

abbrev pub mark_connected : List TmuxSessionInfo → ManagedSession → ManagedSession
mark_connected listing meta = record meta {
  status = SessionStatus.connected;
  error = none;
  tmux_sessions = listing;
}

abbrev pub mark_failed : Text → ManagedSession → ManagedSession
mark_failed e meta = record meta { status = SessionStatus.error; error = some e }

abbrev pub add_routes : SessionId → List TmuxSessionInfo → SessionManager → SessionManager
add_routes id listing m = record m {
  pane_to_session = route_panes id (listing_pane_ids listing) m.pane_to_session;
}

-- `connect` from the answer of the transport on; the session may have gone in between
unfoldable pub connect_finish : Bool → SessionId → Connected → SessionManager → Reply
connect_finish up id (listed listing) m = reply_session id (
    store_status up id (codes "connected") none
      (set_meta id (mark_connected listing) (add_routes id listing m)))
connect_finish up id (failed e) m =
    (err e, store_status up id (codes "error") (some e) (set_meta id (mark_failed e) m))

-- `connect` with nothing in between
unfoldable pub connect : Bool → Bool → SessionId → Connected → SessionManager → Reply
unfolding connect_start
connect up1 up2 id answer m =
    let (started, m1) = connect_start up1 id m in
    elim started [ err e ↦ (err e, m1) | ok _ ↦ connect_finish up2 id answer m1 ]

-- the state in which the transport is called
abbrev pub started : Bool → SessionId → SessionManager → SessionManager
started up id m =
    store_status up id (codes "connecting") none
      (set_meta id (λ meta. record meta { status = SessionStatus.connecting }) m)

pub connect-none :
    (up1 up2 : Bool) (id : SessionId) (answer : Connected) (m : SessionManager)
    → get id m.sessions ≡ none
    → connect up1 up2 id answer m ≡ (err (not_found id), m)
unfolding connect_start connect
connect-none up1 up2 id answer m e = ground arith

pub connect-some :
    (up1 up2 : Bool) (id : SessionId) (answer : Connected) (m : SessionManager)
    (entry : SessionEntry)
    → get id m.sessions ≡ some entry
    → connect up1 up2 id answer m ≡ connect_finish up2 id answer (started up1 id m)
unfolding connect_start connect
connect-some up1 up2 id answer m entry e = ground arith

abbrev pub mark_disconnected : ManagedSession → ManagedSession
mark_disconnected meta = record meta { status = SessionStatus.disconnected; tmux_sessions = [] }

-- The routes go first, whatever follows. `answer` is that of `transport.disconnect`.
unfoldable pub disconnect : Bool → SessionId → Result (Unit {0}) → SessionManager → Reply
unfolding drop_routes
disconnect up id answer m =
    let m1 = drop_routes id m in
    elim (get id m.sessions) [
      | none ↦ (err (not_found id), m1)
      | some entry ↦ elim answer [
        | err e ↦ (err e, m1)
        | ok _ ↦
            reply_session id
              (store_status up id (codes "disconnected") none (set_meta id mark_disconnected m1))
      ]
    ]

unfoldable pub find_session_for_pane : Text → SessionManager → Option SessionId
find_session_for_pane pane m = get pane m.pane_to_session

abbrev pub no_owner : Text → Text
no_owner pane = codes "no session owns pane '" ++ (pane ++ codes "'")

-- the transport that a call on a pane goes to
unfoldable pub pane_transport : Text → SessionManager → Result Transport
unfolding find_session_for_pane
pane_transport pane m = elim (find_session_for_pane pane m) [
  | none ↦ err (no_owner pane)
  | some id ↦ elim (get id m.sessions) [
    | none ↦ err (not_found id)
    | some entry ↦ ok entry.transport
  ]
]

-- `send` is the transport's method.
unfoldable pub send_input_to_pane :
    (Transport → Text → List ℕ → Result (Unit {0}))
    → Text
    → List ℕ
    → SessionManager
    → Result (Unit {0})
unfolding pane_transport
send_input_to_pane send pane bytes m = elim (pane_transport pane m) [
  | err e ↦ err e
  | ok transport ↦ send transport pane bytes
]

unfoldable pub resize_pane :
    (Transport → Text → ℕ → ℕ → Result (Unit {0}))
    → Text
    → ℕ
    → ℕ
    → SessionManager
    → Result (Unit {0})
unfolding pane_transport
resize_pane resize pane cols rows m = elim (pane_transport pane m) [
  | err e ↦ err e
  | ok transport ↦ resize transport pane cols rows
]

-- `answer` is that of `list_tmux_sessions`.
unfoldable pub refresh_tmux_state :
    SessionId → Result (List TmuxSessionInfo) → SessionManager → Reply
refresh_tmux_state id answer m = elim (get id m.sessions) [
  | none ↦ (err (not_found id), m)
  | some entry ↦ elim answer [
    | err e ↦ (err e, m)
    | ok listing ↦
        reply_session id
          (set_meta id (λ meta. record meta { tmux_sessions = listing }) (add_routes id listing m))
  ]
]
