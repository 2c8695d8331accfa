-- ===== src/Session/Transports/Local.antt =====
-- server/src/session/local.rs: tmux on the server's own host. Running a program is a parameter: `none` when it
-- cannot be started, else whether it succeeded, and its output, after `from_utf8_lossy`. The blocking
-- tasks do not panic.
use oxmux.Prelude.{
  ℕ, ◌+◌, Bool, true, false, List, [], ◌∷◌, ◌++◌, Option, none, some, if◌then◌else◌, length,
}
use oxmux.Prelude.Text.{Text, codes, split}
use oxmux.Prelude.Decimal.{show}
use oxmux.Prelude.Maps.{Map, get}
use oxmux.Result.{Result, ok, err}
use oxmux.Ws.Tree.{TmuxSessionInfo}
use oxmux.Tmux.Listing.{lines, parse_row, add_row}
use oxmux.Session.Manager.Connect.{listing_pane_ids}
use oxmux.Session.Transports.{TransportStatus, connecting, add_channels}

pub record LocalTransport : Type 0 where
  pub session_name : Text
  pub status : TransportStatus
  pub pane_channels : Map ℕ
  pub tmux_state : List TmuxSessionInfo
  -- how many channels have been made
  pub made : ℕ

unfoldable pub new : Text → LocalTransport
new session_name = record {
  session_name = session_name;
  status = TransportStatus.disconnected;
  pane_channels = [];
  tmux_state = [];
  made = 0;
}

abbrev pub Ran : Type 0
Ran = Option (Bool × Text)

abbrev pub succeeded : Ran → Bool
succeeded none = false
succeeded (some (success, out)) = success

-- the loop over the lines of the listing, with tabs between the fields
unfoldable pub add_tab_lines : List Text → List TmuxSessionInfo → List TmuxSessionInfo
unfolding parse_row add_row
add_tab_lines [] sessions = sessions
add_tab_lines (line ∷ ls) sessions = elim (parse_row (split b'\t' line)) [
  | none ↦ add_tab_lines ls sessions
  | some row ↦ add_tab_lines ls (add_row row sessions)
]

abbrev pub tmux_format : Text
tmux_format =
    codes "#{session_id}\t#{session_name}\t#{window_id}\t#{window_name}\t#{window_index}\t"
    ++ codes "#{window_layout}\t#{pane_id}\t#{pane_index}\t#{pane_width}\t#{pane_height}\t"
    ++ codes "#{pane_current_command}\t#{pane_active}"

abbrev pub listing_of : Ran → Result (List TmuxSessionInfo)
listing_of none = err (codes "failed to run tmux list-panes")
listing_of (some (false, out)) = err (codes "tmux list-panes failed")
listing_of (some (true, out)) = ok (add_tab_lines (lines out) [])

abbrev pub created : Ran → Result (Unit {0})
created none = err (codes "failed to spawn tmux new-session")
created (some (false, out)) = err (codes "tmux new-session exited")
created (some (true, out)) = ok tt

-- the channels of the listed panes, and the rest of a connection that has come so far
abbrev pub with_listing : List TmuxSessionInfo → LocalTransport → LocalTransport
with_listing listing t = record t {
  status = TransportStatus.connected;
  pane_channels = add_channels t.made (listing_pane_ids listing) t.pane_channels;
  tmux_state = listing;
  made = t.made + length (listing_pane_ids listing);
}

module _ {World : Type 0} (run : List Text → World → Ran × World) where
  unfoldable pub ensure_session : Text → World → Result (Unit {0}) × World
  ensure_session name w =
      let (check, w1) = run (codes "tmux" ∷ codes "has-session" ∷ codes "-t" ∷ name ∷ []) w in
      let (made, w2) =
        run
          (codes "tmux"
            ∷ codes "new-session"
            ∷ codes "-d"
            ∷ codes "-s"
            ∷ name
            ∷ codes "-x"
            ∷ codes "80"
            ∷ codes "-y"
            ∷ codes "24"
            ∷ [])
          w1 in
      if succeeded check then (ok tt, w1) else (created made, w2)

  unfoldable pub query_tmux_state : Text → World → Result (List TmuxSessionInfo) × World
  unfolding add_tab_lines lines
  query_tmux_state name w =
      let (ran, w1) =
        run
          (codes "tmux"
            ∷ codes "list-panes"
            ∷ codes "-t"
            ∷ name
            ∷ codes "-a"
            ∷ codes "-F"
            ∷ tmux_format
            ∷ [])
          w in
      (listing_of ran, w1)

  unfoldable pub connect : LocalTransport → World → Result (Unit {0}) × LocalTransport × World
  unfolding ensure_session query_tmux_state
  connect t w =
      let t1 = record t { status = connecting } in
      let (ensured, w1) = ensure_session t.session_name w in
      let (listed, w2) = query_tmux_state t.session_name w1 in
      elim ensured [
        | err e ↦ (err e, t1, w1)
        | ok u ↦ elim listed [
          | err e ↦ (err e, t1, w2)
          | ok listing ↦ (ok tt, with_listing listing t1, w2)
        ]
      ]

  unfoldable pub list_tmux_sessions :
      LocalTransport → World → Result (List TmuxSessionInfo) × LocalTransport × World
  unfolding query_tmux_state
  list_tmux_sessions t w =
      let (listed, w1) = query_tmux_state t.session_name w in
      elim listed [
        | err e ↦ (err e, t, w1)
        | ok listing ↦ (ok listing, record t { tmux_state = listing }, w1)
      ]

  -- `text` is the data after `from_utf8_lossy`
  unfoldable pub send_input : (pane_id text : Text) → World → Result (Unit {0}) × World
  send_input pane_id text w =
      let (ran, w1) =
        run (codes "tmux" ∷ codes "send-keys" ∷ codes "-t" ∷ pane_id ∷ codes "-l" ∷ text ∷ []) w in
      elim ran [
        | none ↦ (err (codes "failed to run tmux send-keys"), w1)
        | some (success, out) ↦ (if success then ok tt else err (codes "tmux send-keys exited"), w1)
      ]

  -- The exit status is not looked at.
  unfoldable pub resize_pane : Text → (cols rows : ℕ) → World → Result (Unit {0}) × World
  resize_pane pane_id cols rows w =
      let (ran, w1) =
        run
          (codes "tmux"
            ∷ codes "resize-pane"
            ∷ codes "-t"
            ∷ pane_id
            ∷ codes "-x"
            ∷ show cols
            ∷ codes "-y"
            ∷ show rows
            ∷ [])
          w in
      elim ran [ none ↦ (err (codes "failed to run tmux resize-pane"), w1) | some r ↦ (ok tt, w1) ]

  unfoldable pub run_tmux_command : Text → World → Result Text × World
  run_tmux_command cmd w =
      let (ran, w1) = run (codes "sh" ∷ codes "-c" ∷ (codes "tmux " ++ cmd) ∷ []) w in
      elim ran [
        | none ↦ (err (codes "failed to run tmux command"), w1)
        | some (success, out) ↦ (ok out, w1)
      ]

unfoldable pub disconnect : LocalTransport → LocalTransport
disconnect t = record t { status = TransportStatus.disconnected; pane_channels = [] }

unfoldable pub subscribe_output : Text → LocalTransport → Option ℕ
subscribe_output pane_id t = get pane_id t.pane_channels
