-- ===== src/Agent/Tmux.antt =====
-- agent/src/tmux_manager.rs: the agent's own calls of tmux. Running a program and the directory /tmp
-- are parameters; of a program that runs, whether it succeeds and its output come back.
pub mod Socket
use oxmux.Prelude.{
  ℕ, zero, suc, ◌+◌, ◌-◌, ◌^◌, ◌==◌, Bool, true, false, List, [], ◌∷◌, ◌++◌, Option, none, some,
  leb, ltb, if◌then◌else◌, unwrap_or, map, is_some,
}
use oxmux.Prelude.Text.{
  Text, codes, text_eq, strip_prefix, starts_with, contains_text, parse_uint, trim,
}
use oxmux.Prelude.Decimal.{show}
use oxmux.Prelude.Maps.{Map, get, insert}
use oxmux.Result.{Result, ok, err, is_ok}
use oxmux.Ws.Tree.{TmuxPaneInfo, TmuxWindowInfo, TmuxSessionInfo}
use oxmux.Tmux.Listing.{lines, split_fields}
use oxmux.Agent.Commands.{hex_spaced}
use oxmux.Session.Transports.Local.{Ran, succeeded}

pub record PaneInfo : Type 0 where
  pub session_id : Text
  pub session_name : Text
  pub window_id : Text
  pub window_name : Text
  pub window_index : ℕ
  pub layout : Text
  pub pane_id : Text
  pub pane_index : ℕ
  pub cols : ℕ
  pub rows : ℕ
  pub current_command : Text
  pub is_active : Bool
  pub is_claude : Bool

-- a socket with the user id in its directory's name
abbrev pub FoundSocket : Type 0
FoundSocket = ℕ × Text

-- the socket under a name of /tmp, if there is one
unfoldable pub socket_at : (Text → Bool) → Text → Option FoundSocket
unfolding strip_prefix parse_uint
socket_at exists name = elim (strip_prefix (codes "tmux-") name) [
  | none ↦ none
  | some uid ↦
      let sock = codes "/tmp/" ++ (name ++ codes "/default") in
      if exists sock then some (unwrap_or (parse_uint (2 ^ 32) uid) 0, sock) else none
]

unfoldable pub sockets_in : (Text → Bool) → List Text → List FoundSocket
unfolding socket_at
sockets_in exists [] = []
sockets_in exists (name ∷ names) = elim (socket_at exists name) [
  | none ↦ sockets_in exists names
  | some s ↦ s ∷ sockets_in exists names
]

-- root's socket is the last
abbrev pub rank : FoundSocket → ℕ
rank s = if s.0 == 0 then 2 ^ 32 - 1 else s.0

-- `sort_by_key`, which is stable
unfoldable pub insert_by_rank : FoundSocket → List FoundSocket → List FoundSocket
insert_by_rank s [] = s ∷ []
insert_by_rank s (r ∷ rs) = if leb (rank s) (rank r) then s ∷ r ∷ rs else r ∷ insert_by_rank s rs

unfoldable pub sort_by_rank : List FoundSocket → List FoundSocket
unfolding insert_by_rank
sort_by_rank [] = []
sort_by_rank (s ∷ ss) = insert_by_rank s (sort_by_rank ss)

abbrev pub first_socket : List FoundSocket → Option Text
first_socket [] = none
first_socket (s ∷ ss) = some s.1

-- `names`: the entries of /tmp, none when it cannot be read; the same code stands in both files
unfoldable pub find_socket : (Text → Bool) → List Text → Option Text
unfolding sockets_in sort_by_rank
find_socket exists names = first_socket (sort_by_rank (sockets_in exists names))

-- the program and its first arguments
abbrev pub tmux_cmd : Option Text → List Text
tmux_cmd none = codes "tmux" ∷ []
tmux_cmd (some sock) = codes "tmux" ∷ codes "-S" ∷ sock ∷ []

-- `none` for fewer than twelve parts
unfoldable pub parse_pane : List Text → Option PaneInfo
unfolding parse_uint contains_text
parse_pane (p0 ∷ p1 ∷ p2 ∷ p3 ∷ p4 ∷ p5 ∷ p6 ∷ p7 ∷ p8 ∷ p9 ∷ p10 ∷ p11 ∷ more) = some (record {
  session_id = p0;
  session_name = p1;
  window_id = p2;
  window_name = p3;
  window_index = unwrap_or (parse_uint (2 ^ 64) p4) 0;
  layout = p5;
  pane_id = p6;
  pane_index = unwrap_or (parse_uint (2 ^ 64) p7) 0;
  cols = unwrap_or (parse_uint (2 ^ 16) p8) 80;
  rows = unwrap_or (parse_uint (2 ^ 16) p9) 24;
  current_command = p10;
  is_active = text_eq p11 (codes "1");
  is_claude = contains_text (codes "claude") p10;
})
parse_pane _ = none

-- the loop of `list_panes`
unfoldable pub parse_panes : List Text → List PaneInfo
unfolding parse_pane split_fields
parse_panes [] = []
parse_panes (line ∷ ls) = elim (parse_pane (split_fields 0 line)) [
  | none ↦ parse_panes ls
  | some pane ↦ pane ∷ parse_panes ls
]

abbrev pub panes_of : Ran → Result (List PaneInfo)
panes_of none = err (codes "failed to run tmux list-panes")
panes_of (some (false, out)) = err (codes "tmux list-panes failed")
panes_of (some (true, out)) = ok (parse_panes (lines out))

abbrev pane_format : Text
pane_format =
    codes "#{session_id}|||#{session_name}|||#{window_id}|||#{window_name}|||#{window_index}|||"
    ++ (codes "#{window_layout}|||#{pane_id}|||#{pane_index}|||#{pane_width}|||#{pane_height}|||"
        ++ codes "#{pane_current_command}|||#{pane_active}")

abbrev ran_at_all : Ran → Text → Result (Unit {0})
ran_at_all none message = err message
ran_at_all (some answer) message = ok tt

-- `sock` is what `find_socket` gives
module _ {World : Type 0} (run : List Text → World → Ran × World) (sock : Option Text) where
  abbrev tmux : List Text → World → Ran × World
  tmux args w = run (tmux_cmd sock ++ args) w

  abbrev created : Ran → Result (Unit {0})
  created none = err (codes "failed to spawn tmux new-session")
  created (some (false, out)) = err (codes "tmux new-session failed")
  created (some (true, out)) = ok tt

  unfoldable pub ensure_session : Text → World → Result (Unit {0}) × World
  ensure_session name w =
      let (check, w1) = tmux (codes "has-session" ∷ codes "-t" ∷ name ∷ []) w in
      let (made, w2) =
        tmux
          (codes "new-session"
            ∷ codes "-d"
            ∷ codes "-s"
            ∷ name
            ∷ codes "-x"
            ∷ codes "80"
            ∷ codes "-y"
            ∷ codes "24"
            ∷ [])
          w1 in
      if succeeded check then (ok tt, w1) else (created made, w2)

  unfoldable pub list_panes : Text → World → Result (List PaneInfo) × World
  unfolding parse_panes lines
  list_panes session_name w =
      let (ran, w1) =
        tmux
          (codes "list-panes"
            ∷ codes "-t"
            ∷ session_name
            ∷ codes "-s"
            ∷ codes "-F"
            ∷ pane_format
            ∷ [])
          w in
      (panes_of ran, w1)

  unfoldable pub send_input : Text → List ℕ → World → Result (Unit {0}) × World
  unfolding hex_spaced
  send_input pane_id bytes w =
      let (ran, w1) =
        tmux (codes "send-keys" ∷ codes "-t" ∷ pane_id ∷ codes "-H" ∷ trim (hex_spaced bytes) ∷ [])
          w in
      (ran_at_all ran (codes "failed to run tmux send-keys"), w1)

  abbrev sized : Text → Text → (cols rows : ℕ) → List Text
  sized command pane_id cols rows =
      command ∷ codes "-t" ∷ pane_id ∷ codes "-x" ∷ show cols ∷ codes "-y" ∷ show rows ∷ []

  -- the window, then the pane, unless the first does not start
  unfoldable pub resize_pane : Text → (cols rows : ℕ) → World → Result (Unit {0}) × World
  resize_pane pane_id cols rows w =
      let (ran, w1) = tmux (sized (codes "resize-window") pane_id cols rows) w in
      let (ran2, w2) = tmux (sized (codes "resize-pane") pane_id cols rows) w1 in
      if is_some ran
      then (ran_at_all ran2 (codes "failed to run tmux resize-pane"), w2)
      else (err (codes "failed to run tmux resize-window"), w1)

-- the channel of a pane, by its number, and the map; `made` is the number of a new one
unfoldable pub get_or_create_pane_channel : ℕ → Text → Map ℕ → ℕ × Map ℕ
get_or_create_pane_channel made pane_id channels = elim (get pane_id channels) [
  | none ↦ (made, insert pane_id made channels)
  | some channel ↦ (channel, channels)
]
