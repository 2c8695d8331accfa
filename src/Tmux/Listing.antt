-- ===== src/Tmux/Listing.antt =====
-- server/src/session/ssh_transport.rs: `parse_pane_listing`, which reads the output of
-- `tmux list-panes` with fields between `|||` into a tree.
pub mod Panes
pub mod Distinct
use oxmux.Prelude.{
  ℕ, zero, suc, ◌^◌, Bool, true, false, List, [], ◌∷◌, ◌++◌, Option, none, some, if◌then◌else◌,
  unwrap_or, is_empty, ◌==◌,
}
use oxmux.Prelude.Text.{
  Text, codes, text_eq, strip_prefix, starts_with, contains_text, split, parse_uint,
}
use oxmux.Ws.Tree.{TmuxPaneInfo, TmuxWindowInfo, TmuxSessionInfo}

-- one trailing carriage return goes
unfoldable pub strip_return : Text → Text
strip_return [] = []
strip_return (c ∷ []) = if c == b'\r' then [] else c ∷ []
strip_return (c ∷ d ∷ s) = c ∷ strip_return (d ∷ s)

-- an empty last part is no line
unfoldable pub as_lines : List Text → List Text
unfolding strip_return
as_lines [] = []
as_lines (part ∷ []) = if is_empty part then [] else strip_return part ∷ []
as_lines (part ∷ next ∷ parts) = strip_return part ∷ as_lines (next ∷ parts)

-- `str::lines`
unfoldable pub lines : Text → List Text
unfolding as_lines
lines s = as_lines (split b'\n' s)

abbrev cons_first : ℕ → List Text → List Text
cons_first c [] = (c ∷ []) ∷ []
cons_first c (w ∷ ws) = (c ∷ w) ∷ ws

-- `split("|||")`; the number is of characters of a separator that are still to skip
unfoldable pub split_fields : ℕ → Text → List Text
unfolding strip_prefix
split_fields k [] = [] ∷ []
split_fields (suc k) (c ∷ s) = split_fields k s
split_fields zero (c ∷ s) =
    let skip = split_fields 2 s in
    let keep = split_fields 0 s in
    if starts_with (codes "|||") (c ∷ s) then [] ∷ skip else cons_first c keep

-- the variables of one round of the loop
pub record Row : Type 0 where
  pub sess_id : Text
  pub sess_name : Text
  pub win_id : Text
  pub win_name : Text
  pub win_index : ℕ
  pub win_layout : Text
  pub pane : TmuxPaneInfo

-- `none` for fewer than twelve parts
unfoldable pub parse_row : List Text → Option Row
parse_row (p0 ∷ p1 ∷ p2 ∷ p3 ∷ p4 ∷ p5 ∷ p6 ∷ p7 ∷ p8 ∷ p9 ∷ p10 ∷ p11 ∷ more) = some (record {
  sess_id = p0;
  sess_name = p1;
  win_id = p2;
  win_name = p3;
  win_index = unwrap_or (parse_uint (2 ^ 64) p4) 0;
  win_layout = p5;
  pane = record {
    id = p6;
    index = unwrap_or (parse_uint (2 ^ 64) p7) 0;
    cols = unwrap_or (parse_uint (2 ^ 16) p8) 80;
    rows = unwrap_or (parse_uint (2 ^ 16) p9) 24;
    current_command = p10;
    is_active = text_eq p11 (codes "1");
    is_claude = contains_text (codes "claude") p10;
  };
})
parse_row _ = none

abbrev pub push_pane : TmuxPaneInfo → TmuxWindowInfo → TmuxWindowInfo
push_pane pane w = record w { panes = w.panes ++ pane ∷ [] }

-- the window of the row is found, or pushed, and gets the pane
unfoldable pub add_to_window : Row → List TmuxWindowInfo → List TmuxWindowInfo
add_to_window row [] =
    record {
      id = row.win_id;
      name = row.win_name;
      index = row.win_index;
      layout = row.win_layout;
      panes = row.pane ∷ [];
    }
    ∷ []
add_to_window row (w ∷ windows) =
    if text_eq w.id row.win_id
    then push_pane row.pane w ∷ windows
    else w ∷ add_to_window row windows

-- the session of the row is found, or pushed
unfoldable pub add_row : Row → List TmuxSessionInfo → List TmuxSessionInfo
unfolding add_to_window
add_row row [] =
    record { id = row.sess_id; name = row.sess_name; windows = add_to_window row [] } ∷ []
add_row row (s ∷ sessions) =
    if text_eq s.id row.sess_id
    then record s { windows = add_to_window row s.windows } ∷ sessions
    else s ∷ add_row row sessions

-- the loop over the lines
unfoldable pub add_lines : List Text → List TmuxSessionInfo → List TmuxSessionInfo
unfolding parse_row split_fields add_row
add_lines [] sessions = sessions
add_lines (line ∷ ls) sessions = elim (parse_row (split_fields 0 line)) [
  | none ↦ add_lines ls sessions
  | some row ↦ add_lines ls (add_row row sessions)
]

unfoldable pub parse_pane_listing : Text → List TmuxSessionInfo
unfolding lines add_lines
parse_pane_listing output = add_lines (lines output) []
