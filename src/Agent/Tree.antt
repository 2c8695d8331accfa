-- ===== src/Agent/Tree.antt =====
-- agent/src/quic/server.rs: `build_window_tree`, and what `sess_connected` tells the client.
pub mod SameTree
pub mod Sorted
pub mod Windows
use oxmux.Prelude.{
  ℕ, zero, suc, ◌+◌, ◌-◌, ◌^◌, ◌==◌, Bool, true, false, List, [], ◌∷◌, ◌++◌, Option, none, some,
  leb, ltb, if◌then◌else◌, unwrap_or, map, is_some,
}
use oxmux.Prelude.Text.{
  Text, codes, text_eq, strip_prefix, starts_with, contains_text, parse_uint, trim,
}
use oxmux.Prelude.Decimal.{show}
use oxmux.Prelude.Maps.{Map, get, insert}
use oxmux.Result.{Result, ok, err, is_ok}
use oxmux.Ws.Tree.{TmuxPaneInfo, TmuxWindowInfo, TmuxSessionInfo}
use oxmux.Tmux.Listing.{lines, split_fields}
use oxmux.Agent.Commands.{hex_spaced}
use oxmux.Session.Transports.Local.{Ran, succeeded}
use oxmux.Agent.Tmux.{PaneInfo}

-- the order of `String`
unfoldable pub text_lt : Text → Text → Bool
text_lt s [] = false
text_lt [] (d ∷ t) = true
text_lt (c ∷ s) (d ∷ t) = let rest = text_lt s t in if c == d then rest else ltb c d

-- the panes of the windows, in a `BTreeMap`
abbrev pub Windows : Type 0
Windows = List (Text × List PaneInfo)

-- `entry(…).or_default().push(pane)`
unfoldable pub push_pane : PaneInfo → Windows → Windows
unfolding text_lt
push_pane p [] = (p.window_id, p ∷ []) ∷ []
push_pane p ((wid, ps) ∷ windows) =
    if text_eq wid p.window_id
    then (wid, ps ++ p ∷ []) ∷ windows
    else if text_lt p.window_id wid
    then (p.window_id, p ∷ []) ∷ (wid, ps) ∷ windows
    else (wid, ps) ∷ push_pane p windows

unfoldable pub group_panes : List PaneInfo → Windows → Windows
unfolding push_pane
group_panes [] windows = windows
group_panes (p ∷ ps) windows = group_panes ps (push_pane p windows)

abbrev pub pane_json : PaneInfo → TmuxPaneInfo
pane_json p = record {
  id = p.pane_id;
  index = p.pane_index;
  cols = p.cols;
  rows = p.rows;
  current_command = p.current_command;
  is_active = p.is_active;
  is_claude = p.is_claude;
}

-- `panes.first().unwrap()`: `none` for a panic
unfoldable pub window_json : Text → List PaneInfo → Option TmuxWindowInfo
window_json wid [] = none
window_json wid (first ∷ panes) = some (record {
  id = wid;
  name = first.window_name;
  index = first.window_index;
  layout = first.layout;
  panes = map pane_json (first ∷ panes);
})

unfoldable pub windows_json : Windows → Option (List TmuxWindowInfo)
unfolding window_json
windows_json [] = some []
windows_json ((wid, ps) ∷ windows) = elim (window_json wid ps) [
  | none ↦ none
  | some w ↦ elim (windows_json windows) [ none ↦ none | some ws ↦ some (w ∷ ws) ]
]

unfoldable pub build_window_tree : List PaneInfo → Option (List TmuxWindowInfo)
unfolding group_panes windows_json
build_window_tree panes = windows_json (group_panes panes [])

abbrev pub first_session : List PaneInfo → Text
first_session [] = []
first_session (p ∷ ps) = p.session_id

-- `unwrap_or_default`
abbrev pub or_default : Result (List PaneInfo) → List PaneInfo
or_default (err e) = []
or_default (ok panes) = panes

-- the session that `sess_connected` tells the client; a listing that fails counts as empty
unfoldable pub connected_session : Text → Result (List PaneInfo) → Option TmuxSessionInfo
unfolding build_window_tree
connected_session session_name listed =
    let panes = or_default listed in
    elim (build_window_tree panes) [
      | none ↦ none
      | some windows ↦
          some (record { id = first_session panes; name = session_name; windows = windows })
    ]
