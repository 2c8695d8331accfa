-- ===== src/Agent/Tree/SameTree.antt =====
-- agent/src/tmux_manager.rs (`list_panes`) and agent/src/quic/server.rs (`build_window_tree`)
-- beside `parse_pane_listing` of server/src/session/ssh_transport.rs, on the same output.
use oxmux.Prelude.{
  ◌≡◌, refl, sym, ◌∙◌, true, ◌&&◌, List, [], ◌∷◌, ◌++◌, Option, none, some, if◌then◌else◌, map,
  keep, Bool-cases, Option-cases, inl, inr,
}
use oxmux.Prelude.Text.{Text, text_eq, text_eq_refl}
use oxmux.Prelude.Maps.{map_option}
use oxmux.Ws.Tree.{TmuxWindowInfo}
use oxmux.Tmux.Listing.{Row, lines, split_fields, parse_row, parse_pane_listing}
use oxmux.Tmux.Listing.Panes.{window_panes, panes_at, row_panes, panes-row_panes}
use oxmux.Agent.Tmux.{PaneInfo, parse_pane, parse_panes}
use oxmux.Agent.Tree.{pane_json, build_window_tree}
use oxmux.Agent.Tree.Windows.{in_window, AreIncreasing, IsTree-of}

-- the server's row as the agent's pane
abbrev of_row : Row → PaneInfo
of_row row = record {
  session_id = row.sess_id;
  session_name = row.sess_name;
  window_id = row.win_id;
  window_name = row.win_name;
  window_index = row.win_index;
  layout = row.win_layout;
  pane_id = row.pane.id;
  pane_index = row.pane.index;
  cols = row.pane.cols;
  rows = row.pane.rows;
  current_command = row.pane.current_command;
  is_active = row.pane.is_active;
  is_claude = row.pane.is_claude;
}

parse_pane-row : (parts : List Text) → parse_pane parts ≡ map_option of_row (parse_row parts)
unfolding parse_pane parse_row
parse_pane-row (p0 ∷ p1 ∷ p2 ∷ p3 ∷ p4 ∷ p5 ∷ p6 ∷ p7 ∷ p8 ∷ p9 ∷ p10 ∷ p11 ∷ more) = refl
parse_pane-row _ = refl

-- a row, if there is one, is of the session
abbrev pub IsOf : Text → Option Row → Type 0
IsOf sid none = Unit
IsOf sid (some row) = row.sess_id ≡ sid

-- All lines with enough fields are of one session, as `tmux list-panes -s` prints them.
abbrev pub AreOf : Text → List Text → Type 0
AreOf sid [] = Unit
AreOf sid (line ∷ ls) = IsOf sid (parse_row (split_fields 0 line)) × AreOf sid ls

keep-row :
    (sid wid : Text) (row : Row) (ps : List PaneInfo)
    → row.sess_id ≡ sid
    → map pane_json (keep (in_window wid) (of_row row ∷ ps))
      ≡ (if text_eq row.sess_id sid && text_eq row.win_id wid then row.pane ∷ [] else [])
        ++ map pane_json (keep (in_window wid) ps)
keep-row sid wid row ps h =
    let same : text_eq row.sess_id sid ≡ true = rw h (text_eq_refl sid) in
    rw same (elim (Bool-cases (text_eq row.win_id wid)) [
      | inl e ↦ rw (e, keep) refl
      | inr e ↦ rw (e, keep) refl
    ])

panes-short :
    (line : Text) (ls : List Text)
    → parse_row (split_fields 0 line) ≡ none
    → parse_panes (line ∷ ls) ≡ parse_panes ls
unfolding parse_panes
panes-short line ls e =
    let no_pane : parse_pane (split_fields 0 line) ≡ none = parse_pane-row _ ∙ rw e refl in
    rw (no_pane, parse_panes) refl

panes-row :
    (line : Text) (ls : List Text) (row : Row)
    → parse_row (split_fields 0 line) ≡ some row
    → parse_panes (line ∷ ls) ≡ of_row row ∷ parse_panes ls
unfolding parse_panes
panes-row line ls row e =
    let pane : parse_pane (split_fields 0 line) ≡ some (of_row row) =
      parse_pane-row _ ∙ rw e refl in
    rw (pane, parse_panes) refl

keep-rows :
    (sid wid : Text) (ls : List Text)
    → AreOf sid ls
    → map pane_json (keep (in_window wid) (parse_panes ls)) ≡ row_panes sid wid ls
unfolding row_panes
keep-rows sid wid [] h = unfold parse_panes in refl
keep-rows sid wid (line ∷ ls) h = elim (Option-cases (parse_row (split_fields 0 line))) [
  | inl e ↦ rw (panes-short line ls e) (rw (e, row_panes) (keep-rows sid wid ls h.1))
  | inr (row, e) ↦
      let mine : row.sess_id ≡ sid = rw e at (h.0) in
      rw (panes-row line ls row e) (
        keep-row sid wid row (parse_panes ls) mine
        ∙ rw (e, row_panes) (rw (keep-rows sid wid ls h.1) refl))
]

-- The output of a listing of one session gives a tree, so building it does not panic, with the windows
-- in the order of their ids as texts; and in each window are the panes that the server's tree of the
-- same output has in that window of the session, in the same order.
pub tree-same_panes :
    (sid output : Text)
    → AreOf sid (lines output)
    → (windows : List TmuxWindowInfo) × (build_window_tree (parse_panes (lines output))
        ≡ some windows)
      × AreIncreasing windows
      × ((wid : Text) → window_panes wid windows ≡ panes_at sid wid (parse_pane_listing output))
tree-same_panes sid output h =
    let (windows, tree) = IsTree-of (parse_panes (lines output)) in
    (
      windows,
      tree.built,
      tree.increasing,
      λ wid.
          tree.panes wid
          ∙ (keep-rows sid wid (lines output) h ∙ sym (panes-row_panes sid wid output)),
    )
