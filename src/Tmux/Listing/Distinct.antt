-- ===== src/Tmux/Listing/Distinct.antt =====
-- server/src/session/ssh_transport.rs, `parse_pane_listing`: the ids in the tree.
use oxmux.Prelude.{
  ◌≡◌, refl, Bool, false, List, [], ◌∷◌, any, ◌||◌, arith, Bool-cases, Option-cases, inl, inr,
}
use oxmux.Prelude.Text.{Text, text_eq, text_eq_iff}
use oxmux.Ws.Tree.{TmuxWindowInfo, TmuxSessionInfo}
use oxmux.Tmux.Listing.{
  Row, lines, split_fields, parse_row, add_to_window, add_row, add_lines, parse_pane_listing,
}

-- Sessions with different ids.
abbrev pub has_session : Text → List TmuxSessionInfo → Bool
has_session sid sessions = any (λ s. text_eq s.id sid) sessions

abbrev pub has_window : Text → List TmuxWindowInfo → Bool
has_window wid windows = any (λ w. text_eq w.id wid) windows

abbrev pub AreDistinctWindows : List TmuxWindowInfo → Type 0
AreDistinctWindows [] = Unit
AreDistinctWindows (w ∷ windows) = (has_window w.id windows ≡ false) × AreDistinctWindows windows

-- no two sessions have the same id, nor two windows of one session
abbrev pub AreDistinct : List TmuxSessionInfo → Type 0
AreDistinct [] = Unit
AreDistinct (s ∷ sessions) =
    (has_session s.id sessions ≡ false) × AreDistinctWindows s.windows × AreDistinct sessions

has_window-add :
    (wid : Text) (row : Row) (windows : List TmuxWindowInfo)
    → has_window wid (add_to_window row windows)
      ≡ (has_window wid windows || text_eq row.win_id wid)
unfolding add_to_window
has_window-add wid row [] = ground arith
has_window-add wid row (w ∷ windows) = ground (
  arith,
  has_window-add wid row windows,
  text_eq_iff w.id row.win_id,
  text_eq_iff row.win_id wid,
  text_eq_iff w.id wid,
)

has_session-add :
    (sid : Text) (row : Row) (sessions : List TmuxSessionInfo)
    → has_session sid (add_row row sessions) ≡ (has_session sid sessions || text_eq row.sess_id sid)
unfolding add_row
has_session-add sid row [] = ground arith
has_session-add sid row (s ∷ sessions) = ground (
  arith,
  has_session-add sid row sessions,
  text_eq_iff s.id row.sess_id,
  text_eq_iff row.sess_id sid,
  text_eq_iff s.id sid,
)

window-AreDistinct :
    (row : Row) (windows : List TmuxWindowInfo)
    → AreDistinctWindows windows
    → AreDistinctWindows (add_to_window row windows)
unfolding add_to_window
window-AreDistinct row [] h = (refl, tt)
window-AreDistinct row (w ∷ windows) h = elim (Bool-cases (text_eq w.id row.win_id)) [
  | inl e ↦ rw (e, add_to_window) h
  | inr e ↦
      rw (e, add_to_window)
        (
          ground (
            arith,
            has_window-add w.id row windows,
            h.0,
            text_eq_iff w.id row.win_id,
            text_eq_iff row.win_id w.id,
          ),
          window-AreDistinct row windows h.1,
        )
]

add_row-AreDistinct :
    (row : Row) (sessions : List TmuxSessionInfo)
    → AreDistinct sessions
    → AreDistinct (add_row row sessions)
unfolding add_row
add_row-AreDistinct row [] h = (refl, window-AreDistinct row [] tt, tt)
add_row-AreDistinct row (s ∷ sessions) h = elim (Bool-cases (text_eq s.id row.sess_id)) [
  | inl e ↦ rw (e, add_row) (h.0, window-AreDistinct row s.windows h.1, h.2)
  | inr e ↦
      rw (e, add_row)
        (
          ground (
            arith,
            has_session-add s.id row sessions,
            h.0,
            text_eq_iff s.id row.sess_id,
            text_eq_iff row.sess_id s.id,
          ),
          h.1,
          add_row-AreDistinct row sessions h.2,
        )
]

add_lines-AreDistinct :
    (ls : List Text) (sessions : List TmuxSessionInfo)
    → AreDistinct sessions
    → AreDistinct (add_lines ls sessions)
unfolding add_lines
add_lines-AreDistinct [] sessions h = h
add_lines-AreDistinct (line ∷ ls) sessions h =
    elim (Option-cases (parse_row (split_fields 0 line))) [
      | inl e ↦ rw (e, add_lines) (add_lines-AreDistinct ls sessions h)
      | inr (row, e) ↦
          rw (e, add_lines)
            (add_lines-AreDistinct ls (add_row row sessions) (add_row-AreDistinct row sessions h))
    ]

-- In the tree of any output no two sessions have the same id, and no two windows of one session.
pub parse_pane_listing-AreDistinct : (output : Text) → AreDistinct (parse_pane_listing output)
unfolding parse_pane_listing
parse_pane_listing-AreDistinct output = add_lines-AreDistinct (lines output) [] tt
