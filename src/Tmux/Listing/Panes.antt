-- ===== src/Tmux/Listing/Panes.antt =====
-- server/src/session/ssh_transport.rs, `parse_pane_listing`: the rows and the tree.
use oxmux.Prelude.{
  ℕ, zero, suc, ◌^◌, Option, true, leb, length, unwrap_or, ◌≡◌, refl, sym, ap, ◌∙◌, Bool, ◌&&◌,
  List, [], ◌∷◌, ◌++◌, none, some, arith, if◌then◌else◌, append_assoc, append-nil, Option-cases,
  inl, inr,
}
use oxmux.Prelude.Text.{Text, codes, contains_text, parse_uint, text_eq, text_eq_iff}
use oxmux.Ws.Tree.{TmuxPaneInfo, TmuxWindowInfo, TmuxSessionInfo}
use oxmux.Tmux.Listing.{
  Row, lines, split_fields, parse_row, add_to_window, add_row, add_lines, parse_pane_listing,
}

-- the panes of the first window with an id, in the first session with an id
unfoldable pub window_panes : Text → List TmuxWindowInfo → List TmuxPaneInfo
window_panes wid [] = []
window_panes wid (w ∷ windows) = if text_eq w.id wid then w.panes else window_panes wid windows

unfoldable pub panes_at : Text → Text → List TmuxSessionInfo → List TmuxPaneInfo
unfolding window_panes
panes_at sid wid [] = []
panes_at sid wid (s ∷ sessions) =
    if text_eq s.id sid then window_panes wid s.windows else panes_at sid wid sessions

-- the panes of the rows with both ids, in their order
unfoldable pub row_panes : Text → Text → List Text → List TmuxPaneInfo
row_panes sid wid [] = []
row_panes sid wid (line ∷ ls) = elim (parse_row (split_fields 0 line)) [
  | none ↦ row_panes sid wid ls
  | some row ↦
      (if text_eq row.sess_id sid && text_eq row.win_id wid then row.pane ∷ [] else [])
      ++ row_panes sid wid ls
]

window-add :
    (wid : Text) (row : Row) (windows : List TmuxWindowInfo)
    → window_panes wid (add_to_window row windows)
      ≡ window_panes wid windows ++ (if text_eq row.win_id wid then row.pane ∷ [] else [])
unfolding window_panes add_to_window
window-add wid row [] = ground arith
window-add wid row (w ∷ windows) = ground (
  arith,
  window-add wid row windows,
  text_eq_iff w.id row.win_id,
  text_eq_iff row.win_id wid,
  text_eq_iff w.id wid,
  append-nil w.panes,
  append-nil (window_panes wid windows),
)

panes-add_row :
    (sid wid : Text) (row : Row) (sessions : List TmuxSessionInfo)
    → panes_at sid wid (add_row row sessions)
      ≡ panes_at sid wid sessions
        ++ (if text_eq row.sess_id sid && text_eq row.win_id wid then row.pane ∷ [] else [])
unfolding panes_at add_row
panes-add_row sid wid row [] = unfold window_panes add_to_window in ground arith
panes-add_row sid wid row (s ∷ sessions) = ground (
  arith,
  panes-add_row sid wid row sessions,
  window-add wid row s.windows,
  text_eq_iff s.id row.sess_id,
  text_eq_iff row.sess_id sid,
  text_eq_iff s.id sid,
  append-nil (window_panes wid s.windows),
  append-nil (panes_at sid wid sessions),
)

panes-add_lines :
    (sid wid : Text) (ls : List Text) (sessions : List TmuxSessionInfo)
    → panes_at sid wid (add_lines ls sessions) ≡ panes_at sid wid sessions ++ row_panes sid wid ls
unfolding add_lines row_panes
panes-add_lines sid wid [] sessions = sym (append-nil (panes_at sid wid sessions))
panes-add_lines sid wid (line ∷ ls) sessions =
    elim (Option-cases (parse_row (split_fields 0 line))) [
      | inl e ↦ rw (e, add_lines, row_panes) (panes-add_lines sid wid ls sessions)
      | inr (row, e) ↦
          rw (e, add_lines, row_panes)
            (panes-add_lines sid wid ls (add_row row sessions)
              ∙ (ap (λ t. t ++ row_panes sid wid ls) (panes-add_row sid wid row sessions)
                  ∙ append_assoc (panes_at sid wid sessions)
                      (if text_eq row.sess_id sid && text_eq row.win_id wid
                        then row.pane ∷ []
                        else [])
                      (row_panes sid wid ls)))
    ]

-- a field by its place, empty where there is none
abbrev pub field : ℕ → List Text → Text
field n [] = []
field zero (f ∷ fields) = f
field (suc n) (f ∷ fields) = field n fields

-- twelve fields at least, the first and the third of which are the ids
abbrev pub counts : Text → Text → List Text → Bool
counts sid wid fields =
    leb 12 (length fields) && text_eq (field 0 fields) sid && text_eq (field 2 fields) wid

-- the pane that the seventh field and those behind it describe
abbrev pub pane_at : List Text → TmuxPaneInfo
pane_at fields = record {
  id = field 6 fields;
  index = unwrap_or (parse_uint (2 ^ 64) (field 7 fields)) 0;
  cols = unwrap_or (parse_uint (2 ^ 16) (field 8 fields)) 80;
  rows = unwrap_or (parse_uint (2 ^ 16) (field 9 fields)) 24;
  current_command = field 10 fields;
  is_active = text_eq (field 11 fields) (codes "1");
  is_claude = contains_text (codes "claude") (field 10 fields);
}

-- the panes of the lines that count, in their order
abbrev pub listed_panes : Text → Text → List Text → List TmuxPaneInfo
listed_panes sid wid [] = []
listed_panes sid wid (line ∷ ls) =
    (if counts sid wid (split_fields 0 line) then pane_at (split_fields 0 line) ∷ [] else [])
    ++ listed_panes sid wid ls

abbrev row_part : Text → Text → Option Row → List TmuxPaneInfo
row_part sid wid none = []
row_part sid wid (some row) =
    if text_eq row.sess_id sid && text_eq row.win_id wid then row.pane ∷ [] else []

row_part-counts :
    (sid wid : Text) (fields : List Text)
    → row_part sid wid (parse_row fields)
      ≡ (if counts sid wid fields then pane_at fields ∷ [] else [])
unfolding parse_row
row_part-counts sid wid ([]) = refl
row_part-counts sid wid (a ∷ []) = refl
row_part-counts sid wid (a ∷ b ∷ []) = refl
row_part-counts sid wid (a ∷ b ∷ c ∷ []) = refl
row_part-counts sid wid (a ∷ b ∷ c ∷ d ∷ []) = refl
row_part-counts sid wid (a ∷ b ∷ c ∷ d ∷ e ∷ []) = refl
row_part-counts sid wid (a ∷ b ∷ c ∷ d ∷ e ∷ f ∷ []) = refl
row_part-counts sid wid (a ∷ b ∷ c ∷ d ∷ e ∷ f ∷ g ∷ []) = refl
row_part-counts sid wid (a ∷ b ∷ c ∷ d ∷ e ∷ f ∷ g ∷ h ∷ []) = refl
row_part-counts sid wid (a ∷ b ∷ c ∷ d ∷ e ∷ f ∷ g ∷ h ∷ i ∷ []) = refl
row_part-counts sid wid (a ∷ b ∷ c ∷ d ∷ e ∷ f ∷ g ∷ h ∷ i ∷ j ∷ []) = refl
row_part-counts sid wid (a ∷ b ∷ c ∷ d ∷ e ∷ f ∷ g ∷ h ∷ i ∷ j ∷ k ∷ []) = refl
row_part-counts sid wid (a ∷ b ∷ c ∷ d ∷ e ∷ f ∷ g ∷ h ∷ i ∷ j ∷ k ∷ l ∷ more) =
    let enough : leb 12 (length (a ∷ b ∷ c ∷ d ∷ e ∷ f ∷ g ∷ h ∷ i ∷ j ∷ k ∷ l ∷ more)) ≡ true =
      ground arith in
    rw enough refl

row-listed : (sid wid : Text) (ls : List Text) → row_panes sid wid ls ≡ listed_panes sid wid ls
unfolding row_panes
row-listed sid wid [] = refl
row-listed sid wid (line ∷ ls) =
    let part = row_part-counts sid wid (split_fields 0 line) in
    elim (Option-cases (parse_row (split_fields 0 line))) [
      | inl e ↦
          rw (e, row_panes)
            (row-listed sid wid ls ∙ ap (λ t. t ++ listed_panes sid wid ls) (rw e at part))
      | inr (row, e) ↦
          rw (e, row_panes)
            (rw (row-listed sid wid ls) (ap (λ t. t ++ listed_panes sid wid ls) (rw e at part)))
    ]

pub panes-row_panes :
    (sid wid output : Text)
    → panes_at sid wid (parse_pane_listing output) ≡ row_panes sid wid (lines output)
unfolding parse_pane_listing
panes-row_panes sid wid output = panes-add_lines sid wid (lines output) [] ∙ unfold panes_at in refl

-- For any output and any two ids: the panes in the window with the second id of the session with the
-- first are those of the lines that name both, in the order of the lines, as their fields describe them; lines
-- with fewer than twelve fields count for nothing.
pub panes-parse_pane_listing :
    (sid wid output : Text)
    → panes_at sid wid (parse_pane_listing output) ≡ listed_panes sid wid (lines output)
panes-parse_pane_listing sid wid output =
    panes-row_panes sid wid output ∙ row-listed sid wid (lines output)
