-- ===== src/Agent/Tree/Windows.antt =====
-- agent/src/quic/server.rs, `build_window_tree`: the windows of the tree and their panes.
use oxmux.Prelude.{
  ◌≡◌, refl, sym, ap, ◌∙◌, Bool, true, false, List, [], ◌∷◌, ◌++◌, some, arith, if◌then◌else◌,
  append-nil, append_assoc, map, keep, Bool-cases, inl, inr,
}
use oxmux.Prelude.Text.{Text, text_eq}
use oxmux.Ws.Tree.{TmuxWindowInfo}
use oxmux.Tmux.Listing.Panes.{window_panes}
use oxmux.Agent.Tmux.{PaneInfo}
use oxmux.Agent.Tree.{
  text_lt, Windows, push_pane, group_panes, pane_json, window_json, windows_json, build_window_tree,
}
use oxmux.Agent.Tree.Sorted.{AreAbove, IsSorted, push-IsSorted, entry_panes, entry-push}

abbrev pub in_window : Text → PaneInfo → Bool
in_window wid p = text_eq p.window_id wid

group-entry :
    (wid : Text) (ps : List PaneInfo) (m : Windows)
    → IsSorted m
    → entry_panes wid (group_panes ps m) ≡ entry_panes wid m ++ keep (in_window wid) ps
unfolding group_panes
group-entry wid [] m s = sym (append-nil (entry_panes wid m))
group-entry wid (p ∷ ps) m s =
    group-entry wid ps (push_pane p m) (push-IsSorted p m s)
    ∙ (ap (λ t. t ++ keep (in_window wid) ps) (entry-push wid p m s)
        ∙ (append_assoc (entry_panes wid m) (if text_eq p.window_id wid then p ∷ [] else [])
              (keep (in_window wid) ps)
            ∙ ap (λ t. entry_panes wid m ++ t) (ground arith)))

group-IsSorted : (ps : List PaneInfo) (m : Windows) → IsSorted m → IsSorted (group_panes ps m)
unfolding group_panes
group-IsSorted [] m s = s
group-IsSorted (p ∷ ps) m s = group-IsSorted ps (push_pane p m) (push-IsSorted p m s)

-- no window is without a pane
abbrev IsOccupied : List PaneInfo → Type 0
IsOccupied [] = ⊥
IsOccupied (p ∷ ps) = Unit

abbrev AreOccupied : Windows → Type 0
AreOccupied [] = Unit
AreOccupied ((wid, ps) ∷ m) = IsOccupied ps × AreOccupied m

append-IsOccupied : (ps : List PaneInfo) (p : PaneInfo) → IsOccupied (ps ++ p ∷ [])
append-IsOccupied [] p = tt
append-IsOccupied (q ∷ ps) p = tt

push-AreOccupied : (p : PaneInfo) (m : Windows) → AreOccupied m → AreOccupied (push_pane p m)
unfolding push_pane
push-AreOccupied p [] o = (tt, tt)
push-AreOccupied p ((wid, ps) ∷ m) o = elim (Bool-cases (text_eq wid p.window_id)) [
  | inl same ↦ rw same (append-IsOccupied ps p, o.1)
  | inr other ↦ rw other (elim (Bool-cases (text_lt p.window_id wid)) [
    | inl front ↦ rw front (tt, (o.0, o.1))
    | inr behind ↦ rw behind (o.0, push-AreOccupied p m o.1)
  ])
]

group-AreOccupied :
    (ps : List PaneInfo) (m : Windows) → AreOccupied m → AreOccupied (group_panes ps m)
unfolding group_panes
group-AreOccupied [] m o = o
group-AreOccupied (p ∷ ps) m o = group-AreOccupied ps (push_pane p m) (push-AreOccupied p m o)

-- The ids of the windows stand above an id, and increase.
abbrev WindowsAbove : Text → List TmuxWindowInfo → Type 0
WindowsAbove k [] = Unit
WindowsAbove k (w ∷ ws) = (text_lt k w.id ≡ true) × WindowsAbove k ws

abbrev pub AreIncreasing : List TmuxWindowInfo → Type 0
AreIncreasing [] = Unit
AreIncreasing (w ∷ ws) = WindowsAbove w.id ws × AreIncreasing ws

-- the windows that a map gives
record GivesWindows (m : Windows) : Type 0 where
  windows : List TmuxWindowInfo
  given : windows_json m ≡ some windows
  above : (k : Text) → AreAbove k m → WindowsAbove k windows
  increasing : AreIncreasing windows
  panes : (wid : Text) → window_panes wid windows ≡ map pane_json (entry_panes wid m)

map-if :
    (b : Bool) (ps qs : List PaneInfo)
    → map pane_json (if b then ps else qs) ≡ (if b then map pane_json ps else map pane_json qs)
map-if true ps qs = refl
map-if false ps qs = refl

gives-windows : (m : Windows) → IsSorted m → AreOccupied m → GivesWindows m
unfolding windows_json entry_panes window_panes window_json
gives-windows [] s o = record {
  windows = [];
  given = refl;
  above = λ k a. tt;
  increasing = tt;
  panes = λ wid. refl;
}
gives-windows ((wid, []) ∷ m) s o = absurd o.0
gives-windows ((wid, p ∷ ps) ∷ m) s o =
    let g = gives-windows m s.1 o.1 in
    let w : TmuxWindowInfo = record {
      id = wid;
      name = p.window_name;
      index = p.window_index;
      layout = p.layout;
      panes = map pane_json (p ∷ ps);
    } in
    record {
      windows = w ∷ g.windows;
      given = rw (g.given, windows_json) refl;
      above = λ k a. (a.0, g.above k a.1);
      increasing = (g.above wid s.0, g.increasing);
      panes = λ k. rw (g.panes k) (sym (map-if (text_eq wid k) (p ∷ ps) (entry_panes k m)));
    }

-- what `build_window_tree` gives for these panes
pub record IsTree (ps : List PaneInfo) (windows : List TmuxWindowInfo) : Type 0 where
  pub built : build_window_tree ps ≡ some windows
  pub increasing : AreIncreasing windows
  pub panes : (wid : Text) → window_panes wid windows ≡ map pane_json (keep (in_window wid) ps)

-- There is a tree for any panes.
pub IsTree-of : (ps : List PaneInfo) → (windows : List TmuxWindowInfo) × IsTree ps windows
unfolding build_window_tree entry_panes
IsTree-of ps =
    let g =
      gives-windows (group_panes ps []) (group-IsSorted ps [] tt) (group-AreOccupied ps [] tt) in
    (
      g.windows,
      record {
        built = g.given;
        increasing = g.increasing;
        panes = λ wid. g.panes wid ∙ ap (map pane_json) (group-entry wid ps [] tt);
      },
    )
