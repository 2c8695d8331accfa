-- ===== src/Agent/Tree/Sorted.antt =====
-- agent/src/quic/server.rs, `build_window_tree`: the map of the windows, in the order of their ids.
use oxmux.Prelude.{
  ◌≡◌, refl, true, false, List, [], ◌∷◌, ◌++◌, arith, if◌then◌else◌, append-nil, Bool-cases, inl,
  inr,
}
use oxmux.Prelude.Text.{Text, text_eq, text_eq_iff}
use oxmux.Agent.Tmux.{PaneInfo}
use oxmux.Agent.Tree.{text_lt, Windows, push_pane}

text_lt-ne : (s t : Text) → text_lt s t ≡ true → text_eq t s ≡ false
unfolding text_lt text_eq
text_lt-ne [] [] h = absurd (cc)
text_lt-ne (c ∷ s) [] h = absurd (cc)
text_lt-ne [] (d ∷ t) h = refl
text_lt-ne (c ∷ s) (d ∷ t) h = ground (arith, text_lt-ne s t)

text_lt_trans : (s t u : Text) → text_lt s t ≡ true → text_lt t u ≡ true → text_lt s u ≡ true
unfolding text_lt
text_lt_trans s t [] h k = absurd (cc)
text_lt_trans s [] (e ∷ u) h k = absurd (cc)
text_lt_trans [] (d ∷ t) (e ∷ u) h k = refl
text_lt_trans (c ∷ s) (d ∷ t) (e ∷ u) h k = ground (arith, text_lt_trans s t u)

text_lt_total : (s t : Text) → text_eq t s ≡ false → text_lt s t ≡ false → text_lt t s ≡ true
unfolding text_lt text_eq
text_lt_total [] [] h k = absurd (cc)
text_lt_total (c ∷ s) [] h k = refl
text_lt_total [] (d ∷ t) h k = absurd (cc)
text_lt_total (c ∷ s) (d ∷ t) h k = ground (arith, text_lt_total s t)

-- the keys of a map stand above a key, and in increasing order
abbrev pub AreAbove : Text → Windows → Type 0
AreAbove k [] = Unit
AreAbove k ((wid, ps) ∷ windows) = (text_lt k wid ≡ true) × AreAbove k windows

abbrev pub IsSorted : Windows → Type 0
IsSorted [] = Unit
IsSorted ((wid, ps) ∷ windows) = AreAbove wid windows × IsSorted windows

AreAbove-trans : (j k : Text) (m : Windows) → text_lt j k ≡ true → AreAbove k m → AreAbove j m
AreAbove-trans j k [] h a = tt
AreAbove-trans j k ((wid, ps) ∷ m) h a = (text_lt_trans j k wid h a.0, AreAbove-trans j k m h a.1)

push-AreAbove :
    (k : Text) (p : PaneInfo) (m : Windows)
    → text_lt k p.window_id ≡ true
    → AreAbove k m
    → AreAbove k (push_pane p m)
unfolding push_pane
push-AreAbove k p [] h a = (h, tt)
push-AreAbove k p ((wid, ps) ∷ m) h a = elim (Bool-cases (text_eq wid p.window_id)) [
  | inl same ↦ rw same a
  | inr other ↦ rw other (elim (Bool-cases (text_lt p.window_id wid)) [
    | inl front ↦ rw front (h, (a.0, a.1))
    | inr behind ↦ rw behind (a.0, push-AreAbove k p m h a.1)
  ])
]

pub push-IsSorted : (p : PaneInfo) (m : Windows) → IsSorted m → IsSorted (push_pane p m)
unfolding push_pane
push-IsSorted p [] s = (tt, tt)
push-IsSorted p ((wid, ps) ∷ m) s = elim (Bool-cases (text_eq wid p.window_id)) [
  | inl same ↦ rw same s
  | inr other ↦ rw other (elim (Bool-cases (text_lt p.window_id wid)) [
    | inl front ↦ rw front ((front, AreAbove-trans p.window_id wid m front s.0), (s.0, s.1))
    | inr behind ↦ rw behind (
      push-AreAbove wid p m (text_lt_total p.window_id wid other behind) s.0,
      push-IsSorted p m s.1,
    )
  ])
]

unfoldable pub entry_panes : Text → Windows → List PaneInfo
entry_panes wid [] = []
entry_panes wid ((k, ps) ∷ m) = if text_eq k wid then ps else entry_panes wid m

absent : (k : Text) (m : Windows) → AreAbove k m → entry_panes k m ≡ []
unfolding entry_panes
absent k [] a = refl
absent k ((wid, ps) ∷ m) a = rw (text_lt-ne k wid a.0) (absent k m a.1)

pub entry-push :
    (wid : Text) (p : PaneInfo) (m : Windows)
    → IsSorted m
    → entry_panes wid (push_pane p m)
      ≡ entry_panes wid m ++ (if text_eq p.window_id wid then p ∷ [] else [])
unfolding entry_panes push_pane
entry-push wid p [] s = ground arith
entry-push wid p ((k, ps) ∷ m) s = elim (Bool-cases (text_eq k p.window_id)) [
  | inl same ↦ rw same (
      ground (
        arith,
        text_eq_iff k p.window_id,
        text_eq_iff p.window_id wid,
        text_eq_iff k wid,
        append-nil ps,
        append-nil (entry_panes wid m),
      ))
  | inr other ↦ rw other (elim (Bool-cases (text_lt p.window_id k)) [
    | inr behind ↦ rw behind (
        ground (
          arith,
          text_eq_iff k p.window_id,
          text_eq_iff p.window_id wid,
          text_eq_iff k wid,
          entry-push wid p m s.1,
          append-nil ps,
        ))
    | inl front ↦
        let gone : entry_panes p.window_id m ≡ [] =
          absent p.window_id m (AreAbove-trans p.window_id k m front s.0) in
        rw front (
          ground (
            arith,
            text_eq_iff k p.window_id,
            text_eq_iff p.window_id wid,
            text_eq_iff k wid,
            append-nil ps,
            append-nil (entry_panes wid m),
          ))
  ])
]
