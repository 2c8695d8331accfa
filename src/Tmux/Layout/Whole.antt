-- ===== src/Tmux/Layout/Whole.antt =====
-- server/src/tmux/layout.rs: `parse_layout` on what tmux writes, with its checksum in front.
use oxmux.Prelude.{
  ℕ, ◌+◌, ◌*◌, ◌≡◌, refl, Bool, true, false, [], ◌∷◌, ◌++◌, some, arith, length, all,
}
use oxmux.Prelude.Text.{Text, Lacks, is_digit, split_once-append}
use oxmux.Prelude.Decimal.{show, show-IsNumeral, IsNumeral-all}
use oxmux.Result.{ok}
use oxmux.Tmux.Layout.{
  PaneLayout, LayoutNode, Children, layout, pane, v_split, h_split, nil, cons, is_alphanumeric,
  span_digits, skip_checksum, parse_layout,
}
use oxmux.Tmux.Layout.Print.{
  header, write, write_node, write_children, InRange, cost-write, is_solid, trim-solid,
}
use oxmux.Tmux.Layout.RoundTrip.{parse_node-write}
use oxmux.Tmux.Layout.Header.{all-append}

solid-append :
    (a b : Text) → all is_solid a ≡ true → all is_solid b ≡ true → all is_solid (a ++ b) ≡ true
solid-append a b = all-append is_solid a b

digits-solid : (a : Text) → all is_digit a ≡ true → all is_solid a ≡ true
digits-solid [] h = refl
digits-solid (c ∷ a) h = ground (arith, digits-solid a)

show-solid : (n : ℕ) → all is_solid (show n) ≡ true
show-solid n = digits-solid (show n) (IsNumeral-all (show-IsNumeral n))

header-solid : (cols rows x y : ℕ) → all is_solid (header cols rows x y) ≡ true
header-solid cols rows x y =
    solid-append (show cols ++ b'x' ∷ show rows) (b',' ∷ (show x ++ b',' ∷ show y))
      (solid-append (show cols) (b'x' ∷ show rows) (show-solid cols) (show-solid rows))
      (solid-append (show x) (b',' ∷ show y) (show-solid x) (show-solid y))

mutual
  unfolding write write_node write_children

  write-solid :
      (l : PaneLayout) (s : Text) → all is_solid s ≡ true → all is_solid (write l s) ≡ true
  write-solid (layout cols rows x y node) s h =
      solid-append (header cols rows x y) (write_node node s) (header-solid cols rows x y)
        (node-solid node s h)

  node-solid :
      (n : LayoutNode) (s : Text) → all is_solid s ≡ true → all is_solid (write_node n s) ≡ true
  node-solid (pane id) s h = solid-append (show id) s (show-solid id) h
  node-solid (v_split children) s h = children-solid b']' true children s refl h
  node-solid (h_split children) s h = children-solid b'}' true children s refl h

  children-solid :
      (close : ℕ) (first : Bool) (cs : Children) (s : Text)
      → is_solid close ≡ true
      → all is_solid s ≡ true
      → all is_solid (write_children close first cs s) ≡ true
  children-solid close first nil s k h = rw k h
  children-solid close true (cons child children) s k h =
      write-solid child (write_children close false children s)
        (children-solid close false children s k h)
  children-solid close false (cons child children) s k h =
      write-solid child (write_children close false children s)
        (children-solid close false children s k h)

alphanumeric-solid : (a : Text) → all is_alphanumeric a ≡ true → all is_solid a ≡ true
alphanumeric-solid [] h = refl
alphanumeric-solid (c ∷ a) h = ground (arith, alphanumeric-solid a)

alphanumeric-Lacks : (a : Text) → all is_alphanumeric a ≡ true → Lacks b',' a
alphanumeric-Lacks [] h = tt
alphanumeric-Lacks (c ∷ a) h = ground (arith, alphanumeric-Lacks a)

skip_checksum-append :
    (a b : Text) → all is_alphanumeric a ≡ true → length a ≡ 4 → skip_checksum (a ++ b',' ∷ b) ≡ b
unfolding skip_checksum
skip_checksum-append a b h k =
    rw (split_once-append b',' a b (alphanumeric-Lacks a h), skip_checksum) (ground arith)

no_digit : span_digits [] ≡ ([], [])
unfolding span_digits
no_digit = refl

-- A layout whose numbers are in range, written behind a checksum of four letters and digits: the
-- parser returns it.
pub parse_layout-write :
    (checksum : Text) (l : PaneLayout)
    → all is_alphanumeric checksum ≡ true
    → length checksum ≡ 4
    → InRange l
    → parse_layout (checksum ++ b',' ∷ write l []) ≡ some (ok l)
unfolding parse_layout
parse_layout-write checksum l h k r =
    let text = write l [] in
    rw
      (trim-solid (checksum ++ b',' ∷ text) (
        solid-append checksum (b',' ∷ text) (alphanumeric-solid checksum h)
          (write-solid l [] refl)))
      (rw (skip_checksum-append checksum text h k) (
        rw (parse_node-write (4 * length text + 2) l [] (omega (arith, cost-write l)) r no_digit)
          refl))
