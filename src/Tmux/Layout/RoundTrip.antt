-- ===== src/Tmux/Layout/RoundTrip.antt =====
-- server/src/tmux/layout.rs: the parser on what `Print` writes.
use oxmux.Prelude.{ℕ, zero, suc, ◌≤◌, ◌≡◌, refl, Bool, true, false, ◌++◌, some, arith}
use oxmux.Prelude.Text.{Text}
use oxmux.Result.{ok}
use oxmux.Tmux.Layout.{
  PaneLayout, LayoutNode, Children, layout, pane, v_split, h_split, nil, cons, split_header,
  parse_dimensions, with_dimensions, Dimensions, parse_node, parse_body, parse_children,
}
use oxmux.Tmux.Layout.Print.{
  header, write, write_node, write_children, InRange, NodeInRange, ChildrenInRange, cost, cost_node,
  cost_children,
}
use oxmux.Tmux.Layout.Header.{
  header_from-append, header-plain, header-commas, node-ends, parse_dimensions-header, NoDigit,
  parse_pane_id-show, write-first, IsClose, close-after_close, after_close-comma, strip_comma-comma,
  children-NoDigit,
}

split_header-header :
    (cols rows x y : ℕ) (n : LayoutNode) (s : Text)
    → split_header (header cols rows x y ++ write_node n s) ≡ (header cols rows x y, write_node n s)
unfolding split_header
split_header-header cols rows x y n s =
    header_from-append 0 (header cols rows x y) (write_node n s) (header-plain cols rows x y)
      (header-commas cols rows x y) (node-ends n s)

parse_node-body :
    (f : ℕ) (s rest : Text) (dims : Dimensions) (n : LayoutNode)
    → parse_dimensions (split_header s).0 ≡ ok dims
    → parse_body f (split_header s).1 ≡ some (ok (n, rest))
    → parse_node (suc f) s ≡ some (ok (with_dimensions dims n, rest))
unfolding parse_node
parse_node-body f s rest dims n d b = rw (d, parse_node) (rw (b, parse_body) refl)

-- On as much fuel as its `cost`, the parser reads a layout back, and leaves what follows it.
mutual
  unfolding parse_node parse_body parse_children write write_node write_children cost cost_node
      cost_children InRange NodeInRange ChildrenInRange

  pub parse_node-write :
      (f : ℕ) (l : PaneLayout) (s : Text)
      → cost l ≤ f
      → InRange l
      → NoDigit s
      → parse_node f (write l s) ≡ some (ok (l, s))
  parse_node-write zero (layout cols rows x y node) s h r d = absurd (omega arith)
  parse_node-write (suc f) (layout cols rows x y node) s h (hc, hr, hx, hy, hn) d =
      parse_node-body f (header cols rows x y ++ write_node node s) s (cols, rows, x, y) node
        (rw (split_header-header cols rows x y node s)
          (parse_dimensions-header cols rows x y hc hr hx hy))
        (rw (split_header-header cols rows x y node s)
          (parse_body-write f node s (omega arith) hn d))

  parse_body-write :
      (f : ℕ) (n : LayoutNode) (s : Text)
      → cost_node n ≤ f
      → NodeInRange n
      → NoDigit s
      → parse_body f (write_node n s) ≡ some (ok (n, s))
  parse_body-write zero (pane id) s h r d = absurd (omega arith)
  parse_body-write zero (v_split children) s h r d = absurd (omega arith)
  parse_body-write zero (h_split children) s h r d = absurd (omega arith)
  parse_body-write (suc f) (pane id) s h r d = rw (parse_pane_id-show id s r d) refl
  parse_body-write (suc f) (v_split children) s h r d =
      rw (parse_children-write f b']' true children s (omega arith) r (refl, refl)) refl
  parse_body-write (suc f) (h_split children) s h r d =
      rw (parse_children-write f b'}' true children s (omega arith) r (refl, refl)) refl

  parse_children-write :
      (f close : ℕ) (first : Bool) (cs : Children) (s : Text)
      → cost_children cs ≤ f
      → ChildrenInRange cs
      → IsClose close
      → parse_children f close (write_children close first cs s) ≡ some (ok (cs, s))
  parse_children-write zero close first nil s h r k = absurd (omega arith)
  parse_children-write zero close first (cons child children) s h r k = absurd (omega arith)
  parse_children-write (suc f) close first nil s h r k =
      rw (close-after_close close s, parse_children) refl
  parse_children-write (suc f) close first (cons child children) s h (r, rs) k =
      let more = write_children close false children s in
      rw
        (
          after_close-comma close first (write child more) k (write-first child more),
          parse_children,
        )
        (rw (strip_comma-comma first (write child more) (write-first child more)) (
          rw (parse_node-write f child more (omega arith) r (children-NoDigit close children s k))
            (rw (parse_children-write f close false children s (omega arith) rs k) refl)))
