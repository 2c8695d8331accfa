-- ===== src/Tests/Layout.antt =====
-- server/src/tmux/layout.rs at concrete layouts.
use oxmux.Prelude.{◌≡◌, refl, [], ◌∷◌, ◌++◌, some, arith}
use oxmux.Prelude.Text.{Text, codes, split_once, trim, split, parse_uint}
use oxmux.Prelude.Decimal.{show}
use oxmux.Result.{Result, ok, err}
use oxmux.Tmux.Layout.{PaneLayout, layout, pane, v_split, h_split, nil, cons, parse_layout}
use oxmux.Tmux.Layout.Print.{write, InRange}
use oxmux.Tmux.Layout.Fuel.{parse_layout-returns}
use oxmux.Tmux.Layout.Whole.{parse_layout-write}

-- left and right, the right one split in two
abbrev nested : PaneLayout
nested = layout 80 24 0 0 (
    h_split (
      cons (layout 40 24 0 0 (pane 0)) (
        cons
          (layout 39 24 41 0
            (v_split (cons (layout 39 12 41 0 (pane 1)) (cons (layout 39 11 41 13 (pane 2)) nil))))
          nil)))

nested_text :
    write nested [] ≡ codes "80x24,0,0{40x24,0,0,0,39x24,41,0[39x12,41,0,1,39x11,41,13,2]}"
unfolding write show
nested_text = refl

left-InRange : InRange (layout 40 24 0 0 (pane 0))
unfolding InRange
left-InRange = (omega arith, omega arith, omega arith, omega arith, omega arith)

top-InRange : InRange (layout 39 12 41 0 (pane 1))
unfolding InRange
top-InRange = (omega arith, omega arith, omega arith, omega arith, omega arith)

bottom-InRange : InRange (layout 39 11 41 13 (pane 2))
unfolding InRange
bottom-InRange = (omega arith, omega arith, omega arith, omega arith, omega arith)

nested-InRange : InRange nested
unfolding InRange
nested-InRange = (
  omega arith,
  omega arith,
  omega arith,
  omega arith,
  (
    left-InRange,
    ((omega arith, omega arith, omega arith, omega arith, (top-InRange, (bottom-InRange, tt))), tt),
  ),
)

parse_layout-write_example :
    parse_layout (codes "bb62" ++ b',' ∷ write nested []) ≡ some (ok nested)
parse_layout-write_example = parse_layout-write (codes "bb62") nested refl refl nested-InRange

-- the test `single_pane` of the source, which wants 80 columns and 24 rows
single_pane : parse_layout (codes "24x80,0,0,0") ≡ some (ok (layout 24 80 0 0 (pane 0)))
unfolding parse_layout split_once trim split parse_uint
single_pane = refl

-- Without a checksum, a size of four characters is taken for one.
small_size : parse_layout (codes "80x9,0,0,5") ≡ some (err (codes "expected COLSxROWS"))
unfolding parse_layout split_once trim split parse_uint
small_size = refl

abbrev unclosed : Text
unclosed = codes "abcd,80x24,0,0[80x12,0,0,1,"

parse_layout-returns_example : (r : Result PaneLayout) × (parse_layout unclosed ≡ some r)
parse_layout-returns_example = parse_layout-returns unclosed
