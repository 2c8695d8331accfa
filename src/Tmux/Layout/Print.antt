-- ===== src/Tmux/Layout/Print.antt =====
-- The text of a layout, as the comments of server/src/tmux/layout.rs give it.
use oxmux.Prelude.{
  ℕ, suc, ◌+◌, ◌^◌, ◌≤◌, ◌<◌, ◌≡◌, refl, Bool, true, false, not, [], ◌∷◌, ◌++◌, arith,
  if◌then◌else◌, length, all, length-append,
}
use oxmux.Prelude.Text.{Text, is_whitespace, trim_start, trim_end, trim}
use oxmux.Prelude.Decimal.{show}
use oxmux.Tmux.Layout.{PaneLayout, LayoutNode, Children, layout, pane, v_split, h_split, nil, cons}

-- the columns, the rows and the place
abbrev pub header : (cols rows x y : ℕ) → Text
header cols rows x y = (show cols ++ b'x' ∷ show rows) ++ b',' ∷ (show x ++ b',' ∷ show y)

-- no comma in front of the first child
abbrev pub comma : Bool → Text → Text
comma first s = if first then s else b',' ∷ s

-- the text of a layout, in front of `s`
unfoldable mutual
  pub write : PaneLayout → Text → Text
  write (layout cols rows x y node) s = header cols rows x y ++ write_node node s

  pub write_node : LayoutNode → Text → Text
  write_node (pane id) s = b',' ∷ (show id ++ s)
  write_node (v_split children) s = b'[' ∷ write_children b']' true children s
  write_node (h_split children) s = b'{' ∷ write_children b'}' true children s

  pub write_children : (close : ℕ) (first : Bool) → Children → Text → Text
  write_children close first nil s = close ∷ s
  write_children close first (cons child children) s =
      comma first (write child (write_children close false children s))

-- Every number has a value of its field's type.
unfoldable mutual
  pub InRange : PaneLayout → Type 0
  InRange (layout cols rows x y node) =
      (cols < 2 ^ 16) × (rows < 2 ^ 16) × (x < 2 ^ 16) × (y < 2 ^ 16) × NodeInRange node

  pub NodeInRange : LayoutNode → Type 0
  NodeInRange (pane id) = id < 2 ^ 32
  NodeInRange (v_split children) = ChildrenInRange children
  NodeInRange (h_split children) = ChildrenInRange children

  pub ChildrenInRange : Children → Type 0
  ChildrenInRange nil = Unit
  ChildrenInRange (cons child children) = InRange child × ChildrenInRange children

-- the fuel that the parser takes for a layout
unfoldable mutual
  pub cost : PaneLayout → ℕ
  cost (layout cols rows x y node) = suc (cost_node node)

  pub cost_node : LayoutNode → ℕ
  cost_node (pane id) = 1
  cost_node (v_split children) = suc (cost_children children)
  cost_node (h_split children) = suc (cost_children children)

  pub cost_children : Children → ℕ
  cost_children nil = 1
  cost_children (cons child children) = suc (cost child + cost_children children)

header-length : (cols rows x y : ℕ) (s : Text) → 3 + length s ≤ length (header cols rows x y ++ s)
header-length cols rows x y s = omega (
  arith,
  length-append (header cols rows x y) s,
  length-append (show cols ++ b'x' ∷ show rows) (b',' ∷ (show x ++ b',' ∷ show y)),
  length-append (show cols) (b'x' ∷ show rows),
  length-append (show x) (b',' ∷ show y),
)

mutual
  unfolding write write_node write_children cost cost_node cost_children

  write-length : (l : PaneLayout) (s : Text) → cost l + 1 + length s ≤ length (write l s)
  write-length (layout cols rows x y node) s =
      omega (arith, node-length node s, header-length cols rows x y (write_node node s))

  node-length : (n : LayoutNode) (s : Text) → cost_node n + length s ≤ length (write_node n s)
  node-length (pane id) s = omega (arith, length-append (show id) s)
  node-length (v_split children) s = omega (arith, children-length b']' true children s)
  node-length (h_split children) s = omega (arith, children-length b'}' true children s)

  children-length :
      (close : ℕ) (first : Bool) (cs : Children) (s : Text)
      → cost_children cs + length s ≤ length (write_children close first cs s)
  children-length close first nil s = omega arith
  children-length close true (cons child children) s = omega (
    arith,
    children-length close false children s,
    write-length child (write_children close false children s),
  )
  children-length close false (cons child children) s = omega (
    arith,
    children-length close false children s,
    write-length child (write_children close false children s),
  )

-- The text is longer than the fuel that it takes.
pub cost-write : (l : PaneLayout) → cost l ≤ length (write l [])
cost-write l = omega (arith, write-length l [])

-- No character is white space.
abbrev pub is_solid : ℕ → Bool
is_solid c = not (is_whitespace c)

trim_start-solid : (s : Text) → all is_solid s ≡ true → trim_start s ≡ s
unfolding trim_start
trim_start-solid [] h = refl
trim_start-solid (c ∷ s) h = ground arith

trim_end-solid : (s : Text) → all is_solid s ≡ true → trim_end s ≡ s
unfolding trim_end
trim_end-solid [] h = refl
trim_end-solid (c ∷ []) h = ground arith
trim_end-solid (c ∷ d ∷ s) h = ground (arith, trim_end-solid (d ∷ s))

pub trim-solid : (s : Text) → all is_solid s ≡ true → trim s ≡ s
unfolding trim
trim-solid s h = rw (trim_start-solid s h) (trim_end-solid s h)
