-- ===== src/Tmux/Layout.antt =====
-- server/src/tmux/layout.rs: the tree of panes that tmux describes in one line. The recursive functions
-- are on fuel, and `none` means that it ran out. Of an error of `parse` only that there is one is modelled.
pub mod Fuel
pub mod Print
pub mod Header
pub mod RoundTrip
pub mod Whole
use oxmux.Prelude.{
  ℕ, zero, suc, ◌+◌, ◌*◌, ◌^◌, Bool, true, false, ◌&&◌, ◌||◌, List, [], ◌∷◌, Option, none, some,
  ◌==◌, leb, if◌then◌else◌, length, all,
}
use oxmux.Prelude.Text.{Text, codes, is_digit, split, split_once, trim, parse_uint, parse_digits}
use oxmux.Result.{Result, ok, err, ◌>>=◌, ok_or}

mutual
  pub data PaneLayout : Type 0 where
    layout : (cols rows x y : ℕ) → LayoutNode → PaneLayout

  pub data LayoutNode : Type 0 where
    pane : (pane_id : ℕ) → LayoutNode
    v_split : (children : Children) → LayoutNode
    h_split : (children : Children) → LayoutNode

  pub data Children : Type 0 where
    nil : Children
    cons : PaneLayout → Children → Children

abbrev pub cons_fst : ℕ → Text × Text → Text × Text
cons_fst c (a, b) = (c ∷ a, b)

-- the header ends before the third comma, or before a bracket; the number is of commas passed
unfoldable pub header_from : ℕ → Text → Text × Text
header_from k [] = ([], [])
header_from k (c ∷ s) =
    let plain = cons_fst c (header_from k s) in
    let comma = cons_fst c (header_from (suc k) s) in
    if c == b'[' || c == b'{'
    then ([], c ∷ s)
    else if c == b','
    then (if k == 2 then ([], c ∷ s) else comma)
    else plain

unfoldable pub split_header : Text → Text × Text
unfolding header_from
split_header s = header_from 0 s

abbrev pub bad_number : Text
bad_number = codes "invalid number"

unfoldable pub parse_number : ℕ → Text → Result ℕ
parse_number bound s = ok_or (parse_uint bound s) bad_number

-- the columns, the rows and the place
abbrev pub Dimensions : Type 0
Dimensions = ℕ × ℕ × ℕ × ℕ

-- the four numbers, each parsed only if those before it are numbers
unfoldable pub parse_four : Text → Text → Text → Text → Result Dimensions
unfolding parse_number
parse_four a b c d = do
  cols ← parse_number (2 ^ 16) a
  rows ← parse_number (2 ^ 16) b
  x ← parse_number (2 ^ 16) c
  y ← parse_number (2 ^ 16) d
  ok (cols, rows, x, y)

abbrev of_size : Option (Text × Text) → Text → Text → Result Dimensions
of_size none x y = err (codes "expected COLSxROWS")
of_size (some (a, b)) x y = parse_four a b x y

unfoldable pub of_parts : List Text → Result Dimensions
unfolding parse_four
of_parts (size ∷ x ∷ y ∷ more) = of_size (split_once b'x' size) x y
of_parts _ = err (codes "expected at least 3 parts in layout header")

unfoldable pub parse_dimensions : Text → Result Dimensions
unfolding of_parts
parse_dimensions s = of_parts (split b',' s)

-- the digits at the front, and what follows them
unfoldable pub span_digits : Text → Text × Text
span_digits [] = ([], [])
span_digits (c ∷ s) =
    let more = cons_fst c (span_digits s) in if is_digit c then more else ([], c ∷ s)

unfoldable pub strip_comma : Text → Text
strip_comma [] = []
strip_comma (c ∷ s) = if c == b',' then s else c ∷ s

abbrev pub id_of : Text × Text → Result (ℕ × Text)
id_of ([], rest) = ok (0, rest)
id_of (d ∷ digits, rest) = parse_number (2 ^ 32) (d ∷ digits) >>= λ id. ok (id, rest)

unfoldable pub parse_pane_id : Text → Result (ℕ × Text)
unfolding span_digits strip_comma parse_number
parse_pane_id s = id_of (span_digits (strip_comma s))

-- a layout, or an error, and what is left; `none` for no fuel
abbrev pub Parse : Type 0 → Type 0
Parse A = Option (Result (A × Text))

abbrev pub map_parse : {A B : Type 0} → (A → B) → Parse A → Parse B
map_parse f none = none
map_parse f (some (err e)) = some (err e)
map_parse f (some (ok (a, rest))) = some (ok (f a, rest))

abbrev pub leaf : Result (ℕ × Text) → Parse LayoutNode
leaf (err e) = some (err e)
leaf (ok (id, rest)) = some (ok (pane id, rest))

abbrev pub with_dimensions : Dimensions → LayoutNode → PaneLayout
with_dimensions (cols, rows, x, y) node = layout cols rows x y node

-- what follows the closing bracket, if the text begins with it
unfoldable pub after_close : ℕ → Text → Option Text
after_close close [] = none
after_close close (c ∷ s) = if c == close then some s else none

-- a child, and then the rest of the loop
abbrev pub and_child : Parse PaneLayout → (Text → Parse Children) → Parse Children
and_child none loop = none
and_child (some (err e)) loop = some (err e)
and_child (some (ok (child, rest))) loop = map_parse (cons child) (loop rest)

unfoldable mutual
  unfolding split_header parse_dimensions parse_pane_id strip_comma after_close

  pub parse_node : ℕ → Text → Parse PaneLayout
  parse_node zero s = none
  parse_node (suc f) s =
      let (header, rest) = split_header s in
      elim (parse_dimensions header) [
        | err e ↦ some (err e)
        | ok dims ↦ map_parse (with_dimensions dims) (parse_body f rest)
      ]

  -- the children, or the id, behind a header
  pub parse_body : ℕ → Text → Parse LayoutNode
  parse_body f [] = leaf (parse_pane_id [])
  parse_body zero (c ∷ s) = none
  parse_body (suc f) (c ∷ s) =
      if c == b'['
      then map_parse v_split (parse_children f b']' s)
      else if c == b'{'
      then map_parse h_split (parse_children f b'}' s)
      else leaf (parse_pane_id (c ∷ s))

  pub parse_children : ℕ → ℕ → Text → Parse Children
  parse_children zero close s = none
  parse_children (suc f) close s = elim (after_close close s) [
    | some rest ↦ some (ok (nil, rest))
    | none ↦ and_child (parse_node f (strip_comma s)) (λ rest. parse_children f close rest)
  ]

-- `is_ascii_alphanumeric`
abbrev pub is_alphanumeric : ℕ → Bool
is_alphanumeric c = is_digit c || (leb b'a' c && leb c b'z') || (leb b'A' c && leb c b'Z')

-- "Skip optional checksum prefix"
unfoldable pub skip_checksum : Text → Text
skip_checksum s = elim (split_once b',' s) [
  | none ↦ s
  | some (first, rest) ↦ if all is_alphanumeric first && length first == 4 then rest else s
]

-- what is left behind the first node is dropped
abbrev pub parsed : Parse PaneLayout → Option (Result PaneLayout)
parsed none = none
parsed (some (err e)) = some (err e)
parsed (some (ok (tree, rest))) = some (ok tree)

unfoldable pub parse_layout : Text → Option (Result PaneLayout)
unfolding skip_checksum parse_node
parse_layout s = let text = skip_checksum (trim s) in parsed (parse_node (4 * length text + 2) text)
