-- ===== src/Tmux/Layout/Header.antt =====
-- server/src/tmux/layout.rs: how the parts of a written layout end and begin.
use oxmux.Prelude.{
  ℕ, suc, ◌+◌, ◌^◌, ◌<◌, ◌≡◌, refl, ◌∙◌, Bool, true, false, not, ◌||◌, [], ◌∷◌, ◌++◌, none, some,
  arith, ◌==◌, ==_refl, if◌then◌else◌, all,
}
use oxmux.Prelude.Text.{
  Text, Lacks, is_digit, split, split_once-append, split-append, split-none, Lacks-append,
  parse_uint,
}
use oxmux.Prelude.Decimal.{
  show, IsNumeral, numeral, show-IsNumeral, IsNumeral-Lacks, parse_uint-show, IsNumeral-all,
}
use oxmux.Result.{ok}
use oxmux.Tmux.Layout.{
  PaneLayout, LayoutNode, Children, layout, pane, v_split, h_split, nil, cons, header_from,
  parse_number, parse_four, of_parts, parse_dimensions, span_digits, strip_comma, parse_pane_id,
  id_of, after_close,
}
use oxmux.Tmux.Layout.Print.{header, comma, write, write_node, write_children}

-- neither bracket
abbrev no_bracket : ℕ → Bool
no_bracket c = not (c == b'[' || c == b'{')

abbrev commas : Text → ℕ
commas [] = 0
commas (c ∷ s) = if c == b',' then suc (commas s) else commas s

commas-append : (a b : Text) → commas (a ++ b) ≡ commas a + commas b
commas-append [] b = omega arith
commas-append (c ∷ a) b = ground (arith, commas-append a b)

pub all-append :
    (p : ℕ → Bool) (a b : Text) → all p a ≡ true → all p b ≡ true → all p (a ++ b) ≡ true
all-append p [] b ha hb = hb
all-append p (c ∷ a) b ha hb = ground (arith, all-append p a b)

-- A text with two commas and no bracket is the header, in front of what no header goes on with.
pub header_from-append :
    (k : ℕ) (a s : Text)
    → all no_bracket a ≡ true
    → k + commas a ≡ 2
    → header_from 2 s ≡ ([], s)
    → header_from k (a ++ s) ≡ (a, s)
unfolding header_from
header_from-append k [] s h e d = rw (two k e) d
  where
    two : (n : ℕ) → n + 0 ≡ 2 → n ≡ 2
    two n g = omega arith
header_from-append k (c ∷ a) s h e d =
    ground (arith, header_from-append k a s, header_from-append (suc k) a s)

digits-plain : (a : Text) → all is_digit a ≡ true → all no_bracket a ≡ true
digits-plain [] h = refl
digits-plain (c ∷ a) h = ground (arith, digits-plain a)

digits-commas : (a : Text) → all is_digit a ≡ true → commas a ≡ 0
digits-commas [] h = refl
digits-commas (c ∷ a) h = ground (arith, digits-commas a)

show_digits : (n : ℕ) → all is_digit (show n) ≡ true
show_digits n = IsNumeral-all (show-IsNumeral n)

pub header-plain : (cols rows x y : ℕ) → all no_bracket (header cols rows x y) ≡ true
header-plain cols rows x y =
    all-append no_bracket (show cols ++ b'x' ∷ show rows) (b',' ∷ (show x ++ b',' ∷ show y))
      (all-append no_bracket (show cols) (b'x' ∷ show rows)
        (digits-plain (show cols) (show_digits cols)) (digits-plain (show rows) (show_digits rows)))
      (all-append no_bracket (show x) (b',' ∷ show y) (digits-plain (show x) (show_digits x))
        (digits-plain (show y) (show_digits y)))

pub header-commas : (cols rows x y : ℕ) → 0 + commas (header cols rows x y) ≡ 2
header-commas cols rows x y = omega (
  arith,
  commas-append (show cols ++ b'x' ∷ show rows) (b',' ∷ (show x ++ b',' ∷ show y)),
  commas-append (show cols) (b'x' ∷ show rows),
  commas-append (show x) (b',' ∷ show y),
  digits-commas (show cols) (show_digits cols),
  digits-commas (show rows) (show_digits rows),
  digits-commas (show x) (show_digits x),
  digits-commas (show y) (show_digits y),
)

pub node-ends : (n : LayoutNode) (s : Text) → header_from 2 (write_node n s) ≡ ([], write_node n s)
unfolding write_node header_from
node-ends (pane id) s = refl
node-ends (v_split children) s = refl
node-ends (h_split children) s = refl

show-Lacks : (c n : ℕ) → is_digit c ≡ false → Lacks c (show n)
show-Lacks c n h = IsNumeral-Lacks c h (show-IsNumeral n)

split-header :
    (cols rows x y : ℕ)
    → split b',' (header cols rows x y) ≡ (show cols ++ b'x' ∷ show rows) ∷ show x ∷ show y ∷ []
split-header cols rows x y =
    split-append b',' (show cols ++ b'x' ∷ show rows) (show x ++ b',' ∷ show y) (
      Lacks-append b',' (show cols) (b'x' ∷ show rows) (show-Lacks b',' cols refl)
        (refl, show-Lacks b',' rows refl))
    ∙ rw (split-append b',' (show x) (show y) (show-Lacks b',' x refl))
        (rw (split-none b',' (show y) (show-Lacks b',' y refl)) refl)

pub parse_dimensions-header :
    (cols rows x y : ℕ)
    → cols < 2 ^ 16
    → rows < 2 ^ 16
    → x < 2 ^ 16
    → y < 2 ^ 16
    → parse_dimensions (header cols rows x y) ≡ ok (cols, rows, x, y)
unfolding parse_dimensions of_parts parse_four parse_number
parse_dimensions-header cols rows x y hc hr hx hy = rw (split-header cols rows x y) (
    rw (split_once-append b'x' (show cols) (show rows) (show-Lacks b'x' cols refl)) (
      rw (parse_uint-show (2 ^ 16) cols hc) (
        rw (parse_uint-show (2 ^ 16) rows hr)
          (rw (parse_uint-show (2 ^ 16) x hx) (rw (parse_uint-show (2 ^ 16) y hy) refl)))))

-- The text goes on with no digit.
abbrev pub NoDigit : Text → Type 0
NoDigit s = span_digits s ≡ ([], s)

span_digits-append :
    (a s : Text) → all is_digit a ≡ true → NoDigit s → span_digits (a ++ s) ≡ (a, s)
unfolding span_digits
span_digits-append [] s h d = d
span_digits-append (c ∷ a) s h d = ground (arith, span_digits-append a s)

id_of-numeral :
    (id : ℕ) {t : Text} (s : Text)
    → IsNumeral t
    → parse_uint (2 ^ 32) t ≡ some id
    → id_of (t, s) ≡ ok (id, s)
unfolding parse_number
id_of-numeral id s (numeral c t hc ht) e = rw e refl

pub parse_pane_id-show :
    (id : ℕ) (s : Text)
    → id < 2 ^ 32
    → NoDigit s
    → parse_pane_id (b',' ∷ (show id ++ s)) ≡ ok (id, s)
unfolding parse_pane_id strip_comma
parse_pane_id-show id s h d =
    rw (span_digits-append (show id) s (show_digits id) d)
      (id_of-numeral id s (show-IsNumeral id) (parse_uint-show (2 ^ 32) id h))

-- A layout begins with a digit.
abbrev DigitFirst : Text → Type 0
DigitFirst [] = ⊥
DigitFirst (c ∷ s) = is_digit c ≡ true

DigitFirst-append : (a b : Text) → DigitFirst a → DigitFirst (a ++ b)
DigitFirst-append [] b h = absurd h
DigitFirst-append (c ∷ a) b h = h

DigitFirst-numeral : {a : Text} → IsNumeral a → DigitFirst a
DigitFirst-numeral (numeral c a hc ha) = hc

pub write-first : (l : PaneLayout) (s : Text) → DigitFirst (write l s)
unfolding write
write-first (layout cols rows x y node) s =
    DigitFirst-append (header cols rows x y) (write_node node s) (
      DigitFirst-append (show cols ++ b'x' ∷ show rows) (b',' ∷ (show x ++ b',' ∷ show y)) (
        DigitFirst-append (show cols) (b'x' ∷ show rows)
          (DigitFirst-numeral (show-IsNumeral cols))))

-- a closing bracket
abbrev pub IsClose : ℕ → Type 0
IsClose close = (is_digit close ≡ false) × ((b',' == close) ≡ false)

pub close-after_close : (close : ℕ) (s : Text) → after_close close (close ∷ s) ≡ some s
unfolding after_close
close-after_close close s = ground (arith, ==_refl close)

pub after_close-comma :
    (close : ℕ) (first : Bool) (t : Text)
    → IsClose close
    → DigitFirst t
    → after_close close (comma first t) ≡ none
unfolding after_close
after_close-comma close first [] h d = absurd d
after_close-comma close true (c ∷ t) h d = ground arith
after_close-comma close false (c ∷ t) h d = ground arith

pub strip_comma-comma : (first : Bool) (t : Text) → DigitFirst t → strip_comma (comma first t) ≡ t
unfolding strip_comma
strip_comma-comma first [] d = absurd d
strip_comma-comma true (c ∷ t) d = ground arith
strip_comma-comma false (c ∷ t) d = refl

pub children-NoDigit :
    (close : ℕ) (cs : Children) (s : Text)
    → IsClose close
    → NoDigit (write_children close false cs s)
unfolding span_digits write_children
children-NoDigit close nil s h = rw h.0 refl
children-NoDigit close (cons child children) s h = refl
