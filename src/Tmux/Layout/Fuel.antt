-- ===== src/Tmux/Layout/Fuel.antt =====
-- server/src/tmux/layout.rs: the recursion, and its fuel.
use oxmux.Prelude.{
  ℕ, zero, suc, ◌+◌, ◌*◌, ◌^◌, ◌≤◌, ◌<◌, ◌≡◌, refl, [], ◌∷◌, none, some, arith, ◌==◌, length,
  Bool-cases, Option-cases, inl, inr,
}
use oxmux.Prelude.Text.{Text, split, trim}
use oxmux.Result.{Result, ok, err, Result-cases, err-ok}
use oxmux.Tmux.Layout.{
  PaneLayout, Children, v_split, h_split, cons, header_from, split_header, parse_number, of_parts,
  parse_dimensions, span_digits, strip_comma, parse_pane_id, id_of, leaf, with_dimensions, Parse,
  map_parse, parse_node, parse_body, parse_children, and_child, after_close, skip_checksum, parsed,
  parse_layout,
}

-- a result was computed, and of the text at most `n` characters are left
abbrev Ends : {A : Type 0} → ℕ → Parse A → Type 0
Ends n none = ⊥
Ends n (some (err e)) = Unit
Ends n (some (ok (a, rest))) = length rest ≤ n

map-Ends : {A B : Type 0} (f : A → B) (n : ℕ) (p : Parse A) → Ends n p → Ends n (map_parse f p)
map-Ends f n none h = h
map-Ends f n (some (err e)) h = tt
map-Ends f n (some (ok (a, rest))) h = h

more-Ends : {A : Type 0} (n m : ℕ) (p : Parse A) → n ≤ m → Ends n p → Ends m p
more-Ends n m none k h = h
more-Ends n m (some (err e)) k h = tt
more-Ends n m (some (ok (a, rest))) k h = omega arith

header-length :
    (k : ℕ) (s : Text) → length (header_from k s).0 + length (header_from k s).1 ≡ length s
unfolding header_from
header-length k [] = refl
header-length k (c ∷ s) = ground (arith, header-length k s, header-length (suc k) s)

span-length : (s : Text) → length (span_digits s).1 ≤ length s
unfolding span_digits
span-length [] = omega arith
span-length (c ∷ s) = ground (arith, span-length s)

strip-length : (s : Text) → length (strip_comma s) ≤ length s
unfolding strip_comma
strip-length [] = omega arith
strip-length (c ∷ s) = ground arith

id-length : (p : Text × Text) (n : ℕ) → length p.1 ≤ n → Ends n (leaf (id_of p))
unfolding parse_number
id-length ([], rest) n h = h
id-length (d ∷ digits, rest) n h = elim (Result-cases (parse_number (2 ^ 32) (d ∷ digits))) [
  | inl (id, e) ↦ rw (e, parse_number) h
  | inr (t, e) ↦ rw (e, parse_number) tt
]

pane_id-Ends : (s : Text) → Ends (length s) (leaf (parse_pane_id s))
unfolding parse_pane_id
pane_id-Ends s =
    id-length (span_digits (strip_comma s)) (length s)
      (omega (arith, span-length (strip_comma s), strip-length s))

close-length :
    (close : ℕ) (s rest : Text) → after_close close s ≡ some rest → length rest < length s
unfolding after_close
close-length close [] rest h = absurd (cc)
close-length close (c ∷ s) rest h = ground arith

-- A header that has dimensions is not empty.
of_parts_nonempty : (s : Text) (dims : ℕ × ℕ × ℕ × ℕ) → parse_dimensions s ≡ ok dims → 0 < length s
unfolding parse_dimensions of_parts split
of_parts_nonempty [] dims h = absurd (err-ok refl h)
of_parts_nonempty (c ∷ s) dims h = omega arith

-- a result was computed, and of the text fewer than `n` characters are left
abbrev Below : {A : Type 0} → ℕ → Parse A → Type 0
Below n none = ⊥
Below n (some (err e)) = Unit
Below n (some (ok (a, rest))) = length rest < n

map-Below :
    {A B : Type 0} (f : A → B) (n m : ℕ) (p : Parse A) → m < n → Ends m p → Below n (map_parse f p)
map-Below f n m none k h = h
map-Below f n m (some (err e)) k h = tt
map-Below f n m (some (ok (a, rest))) k h = omega arith

child-Ends :
    (n : ℕ) (p : Parse PaneLayout) (loop : Text → Parse Children)
    → Below n p
    → ((rest : Text) → length rest < n → Ends n (loop rest))
    → Ends n (and_child p loop)
child-Ends n none loop h k = h
child-Ends n (some (err e)) loop h k = tt
child-Ends n (some (ok (child, rest))) loop h k = map-Ends (cons child) n (loop rest) (k rest h)

widen : {A : Type 0} (n m : ℕ) (p : Parse A) → n ≤ m → Below n p → Below m p
widen n m none k h = h
widen n m (some (err e)) k h = tt
widen n m (some (ok (a, rest))) k h = omega arith

mutual
  unfolding split_header parse_node parse_body parse_children

  node-Below : (f : ℕ) (s : Text) → 2 * length s + 1 ≤ f → Below (length s) (parse_node f s)
  node-Below zero s h = absurd (omega arith)
  node-Below (suc f) s h = elim (Result-cases (parse_dimensions (header_from 0 s).0)) [
    | inr (t, e) ↦ rw (e, parse_node) tt
    | inl (dims, e) ↦
        rw (e, parse_node)
          (map-Below (with_dimensions dims) (length s) (length (header_from 0 s).1)
            (parse_body f (header_from 0 s).1)
            (omega (arith, header-length 0 s, of_parts_nonempty (header_from 0 s).0 dims e))
            (body-Ends f (header_from 0 s).1
              (omega (arith, header-length 0 s, of_parts_nonempty (header_from 0 s).0 dims e))))
  ]

  body-Ends : (f : ℕ) (s : Text) → 2 * length s + 1 ≤ f → Ends (length s) (parse_body f s)
  body-Ends f [] h = pane_id-Ends []
  body-Ends zero (c ∷ s) h = absurd (omega arith)
  body-Ends (suc f) (c ∷ s) h = elim (Bool-cases (c == b'[')) [
    | inl e ↦
        rw (e, parse_body)
          (map-Ends v_split (suc (length s)) (parse_children f b']' s) (
            more-Ends (length s) (suc (length s)) (parse_children f b']' s) (omega arith)
              (children-Ends f b']' s (omega arith))))
    | inr e ↦
        rw (e, parse_body)
          (elim (Bool-cases (c == b'{')) [
            | inl g ↦
                rw (g, parse_body)
                  (map-Ends h_split (suc (length s)) (parse_children f b'}' s) (
                    more-Ends (length s) (suc (length s)) (parse_children f b'}' s) (omega arith)
                      (children-Ends f b'}' s (omega arith))))
            | inr g ↦ rw (g, parse_body) (pane_id-Ends (c ∷ s))
          ])
  ]

  children-Ends :
      (f close : ℕ) (s : Text) → 2 * length s + 2 ≤ f → Ends (length s) (parse_children f close s)
  children-Ends zero close s h = absurd (omega arith)
  children-Ends (suc f) close s h = elim (Option-cases (after_close close s)) [
    | inr (rest, e) ↦ rw (e, parse_children) (omega (arith, close-length close s rest e))
    | inl e ↦
        rw (e, parse_children)
          (child-Ends (length s) (parse_node f (strip_comma s))
            (λ rest. parse_children f close rest)
            (widen (length (strip_comma s)) (length s) (parse_node f (strip_comma s))
              (strip-length s) (node-Below f (strip_comma s) (omega (arith, strip-length s))))
            (λ rest k.
              more-Ends (length rest) (length s) (parse_children f close rest) (omega arith)
                (children-Ends f close rest (omega arith))))
  ]

parsed_returns :
    (n : ℕ) (p : Parse PaneLayout) → Below n p → (r : Result PaneLayout) × (parsed p ≡ some r)
parsed_returns n none h = absurd h
parsed_returns n (some (err e)) h = (err e, refl)
parsed_returns n (some (ok (a, rest))) h = (ok a, refl)

-- Whatever the text: the parser returns, with a layout or an error.
pub parse_layout-returns : (s : Text) → (r : Result PaneLayout) × (parse_layout s ≡ some r)
unfolding parse_layout
parse_layout-returns s =
    let text = skip_checksum (trim s) in
    parsed_returns (length text) (parse_node (4 * length text + 2) text)
      (node-Below (4 * length text + 2) text (omega arith))
