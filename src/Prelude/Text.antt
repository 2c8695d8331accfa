-- ===== src/Prelude/Text.antt =====
-- Rust's `str` as the list of its code points, and the operations of `std` that the program calls.
use Prim.Native.Nat.{ℕ, zero, suc, ◌+◌, ◌-◌, ◌*◌}
use Prim.Native.Char.{code}
use Prim.Native.String.{String}
use mathlib.Core.Path.{◌≡◌, refl, ap, ◌∙◌}
use mathlib.Core.Logic.{◌↔◌}
use mathlib.Core.Bool.{Bool, true, false, ◌&&◌, ◌||◌}
use mathlib.Core.List.{List, [], ◌∷◌, ◌++◌}
use mathlib.Core.Option.{Option, none, some}
use native.Mathlib.Omega.{arith}
use oxmux.Prelude.Tests.{leb, ltb, ◌==◌, ==_refl, if◌then◌else◌, is_some}

abbrev pub Text : Type 0
Text = List ℕ

-- A text literal.
abbrev pub codes : String → Text
codes String.[] = []
codes (String.◌∷◌ c s) = code c ∷ codes s

-- `==` on strings
unfoldable pub text_eq : Text → Text → Bool
text_eq [] [] = true
text_eq [] (d ∷ t) = false
text_eq (c ∷ s) [] = false
text_eq (c ∷ s) (d ∷ t) = c == d && text_eq s t

text_eq→eq : (s t : Text) → text_eq s t ≡ true → s ≡ t
unfolding text_eq
text_eq→eq [] [] h = refl
text_eq→eq [] (d ∷ t) h = ground arith
text_eq→eq (c ∷ s) [] h = ground arith
text_eq→eq (c ∷ s) (d ∷ t) h = ground (arith, text_eq→eq s t)

pub text_eq_refl : (s : Text) → text_eq s s ≡ true
unfolding text_eq
text_eq_refl [] = refl
text_eq_refl (c ∷ s) = ground (arith, text_eq_refl s)

eq→text_eq : (s t : Text) → s ≡ t → text_eq s t ≡ true
eq→text_eq s t e = rw e (text_eq_refl t)

pub text_eq_iff : (s t : Text) → (text_eq s t ≡ true) ↔ (s ≡ t)
text_eq_iff s t = (text_eq→eq s t, eq→text_eq s t)

-- `str::strip_prefix`, the prefix first
unfoldable pub strip_prefix : Text → Text → Option Text
strip_prefix [] s = some s
strip_prefix (p ∷ ps) [] = none
strip_prefix (p ∷ ps) (c ∷ s) = if p == c then strip_prefix ps s else none

pub strip_prefix-append : (p s : Text) → strip_prefix p (p ++ s) ≡ some s
unfolding strip_prefix
strip_prefix-append [] s = refl
strip_prefix-append (c ∷ p) s = ground (arith, strip_prefix-append p s)

-- `str::starts_with`, the prefix first
abbrev pub starts_with : Text → Text → Bool
starts_with p s = is_some (strip_prefix p s)

-- `str::split_once` at a character
unfoldable pub split_once : ℕ → Text → Option (Text × Text)
split_once c [] = none
split_once c (d ∷ s) =
    let rest = split_once c s in
    elim (c == d) [
      | true ↦ some ([], s)
      | false ↦ elim rest [ none ↦ none | some (a, b) ↦ some (d ∷ a, b) ]
    ]

-- The character does not occur.
abbrev pub Lacks : ℕ → Text → Type 0
Lacks c [] = Unit
Lacks c (d ∷ s) = ((c == d) ≡ false) × Lacks c s

pub Lacks-append : (c : ℕ) (a b : Text) → Lacks c a → Lacks c b → Lacks c (a ++ b)
Lacks-append c [] b ha hb = hb
Lacks-append c (d ∷ a) b ha hb = (ha.0, Lacks-append c a b ha.1 hb)

pub split_once-append : (c : ℕ) (a b : Text) → Lacks c a → split_once c (a ++ c ∷ b) ≡ some (a, b)
unfolding split_once
split_once-append c [] b h = ground (arith, ==_refl c)
split_once-append c (d ∷ a) b h = ground (arith, split_once-append c a b h.1)

pub split_once-none : (c : ℕ) (a : Text) → Lacks c a → split_once c a ≡ none
unfolding split_once
split_once-none c [] h = refl
split_once-none c (d ∷ a) h = ground (arith, split_once-none c a h.1)

abbrev cons_head : ℕ → List Text → List Text
cons_head c [] = (c ∷ []) ∷ []
cons_head c (w ∷ ws) = (c ∷ w) ∷ ws

-- `str::split` at a character, collected; never empty
unfoldable pub split : ℕ → Text → List Text
split c [] = [] ∷ []
split c (d ∷ s) =
    let rest = split c s in elim (c == d) [ true ↦ [] ∷ rest | false ↦ cons_head d rest ]

pub split-append : (c : ℕ) (a b : Text) → Lacks c a → split c (a ++ c ∷ b) ≡ a ∷ split c b
unfolding split
split-append c [] b h = ground (arith, ==_refl c)
split-append c (d ∷ a) b h = ground (arith, split-append c a b h.1)

pub split-none : (c : ℕ) (a : Text) → Lacks c a → split c a ≡ a ∷ []
unfolding split
split-none c [] h = refl
split-none c (d ∷ a) h = ground (arith, split-none c a h.1)

-- `str::splitn` at a character, collected; at most that many parts
unfoldable pub splitn : ℕ → ℕ → Text → List Text
splitn zero c s = []
splitn (suc zero) c s = s ∷ []
splitn (suc (suc n)) c s = elim (split_once c s) [
  | none ↦ s ∷ []
  | some (a, b) ↦ a ∷ splitn (suc n) c b
]

pub splitn-append :
    (n c : ℕ) (a b : Text)
    → Lacks c a
    → splitn (suc (suc n)) c (a ++ c ∷ b) ≡ a ∷ splitn (suc n) c b
unfolding splitn
splitn-append n c a b h = ground (arith, split_once-append c a b h)

-- `str::trim_end_matches` at a character
unfoldable pub trim_end_matches : ℕ → Text → Text
trim_end_matches c [] = []
trim_end_matches c (d ∷ s) = elim (trim_end_matches c s) [
  | [] ↦ if c == d then [] else d ∷ []
  | e ∷ t ↦ d ∷ e ∷ t
]

pub trim_end_matches-Lacks : (c : ℕ) (s : Text) → Lacks c s → trim_end_matches c s ≡ s
unfolding trim_end_matches
trim_end_matches-Lacks c [] h = refl
trim_end_matches-Lacks c (d ∷ []) h = rw h.0
trim_end_matches-Lacks c (d ∷ e ∷ s) h = rw (trim_end_matches-Lacks c (e ∷ s) h.1)

cons-trim :
    (c d : ℕ) (t : Text)
    → (c == d) ≡ false
    → elim t [ [] ↦ if c == d then [] else d ∷ [] | e ∷ u ↦ d ∷ e ∷ u ] ≡ d ∷ t
cons-trim c d [] h = rw h
cons-trim c d (e ∷ t) h = refl

-- Trimming stops at a prefix in which the character does not occur.
pub trim_end_matches-append :
    (c : ℕ) (p s : Text) → Lacks c p → trim_end_matches c (p ++ s) ≡ p ++ trim_end_matches c s
unfolding trim_end_matches
trim_end_matches-append c [] s h = refl
trim_end_matches-append c (d ∷ p) s h =
    cons-trim c d (trim_end_matches c (p ++ s)) h.0
    ∙ ap (λ t. d ∷ t) (trim_end_matches-append c p s h.1)

-- `char::is_whitespace`
abbrev pub is_whitespace : ℕ → Bool
is_whitespace c =
    leb 9 c && leb c 13
    || c == 32
    || c == 0x85
    || c == 0xa0
    || c == 0x1680
    || leb 0x2000 c && leb c 0x200a
    || c == 0x2028
    || c == 0x2029
    || c == 0x202f
    || c == 0x205f
    || c == 0x3000

unfoldable pub trim_start : Text → Text
trim_start [] = []
trim_start (c ∷ s) =
    let rest = trim_start s in elim (is_whitespace c) [ true ↦ rest | false ↦ c ∷ s ]

unfoldable pub trim_end : Text → Text
trim_end [] = []
trim_end (c ∷ s) = elim (trim_end s) [
  | [] ↦ if is_whitespace c then [] else c ∷ []
  | e ∷ t ↦ c ∷ e ∷ t
]

-- `str::trim`
unfoldable pub trim : Text → Text
unfolding trim_start trim_end
trim s = trim_end (trim_start s)

-- `char::is_ascii_digit`
abbrev pub is_digit : ℕ → Bool
is_digit c = leb b'0' c && leb c b'9'

-- `str::contains` with a string
unfoldable pub contains_text : Text → Text → Bool
unfolding strip_prefix
contains_text p [] = starts_with p []
contains_text p (c ∷ s) = starts_with p (c ∷ s) || contains_text p s

-- the digits of a number, most significant first; `none` at any other character
unfoldable pub parse_digits : ℕ → Text → Option ℕ
parse_digits acc [] = some acc
parse_digits acc (c ∷ s) =
    let rest = parse_digits (acc * 10 + (c - 48)) s in if is_digit c then rest else none

-- the overflow test of `parse`
unfoldable pub below : ℕ → Option ℕ → Option ℕ
below bound none = none
below bound (some n) = if ltb n bound then some n else none

-- `str::parse` of an unsigned type with values below `bound`: an optional plus sign, then digits,
-- one at least
unfoldable pub parse_uint : ℕ → Text → Option ℕ
unfolding parse_digits below
parse_uint bound [] = none
parse_uint bound (c ∷ []) = if c == b'+' then none else below bound (parse_digits 0 (c ∷ []))
parse_uint bound (c ∷ d ∷ s) =
    if c == b'+'
    then below bound (parse_digits 0 (d ∷ s))
    else below bound (parse_digits 0 (c ∷ d ∷ s))
