-- ===== src/Prelude/Decimal.antt =====
-- Decimal numbers: `Display` of the unsigned types, and `str::parse`.
use oxmux.Prelude.{
  ℕ, zero, suc, ◌+◌, ◌-◌, ◌*◌, ◌/◌, ◌%◌, ◌<◌, ◌≡◌, refl, ◌∙◌, true, false, [], ◌∷◌, some, arith,
  ltb, if◌then◌else◌, Bool-cases, inl, inr, all,
}
use oxmux.Prelude.Text.{Text, Lacks, is_digit, parse_digits, below, parse_uint}

-- at most `fuel` digits of `n`, in front of `s`
show_fuel : ℕ → ℕ → Text → Text
show_fuel zero n s = s
show_fuel (suc f) n s =
    let more = show_fuel f (n / 10) ((48 + n % 10) ∷ s) in if ltb n 10 then (48 + n) ∷ s else more

-- `to_string` of an unsigned integer
unfoldable pub show : ℕ → Text
unfolding show_fuel
show n = show_fuel (suc n) n []

parse_digit :
    (acc d : ℕ) (s : Text)
    → d < 10
    → parse_digits acc ((48 + d) ∷ s) ≡ parse_digits (acc * 10 + d) s
unfolding parse_digits
parse_digit acc d s h =
    let digit : is_digit (48 + d) ≡ true = ground arith in
    let value : acc * 10 + (48 + d - 48) ≡ acc * 10 + d = omega arith in rw digit (rw value)

parse-show_fuel : (f n : ℕ) (s : Text) → n < f → parse_digits 0 (show_fuel f n s) ≡ parse_digits n s
unfolding show_fuel
parse-show_fuel zero n s h = absurd (omega arith)
parse-show_fuel (suc f) n s h = elim (Bool-cases (ltb n 10)) [
  | inl small ↦ rw small (parse_digit 0 n s (ground arith) ∙ rw (add_zero n))
  | inr large ↦ rw large (
      parse-show_fuel f (n / 10) ((48 + n % 10) ∷ s) (ground arith)
      ∙ (parse_digit (n / 10) (n % 10) s (omega arith) ∙ rw (div_mod n)))
]
  where
    add_zero : (k : ℕ) → 0 * 10 + k ≡ k
    add_zero k = omega arith

    div_mod : (k : ℕ) → k / 10 * 10 + k % 10 ≡ k
    div_mod k = omega arith

parse_digits-show : (n : ℕ) → parse_digits 0 (show n) ≡ some n
unfolding show
parse_digits-show n = parse-show_fuel (suc n) n [] (omega arith) ∙ unfold parse_digits in refl

-- Digits only, one at least.
pub data IsNumeral : Text → Type 0 where
  numeral : (c : ℕ) (s : Text) → is_digit c ≡ true → all is_digit s ≡ true → IsNumeral (c ∷ s)

digit-IsNumeral : (d : ℕ) (s : Text) → d < 10 → all is_digit s ≡ true → IsNumeral ((48 + d) ∷ s)
digit-IsNumeral d s h e = numeral (48 + d) s (ground arith) e

pub IsNumeral-all : {s : Text} → IsNumeral s → all is_digit s ≡ true
IsNumeral-all (numeral c s hc hs) = rw hc hs

show_fuel-IsNumeral : (f n : ℕ) (s : Text) → IsNumeral s → IsNumeral (show_fuel f n s)
unfolding show_fuel
show_fuel-IsNumeral zero n s h = h
show_fuel-IsNumeral (suc f) n s h = elim (Bool-cases (ltb n 10)) [
  | inl small ↦ rw small (digit-IsNumeral n s (ground arith) (IsNumeral-all h))
  | inr large ↦ rw large (
      show_fuel-IsNumeral f (n / 10) ((48 + n % 10) ∷ s)
        (digit-IsNumeral (n % 10) s (omega arith) (IsNumeral-all h)))
]

pub show-IsNumeral : (n : ℕ) → IsNumeral (show n)
unfolding show
show-IsNumeral n = elim (Bool-cases (ltb n 10)) [
  | inl small ↦ rw small (digit-IsNumeral n [] (ground arith) refl)
  | inr large ↦ rw large (
      show_fuel-IsNumeral n (n / 10) ((48 + n % 10) ∷ [])
        (digit-IsNumeral (n % 10) [] (omega arith) refl))
]

all-Lacks : (c : ℕ) (t : Text) → is_digit c ≡ false → all is_digit t ≡ true → Lacks c t
all-Lacks c [] h e = tt
all-Lacks c (d ∷ t) h e = ground (arith, all-Lacks c t h)

-- A character that is no digit does not occur in a numeral.
pub IsNumeral-Lacks : (c : ℕ) {s : Text} → is_digit c ≡ false → IsNumeral s → Lacks c s
IsNumeral-Lacks c h (numeral d s hd hs) = all-Lacks c (d ∷ s) h (rw hd hs)

-- A numeral has no sign.
parse_uint-numeral :
    (bound : ℕ) {s : Text} → IsNumeral s → parse_uint bound s ≡ below bound (parse_digits 0 s)
unfolding parse_uint
parse_uint-numeral bound (numeral c [] hc hs) = ground arith
parse_uint-numeral bound (numeral c (d ∷ s) hc hs) = ground arith

-- A printed number below the bound parses to itself.
pub parse_uint-show : (bound n : ℕ) → n < bound → parse_uint bound (show n) ≡ some n
unfolding below
parse_uint-show bound n h =
    parse_uint-numeral bound (show-IsNumeral n) ∙ rw (parse_digits-show n) (ground arith)
