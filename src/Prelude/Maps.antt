-- ===== src/Prelude/Maps.antt =====
-- A map with text keys, for `HashMap` and `DashMap`: an association list with one entry a key.
-- The order of the entries stands for the iteration order, of which the program assumes nothing.
use oxmux.Prelude.{
  ◌≡◌, refl, Bool, true, Option, none, some, List, [], ◌∷◌, arith, if◌then◌else◌, is_some,
  Bool-cases, inl, inr,
}
use mathlib.Core.Path.{subst}
use oxmux.Prelude.Text.{Text, text_eq, text_eq_iff, text_eq_refl}

abbrev pub Map {ℓ} : Type ℓ → Type ℓ
Map V = List (Text × V)

module _ {ℓ} {V : Type ℓ} where
  -- `get`, cloned
  unfoldable pub get : Text → Map V → Option V
  get k [] = none
  get k ((j, v) ∷ m) = if text_eq j k then some v else get k m

  -- `insert`: a new key stands last
  unfoldable pub insert : Text → V → Map V → Map V
  insert k v [] = (k, v) ∷ []
  insert k v ((j, w) ∷ m) = if text_eq j k then (k, v) ∷ m else (j, w) ∷ insert k v m

  -- `remove`
  unfoldable pub remove : Text → Map V → Map V
  remove k [] = []
  remove k ((j, w) ∷ m) = if text_eq j k then remove k m else (j, w) ∷ remove k m

  -- `get_mut` and an assignment through it: nothing happens on a missing key
  unfoldable pub modify : Text → (V → V) → Map V → Map V
  modify k f [] = []
  modify k f ((j, w) ∷ m) = if text_eq j k then (j, f w) ∷ modify k f m else (j, w) ∷ modify k f m

  -- `retain` on the values
  unfoldable pub retain : (V → Bool) → Map V → Map V
  retain p [] = []
  retain p ((j, w) ∷ m) = if p w then (j, w) ∷ retain p m else retain p m

  -- `contains_key`
  abbrev pub contains_key : Text → Map V → Bool
  contains_key k m = is_some (get k m)

  -- `iter().map(value)`
  unfoldable pub values : Map V → List V
  values [] = []
  values ((j, w) ∷ m) = w ∷ values m

  pub get-insert :
      (k j : Text) (v : V) (m : Map V)
      → get j (insert k v m) ≡ (if text_eq k j then some v else get j m)
  unfolding get insert
  get-insert k j v [] = refl
  get-insert k j v ((i, w) ∷ m) =
      ground (arith, text_eq_iff k j, text_eq_iff i k, text_eq_iff i j, get-insert k j v m)

  pub get-remove :
      (k j : Text) (m : Map V) → get j (remove k m) ≡ (if text_eq k j then none else get j m)
  unfolding get remove
  get-remove k j [] = ground arith
  get-remove k j ((i, w) ∷ m) =
      ground (arith, text_eq_iff k j, text_eq_iff i k, text_eq_iff i j, get-remove k j m)

  abbrev pub map_option {κ} : {B : Type κ} → (V → B) → Option V → Option B
  map_option f none = none
  map_option f (some a) = some (f a)

  pub get-modify :
      (k j : Text) (f : V → V) (m : Map V)
      → get j (modify k f m) ≡ (if text_eq k j then map_option f (get j m) else get j m)
  unfolding get modify
  get-modify k j f [] = ground arith
  get-modify k j f ((i, w) ∷ m) =
      ground (arith, text_eq_iff k j, text_eq_iff i k, text_eq_iff i j, get-modify k j f m)

  pub get_self-insert : (k : Text) (v : V) (m : Map V) → get k (insert k v m) ≡ some v
  get_self-insert k v m = simp (get-insert, text_eq_refl)

  pub get_self-remove : (k : Text) (m : Map V) → get k (remove k m) ≡ none
  get_self-remove k m = simp (get-remove, text_eq_refl)

module _ {ℓ} {V : Type ℓ} where
  -- Every stored value satisfies `P`.
  abbrev pub AllValues {κ} : (V → Type κ) → Map V → Type κ
  AllValues P [] = Unit
  AllValues P ((j, w) ∷ m) = P w × AllValues P m

  -- No key has two entries.
  abbrev pub IsUnique : Map V → Type ℓ
  IsUnique [] = Unit
  IsUnique ((j, w) ∷ m) = (get j m ≡ none) × IsUnique m

  abbrev pub filter_option : (V → Bool) → Option V → Option V
  filter_option p none = none
  filter_option p (some v) = if p v then some v else none

  pub AllValues-get {κ} :
      (P : V → Type κ) (k : Text) (m : Map V) {v : V} → AllValues P m → get k m ≡ some v → P v
  unfolding get
  AllValues-get P k [] h e = absurd (cc)
  AllValues-get P k ((j, w) ∷ m) h e = elim (Bool-cases (text_eq j k)) [
    | inl same ↦ subst P (ground arith) h.0
    | inr other ↦ AllValues-get P k m h.1 (rw other at e)
  ]

  pub AllValues-insert {κ} :
      (P : V → Type κ) (k : Text) (v : V) (m : Map V)
      → P v
      → AllValues P m
      → AllValues P (insert k v m)
  unfolding insert
  AllValues-insert P k v [] hv h = (hv, tt)
  AllValues-insert P k v ((j, w) ∷ m) hv h = elim (Bool-cases (text_eq j k)) [
    | inl same ↦ rw same (hv, h.1)
    | inr other ↦ rw other (h.0, AllValues-insert P k v m hv h.1)
  ]

  -- What `retain` leaves has passed the test, and satisfies what it satisfied before.
  pub AllValues-retain {κ κ'} :
      (P : V → Type κ) (Q : V → Type κ') (p : V → Bool)
      → ((v : V) → p v ≡ true → P v → Q v)
      → (m : Map V) → AllValues P m
      → AllValues Q (retain p m)
  unfolding retain
  AllValues-retain P Q p step [] h = tt
  AllValues-retain P Q p step ((j, w) ∷ m) h = elim (Bool-cases (p w)) [
    | inl kept ↦ rw kept (step w kept h.0, AllValues-retain P Q p step m h.1)
    | inr gone ↦ rw gone (AllValues-retain P Q p step m h.1)
  ]

  pub AllValues-map {κ κ'} :
      (P : V → Type κ) (Q : V → Type κ')
      → ((v : V) → P v → Q v)
      → (m : Map V) → AllValues P m
      → AllValues Q m
  AllValues-map P Q step [] h = tt
  AllValues-map P Q step ((j, w) ∷ m) h = (step w h.0, AllValues-map P Q step m h.1)

  pub get-retain :
      (p : V → Bool) (k : Text) (m : Map V)
      → IsUnique m
      → get k (retain p m) ≡ filter_option p (get k m)
  unfolding get retain
  get-retain p k [] u = refl
  get-retain p k ((j, w) ∷ m) u = ground (arith, text_eq_iff j k, get-retain p k m)

  pub IsUnique-retain : (p : V → Bool) (m : Map V) → IsUnique m → IsUnique (retain p m)
  unfolding retain
  IsUnique-retain p [] u = tt
  IsUnique-retain p ((j, w) ∷ m) u = ground (arith, IsUnique-retain p m, get-retain p j m)

  pub IsUnique-insert : (k : Text) (v : V) (m : Map V) → IsUnique m → IsUnique (insert k v m)
  unfolding insert get
  IsUnique-insert k v [] u = (refl, tt)
  IsUnique-insert k v ((j, w) ∷ m) u =
      ground (arith, text_eq_iff j k, text_eq_iff k j, IsUnique-insert k v m, get-insert k j v m)

  pub IsUnique-modify : (k : Text) (f : V → V) (m : Map V) → IsUnique m → IsUnique (modify k f m)
  unfolding modify
  IsUnique-modify k f [] u = tt
  IsUnique-modify k f ((j, w) ∷ m) u =
      ground (arith, text_eq_iff k j, IsUnique-modify k f m, get-modify k j f m)

pub ruleset map_laws = (get-insert, get-remove, get-modify, text_eq_refl)
