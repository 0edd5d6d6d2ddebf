-- ===== src/Base/Lists.antt =====
-- Lists as the rows of a query: selection, counting, the first match and an update, by a Boolean
-- test on the row.
use Prim.Native.Nat.{ℕ, zero, suc, ◌+◌, ◌≤◌}
use mathlib.Core.Path.{◌≡◌, refl}
use mathlib.Core.Bool.{Bool, true}
use mathlib.Core.List.{List, [], ◌∷◌, ◌++◌}
use mathlib.Core.Logic.{inl, inr}
use mathlib.Core.Option.{Option, none, some}
use native.Mathlib.Omega.{arith}
use replay_forge.Base.Tests.{if◌then◌else◌, Bool-cases}

module _ {ℓ} {A : Type ℓ} where
  abbrev pub length : List A → ℕ
  length [] = 0
  length (x ∷ xs) = suc (length xs)

  abbrev pub get_elem? : List A → ℕ → Option A
  get_elem? [] i = none
  get_elem? (x ∷ xs) zero = some x
  get_elem? (x ∷ xs) (suc i) = get_elem? xs i

  -- The rows that pass a test.
  abbrev pub keep : (A → Bool) → List A → List A
  keep p [] = []
  keep p (x ∷ xs) = if p x then x ∷ keep p xs else keep p xs

  -- How many rows pass a test.
  abbrev pub count_by : (A → Bool) → List A → ℕ
  count_by p [] = 0
  count_by p (x ∷ xs) = if p x then suc (count_by p xs) else count_by p xs

  -- The first row that passes a test.
  abbrev pub find_by : (A → Bool) → List A → Option A
  find_by p [] = none
  find_by p (x ∷ xs) = if p x then some x else find_by p xs

  -- Changes the rows that pass a test.
  abbrev pub update_by : (A → Bool) → (A → A) → List A → List A
  update_by p f [] = []
  update_by p f (x ∷ xs) = (if p x then f x else x) ∷ update_by p f xs

  abbrev pub head? : List A → Option A
  head? [] = none
  head? (x ∷ xs) = some x

  -- Every row satisfies a predicate.
  abbrev pub All {κ} : (A → Type κ) → List A → Type κ
  All P [] = Unit
  All P (x ∷ xs) = P x × All P xs

  pub head?-keep : (p : A → Bool) (xs : List A) → head? (keep p xs) ≡ find_by p xs
  head?-keep p [] = refl
  head?-keep p (x ∷ xs) = ground (arith, head?-keep p xs)

  pub length-keep : (p : A → Bool) (xs : List A) → length (keep p xs) ≡ count_by p xs
  length-keep p [] = refl
  length-keep p (x ∷ xs) = ground (arith, length-keep p xs)

  pub count_by-append :
      (p : A → Bool) (xs ys : List A) → count_by p (xs ++ ys) ≡ count_by p xs + count_by p ys
  count_by-append p [] ys = omega arith
  count_by-append p (x ∷ xs) ys = ground (arith, count_by-append p xs ys)

  pub count_by-le-length : (p : A → Bool) (xs : List A) → count_by p xs ≤ length xs
  count_by-le-length p [] = omega arith
  count_by-le-length p (x ∷ xs) = ground (arith, count_by-le-length p xs)

  pub length-append : (xs ys : List A) → length (xs ++ ys) ≡ length xs + length ys
  length-append [] ys = omega arith
  length-append (x ∷ xs) ys = omega (arith, length-append xs ys)

  -- An update that does not change whether a row passes `q` leaves the number that pass.
  pub count_by-update_by :
      (q p : A → Bool) (f : A → A)
      → ((x : A) → q (f x) ≡ q x)
      → (xs : List A) → count_by q (update_by p f xs) ≡ count_by q xs
  count_by-update_by q p f h [] = refl
  count_by-update_by q p f h (x ∷ xs) = ground (arith, h x, count_by-update_by q p f h xs)

  -- A test that passes somewhere has a first row that passes it.
  pub find_by_sound : (p : A → Bool) (xs : List A) {x : A} → find_by p xs ≡ some x → p x ≡ true
  find_by_sound p [] h = cc
  find_by_sound p (y ∷ xs) {x} h = ground (arith, find_by_sound p xs {x = x})

  pub find_by-none : (p : A → Bool) (xs : List A) → find_by p xs ≡ none → count_by p xs ≡ 0
  find_by-none p [] h = refl
  find_by-none p (y ∷ xs) h = ground (arith, find_by-none p xs)

  pub none-find_by : (p : A → Bool) (xs : List A) → count_by p xs ≡ 0 → find_by p xs ≡ none
  none-find_by p [] h = refl
  none-find_by p (y ∷ xs) h = ground (arith, none-find_by p xs)

  pub find_by-append :
      (p : A → Bool) (xs : List A) (y : A)
      → find_by p xs ≡ none
      → p y ≡ true
      → find_by p (xs ++ y ∷ []) ≡ some y
  find_by-append p [] y h e = ground arith
  find_by-append p (x ∷ xs) y h e = ground (arith, find_by-append p xs y)

  -- What all rows satisfy, the row that is found satisfies.
  pub find_by-All {κ} :
      (P : A → Type κ) (p : A → Bool) (xs : List A) (x : A) → find_by p xs ≡ some x → All P xs → P x
  find_by-All P p [] x e h = cc
  find_by-All P p (y ∷ xs) x e h = elim (Bool-cases (p y)) [
    | inl here ↦ let same : y ≡ x = ground arith in rw (← same) h.0
    | inr there ↦ find_by-All P p xs x (ground arith) h.1
  ]

  -- Where a row is found and replaced, the new row is found.
  pub find_by-update_by :
      (p : A → Bool) (b : A) (xs : List A) {x : A}
      → p b ≡ true
      → find_by p xs ≡ some x
      → find_by p (update_by p (λ _. b) xs) ≡ some b
  find_by-update_by p b [] e h = cc
  find_by-update_by p b (y ∷ xs) {x} e h = ground (arith, find_by-update_by p b xs {x = x} e)

  -- The row that a test finds after an update that keeps the test's answers.
  pub find_by-update :
      (q p : A → Bool) (f : A → A)
      → ((x : A) → q (f x) ≡ q x)
      → (xs : List A) {x : A} → find_by q xs ≡ some x
      → find_by q (update_by p f xs) ≡ some (if p x then f x else x)
  find_by-update q p f h [] e = cc
  find_by-update q p f h (y ∷ ys) {x} e = elim (Bool-cases (q y)) [
    | inl here ↦ let same : y ≡ x = ground arith in rw (← same) (ground (arith, h y))
    | inr there ↦ ground (arith, h y, find_by-update q p f h ys {x = x})
  ]
