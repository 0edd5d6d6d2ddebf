-- ===== src/Base/Sorted.antt =====
-- `sorted`, and what stands at a place of a sorted list.
use Prim.Native.Nat.{ℕ, zero, suc, ◌+◌, ◌*◌, ◌/◌, ◌%◌, ◌≤◌, ◌<◌}
use mathlib.Core.Path.{◌≡◌, refl}
use mathlib.Core.Bool.{Bool, true, false, ◌&&◌}
use mathlib.Core.List.{List, [], ◌∷◌, map}
use mathlib.Core.Option.{some}
use mathlib.Core.Logic.{inl, inr}
use native.Mathlib.Omega.{arith}
use replay_forge.Base.Tests.{if◌then◌else◌, Bool-cases, ltb, ◌==◌}
use replay_forge.Base.Lists.{length, get_elem?, count_by, All, keep}
use replay_forge.Base.Groups.{sum_by}

module _ {ℓ} {A : Type ℓ} (le : A → A → Bool) where
  abbrev pub insert_sorted : A → List A → List A
  insert_sorted x [] = x ∷ []
  insert_sorted x (y ∷ ys) = if le x y then x ∷ y ∷ ys else y ∷ insert_sorted x ys

  abbrev pub sorted : List A → List A
  sorted [] = []
  sorted (x ∷ xs) = insert_sorted x (sorted xs)

  abbrev pub IsAscending : List A → Type 0
  IsAscending [] = Unit {0}
  IsAscending (x ∷ xs) = All (λ y. le x y ≡ true) xs × IsAscending xs

  count_by-insert_sorted :
      (q : A → Bool) (x : A) (ys : List A) → count_by q (insert_sorted x ys) ≡ count_by q (x ∷ ys)
  count_by-insert_sorted q x [] = refl
  count_by-insert_sorted q x (y ∷ ys) = ground (arith, count_by-insert_sorted q x ys)

  -- The same rows, as often.
  pub count_by-sorted : (q : A → Bool) (xs : List A) → count_by q (sorted xs) ≡ count_by q xs
  count_by-sorted q [] = refl
  count_by-sorted q (x ∷ xs) =
      ground (arith, count_by-insert_sorted q x (sorted xs), count_by-sorted q xs)

  length-insert_sorted : (x : A) (ys : List A) → length (insert_sorted x ys) ≡ suc (length ys)
  length-insert_sorted x [] = refl
  length-insert_sorted x (y ∷ ys) = ground (arith, length-insert_sorted x ys)

  pub length-sorted : (xs : List A) → length (sorted xs) ≡ length xs
  length-sorted [] = refl
  length-sorted (x ∷ xs) = omega (arith, length-insert_sorted x (sorted xs), length-sorted xs)

  module _ (trans : (a b c : A) → le a b ≡ true → le b c ≡ true → le a c ≡ true)
      (total : (a b : A) → le a b ≡ false → le b a ≡ true) where
    below-All :
        (x y : A) (ys : List A)
        → le x y ≡ true
        → All (λ z. le y z ≡ true) ys
        → All (λ z. le x z ≡ true) ys
    below-All x y [] h a = tt
    below-All x y (z ∷ zs) h a = (trans x y z h a.0, below-All x y zs h a.1)

    below_insert :
        (b x : A) (ys : List A)
        → le b x ≡ true
        → All (λ z. le b z ≡ true) ys
        → All (λ z. le b z ≡ true) (insert_sorted x ys)
    below_insert b x [] h a = (h, tt)
    below_insert b x (y ∷ ys) h a = elim (Bool-cases (le x y)) [
      | inl first ↦ rw first (h, (a.0, a.1))
      | inr later ↦ rw later (a.0, below_insert b x ys h a.1)
    ]

    insert_sorted-IsAscending :
        (x : A) (ys : List A) → IsAscending ys → IsAscending (insert_sorted x ys)
    insert_sorted-IsAscending x [] h = (tt, tt)
    insert_sorted-IsAscending x (y ∷ ys) h = elim (Bool-cases (le x y)) [
      | inl first ↦ rw first ((first, below-All x y ys first h.0), (h.0, h.1))
      | inr later ↦
          rw later (below_insert y x ys (total x y later) h.0, insert_sorted-IsAscending x ys h.1)
    ]

    pub sorted-IsAscending : (xs : List A) → IsAscending (sorted xs)
    sorted-IsAscending [] = tt
    sorted-IsAscending (x ∷ xs) = insert_sorted-IsAscending x (sorted xs) (sorted-IsAscending xs)

    All-get_elem? :
        (P : A → Type 0) (xs : List A) (i : ℕ) {a : A} → All P xs → get_elem? xs i ≡ some a → P a
    All-get_elem? P [] i h e = cc
    All-get_elem? P (x ∷ xs) zero {a} h e = let same : x ≡ a = cc in rw (← same) h.0
    All-get_elem? P (x ∷ xs) (suc i) {a} h e = All-get_elem? P xs i {a = a} h.1 e

    -- A later place of an ascending list holds nothing smaller.
    pub get_elem?-IsAscending :
        (xs : List A) (i j : ℕ) {a b : A}
        → IsAscending xs
        → i ≤ j
        → get_elem? xs i ≡ some a
        → get_elem? xs j ≡ some b
        → le a b ≡ true
    get_elem?-IsAscending [] i j h o ea eb = cc
    get_elem?-IsAscending (x ∷ xs) zero zero {a} {b} h o ea eb =
        let same : a ≡ b = cc in
        elim (Bool-cases (le a b)) [
          | inl low ↦ low
          | inr high ↦ ground (arith, same, total a b high)
        ]
    get_elem?-IsAscending (x ∷ xs) zero (suc j) {a} {b} h o ea eb =
        let same : x ≡ a = cc in
        rw (← same) (All-get_elem? (λ z. le x z ≡ true) xs j {a = b} h.0 eb)
    get_elem?-IsAscending (x ∷ xs) (suc i) zero h o ea eb = absurd (omega arith)
    get_elem?-IsAscending (x ∷ xs) (suc i) (suc j) {a} {b} h o ea eb =
        get_elem?-IsAscending xs i j {a = a} {b = b} h.1 (omega arith) ea eb

pub get_elem?-some {ℓ} :
    {A : Type ℓ} (xs : List A) (i : ℕ) → i < length xs → (a : A) × (get_elem? xs i ≡ some a)
get_elem?-some [] i h = absurd (omega arith)
get_elem?-some (x ∷ xs) zero h = (x, refl)
get_elem?-some (x ∷ xs) (suc i) h = get_elem?-some xs i (omega arith)

-- `round` of a fraction: to the nearest whole number, and from the middle to the even one.
unfoldable pub round_half_even : ℕ → ℕ → ℕ
round_half_even num den =
    if ltb (2 * (num % den)) den
    then num / den
    else if ltb den (2 * (num % den))
    then num / den + 1
    else if (num / den) % 2 == 0
    then num / den
    else num / den + 1

module _ {A : Type 0} where
  pub count_by-keep :
      (p q : A → Bool) (xs : List A) → count_by p (keep q xs) ≡ count_by (λ x. q x && p x) xs
  count_by-keep p q [] = refl
  count_by-keep p q (x ∷ xs) = ground (arith, count_by-keep p q xs)

  module _ (le : A → A → Bool) where
    sum_by-insert_sorted :
        (f : A → ℕ) (x : A) (ys : List A) → sum_by f (insert_sorted le x ys) ≡ f x + sum_by f ys
    sum_by-insert_sorted f x [] = refl
    sum_by-insert_sorted f x (y ∷ ys) = ground (arith, sum_by-insert_sorted f x ys)

    pub sum_by-sorted : (f : A → ℕ) (xs : List A) → sum_by f (sorted le xs) ≡ sum_by f xs
    sum_by-sorted f [] = refl
    sum_by-sorted f (x ∷ xs) =
        omega (arith, sum_by-insert_sorted f x (sorted le xs), sum_by-sorted f xs)

    All-insert_sorted :
        (P : A → Type 0) (x : A) (ys : List A) → P x → All P ys → All P (insert_sorted le x ys)
    All-insert_sorted P x [] h all = (h, tt)
    All-insert_sorted P x (y ∷ ys) h all = elim (Bool-cases (le x y)) [
      | inl first ↦ rw first (h, (all.0, all.1))
      | inr later ↦ rw later (all.0, All-insert_sorted P x ys h all.1)
    ]

    pub All-sorted : (P : A → Type 0) (xs : List A) → All P xs → All P (sorted le xs)
    All-sorted P [] all = tt
    All-sorted P (x ∷ xs) all = All-insert_sorted P x (sorted le xs) all.0 (All-sorted P xs all.1)

module _ {A B : Type 0} (f : A → B) where
  pub All-map : (P : B → Type 0) (xs : List A) → All (λ x. P (f x)) xs → All P (map f xs)
  All-map P [] h = tt
  All-map P (x ∷ xs) h = (h.0, All-map P xs h.1)

  pub sum_by-map : (n : B → ℕ) (xs : List A) → sum_by n (map f xs) ≡ sum_by (λ x. n (f x)) xs
  sum_by-map n [] = refl
  sum_by-map n (x ∷ xs) = omega (arith, sum_by-map n xs)
