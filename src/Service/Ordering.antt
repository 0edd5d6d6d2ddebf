-- ===== src/Service/Ordering.antt =====
-- ORDER BY, LIMIT and OFFSET, with what SQL documents of them: rows that agree in the sort key come in
-- an order of the database's own, which the `k`-th reading may change.
use replay_forge.Base.{
  ℕ, suc, zero, ◌≡◌, Bool, true, false, List, [], ◌∷◌, leb, All, IsAscending, count_by,
}

pub record Sort : Type 1 where
  -- `le a b`: `a` may stand before `b`.
  pub order_by : {A : Type 0} → (A → A → Bool) → ℕ → List A → List A
  pub order_by-IsAscending :
      {A : Type 0} (le : A → A → Bool)
      → ((a b c : A) → le a b ≡ true → le b c ≡ true → le a c ≡ true)
      → ((a b : A) → le a b ≡ false → le b a ≡ true)
      → (k : ℕ) (xs : List A) → IsAscending le (order_by le k xs)
  -- The rows are the same, each as often.
  pub count_by-order_by :
      {A : Type 0} (le : A → A → Bool) (k : ℕ) (q : A → Bool) (xs : List A)
      → count_by q (order_by le k xs) ≡ count_by q xs
  pub order_by-All :
      {A : Type 0} (le : A → A → Bool) (k : ℕ) (P : A → Type 0) (xs : List A)
      → All P xs
      → All P (order_by le k xs)

-- `.desc()` and the ascending order, of a column of numbers
abbrev pub descending : {A : Type 0} → (A → ℕ) → A → A → Bool
descending key a b = leb (key b) (key a)

abbrev pub ascending : {A : Type 0} → (A → ℕ) → A → A → Bool
ascending key a b = leb (key a) (key b)

-- `.limit(n)`
abbrev pub take : {A : Type 0} → ℕ → List A → List A
take zero xs = []
take (suc n) [] = []
take (suc n) (x ∷ xs) = x ∷ take n xs

-- `.offset(n)`
abbrev pub drop : {A : Type 0} → ℕ → List A → List A
drop zero xs = xs
drop (suc n) [] = []
drop (suc n) (x ∷ xs) = drop n xs

abbrev pub page : {A : Type 0} → ℕ → ℕ → List A → List A
page limit offset xs = take limit (drop offset xs)
