-- ===== src/Convergence/Counts.antt =====
-- What grouping, distinct rows and counts of zero come to.
use replay_forge.Base.{
  ℕ, suc, ◌≤◌, ◌≡◌, refl, sym, subst, Bool, true, false, List, [], ◌∷◌, arith, ltb, ◌==◌, ==_iff,
  if◌then◌else◌, length, keep, count_by, All, Bool-cases, inl, inr,
}
use replay_forge.Models.{Status, Event, EventAttempt, status_eq, status_eq_refl, status_eq_sound}
use replay_forge.Convergence.Rows.{
  has_status, bump, status_counts, count_of, sum_counts, distinct, attempt_event_ids, is_succeeded,
  succeeded_of, count_duplicates,
}

-- A status that is not `t` differs from `s` or `t` does.
apart : (u t s : Status) → status_eq u t ≡ false → status_eq u s ≡ true → status_eq t s ≡ false
apart u t s h us = elim (Bool-cases (status_eq t s)) [
  | inl ts ↦
      let ut : status_eq u t ≡ true =
        rw (status_eq_sound u s us, status_eq_sound t s ts) (status_eq_refl s) in
      ground arith
  | inr differs ↦ differs
]

count_of-bump :
    (s t : Status) (c : List (Status × ℕ))
    → count_of s (bump t c) ≡ (if status_eq t s then suc (count_of s c) else count_of s c)
count_of-bump s t [] = ground arith
count_of-bump s t ((u, n) ∷ c) = elim (Bool-cases (status_eq u t)) [
  | inl same ↦ let e = status_eq_sound u t same in ground (arith, e, status_eq_refl t)
  | inr other ↦ ground (arith, count_of-bump s t c, apart u t s other)
]

sum_counts-bump : (t : Status) (c : List (Status × ℕ)) → sum_counts (bump t c) ≡ suc (sum_counts c)
sum_counts-bump t [] = omega arith
sum_counts-bump t ((u, n) ∷ c) = ground (arith, sum_counts-bump t c)

-- The group of a status has as many rows as have it, and the groups have all rows.
pub count_of-status_counts :
    (s : Status) (es : List Event) → count_of s (status_counts es) ≡ count_by (has_status s) es
count_of-status_counts s [] = refl
count_of-status_counts s (e ∷ es) =
    ground (arith, count_of-bump s e.status (status_counts es), count_of-status_counts s es)

pub sum_counts-status_counts : (es : List Event) → sum_counts (status_counts es) ≡ length es
sum_counts-status_counts [] = refl
sum_counts-status_counts (e ∷ es) =
    ground (arith, sum_counts-bump e.status (status_counts es), sum_counts-status_counts es)

module _ {ℓ} {A : Type ℓ} (p : A → Bool) where
  pub count_by_zero : (xs : List A) → count_by p xs ≡ 0 → All (λ x. p x ≡ false) xs
  count_by_zero [] h = tt
  count_by_zero (x ∷ xs) h = elim (Bool-cases (p x)) [
    | inl here ↦ ground arith
    | inr there ↦ (there, count_by_zero xs (ground arith))
  ]

  pub zero-count_by : (xs : List A) → All (λ x. p x ≡ false) xs → count_by p xs ≡ 0
  zero-count_by [] h = refl
  zero-count_by (x ∷ xs) h = let rest = zero-count_by xs h.1 in ground (arith, h.0)

distinct_head : (y : ℕ) (ys : List ℕ) → ltb 0 (count_by (λ t. y == t) (distinct (y ∷ ys))) ≡ true
distinct_head y ys = ground (arith, (==_iff y y).1 refl)

-- What is somewhere in a list is once among its distinct elements.
distinct_has :
    (x : ℕ) (xs : List ℕ)
    → ltb 0 (count_by (λ y. x == y) xs) ≡ true
    → ltb 0 (count_by (λ y. x == y) (distinct xs)) ≡ true
distinct_has x [] h = h
distinct_has x (y ∷ ys) h = elim (Bool-cases (x == y)) [
  | inl same ↦
      let e = (==_iff x y).0 same in
      subst (λ z. ltb 0 (count_by (λ t. z == t) (distinct (y ∷ ys))) ≡ true) (sym e)
        (distinct_head y ys)
  | inr other ↦ ground (arith, distinct_has x ys)
]

-- An event with a succeeded attempt is among the events that are looked at.
seen :
    (id : ℕ) (attempts : List EventAttempt)
    → ltb 0 (count_by (succeeded_of id) attempts) ≡ true
    → ltb 0
        (count_by (λ y. id == y) (attempt_event_ids (keep (λ a. is_succeeded a.status) attempts)))
      ≡ true
seen id [] h = h
seen id (a ∷ rest) h = ground (arith, seen id rest, ==_iff id a.event_id, ==_iff a.event_id id)

-- Where all rows of a list fail a test, the one that is in it does.
fails_at :
    (f : ℕ → Bool) (x : ℕ) (xs : List ℕ)
    → All (λ y. f y ≡ false) xs
    → ltb 0 (count_by (λ y. x == y) xs) ≡ true
    → f x ≡ false
fails_at f x [] h e = ground arith
fails_at f x (y ∷ ys) h e = elim (Bool-cases (x == y)) [
  | inl same ↦ rw ((==_iff x y).0 same) h.0
  | inr other ↦ fails_at f x ys h.1 (ground arith)
]

fails_everywhere :
    (f : ℕ → Bool) (xs : List ℕ) → ((x : ℕ) → f x ≡ false) → All (λ x. f x ≡ false) xs
fails_everywhere f [] h = tt
fails_everywhere f (x ∷ xs) h = (h x, fails_everywhere f xs h)

-- There are no duplicates exactly if no event has two succeeded attempts.
pub count_duplicates-zero :
    (attempts : List EventAttempt)
    → count_duplicates attempts ≡ 0
    → (id : ℕ) → count_by (succeeded_of id) attempts ≤ 1
count_duplicates-zero attempts h id =
    let ids = attempt_event_ids (keep (λ a. is_succeeded a.status) attempts) in
    let twice : ℕ → Bool = λ i. ltb 1 (count_by (succeeded_of i) attempts) in
    elim (Bool-cases (ltb 0 (count_by (succeeded_of id) attempts))) [
      | inl some_there ↦
          let once =
            fails_at twice id (distinct ids) (count_by_zero twice (distinct ids) h)
              (distinct_has id ids (seen id attempts some_there)) in
          ground arith
      | inr none_there ↦ ground arith
    ]

pub zero-count_duplicates :
    (attempts : List EventAttempt)
    → ((id : ℕ) → count_by (succeeded_of id) attempts ≤ 1)
    → count_duplicates attempts ≡ 0
zero-count_duplicates attempts h =
    let ids = attempt_event_ids (keep (λ a. is_succeeded a.status) attempts) in
    let twice : ℕ → Bool = λ i. ltb 1 (count_by (succeeded_of i) attempts) in
    zero-count_by twice (distinct ids)
      (fails_everywhere twice (distinct ids) (λ i. ground (arith, h i)))
