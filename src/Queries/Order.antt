-- ===== src/Queries/Order.antt =====
-- Two readings of the same rows under one ORDER BY.
use replay_forge.Base.{
  ℕ, ◌≡◌, refl, ap, sym, subst, Bool, true, false, List, [], ◌∷◌, arith, ltb, All, IsAscending,
  count_by, leb_trans, leb_total,
}
use replay_forge.Service.Ordering.{Sort, descending}

module _ {A : Type 0} (key : A → ℕ) where
  -- Rows with one key are one row.
  abbrev pub IsApart : List A → List A → Type 0
  IsApart xs ys = All (λ a. All (λ b. key a ≡ key b → a ≡ b) ys) xs

  none_above :
      (x : A) (xs : List A)
      → All (λ z. descending key x z ≡ true) xs
      → count_by (λ a. ltb (key x) (key a)) xs ≡ 0
  none_above x [] h = refl
  none_above x (y ∷ ys) h = ground (arith, h.0, none_above x ys h.1)

  not_above :
      (x y : A) (xs ys : List A)
      → IsAscending (descending key) (x ∷ xs)
      → ((q : A → Bool) → count_by q (x ∷ xs) ≡ count_by q (y ∷ ys))
      → ltb (key x) (key y) ≡ false
  not_above x y xs ys up same =
      ground (arith, none_above x xs up.0, same (λ a. ltb (key x) (key a)))

  drop_count :
      (q : A → Bool) (x : A) (xs ys : List A)
      → count_by q (x ∷ xs) ≡ count_by q (x ∷ ys)
      → count_by q xs ≡ count_by q ys
  drop_count q x xs ys h = ground arith

  weaken : (y : A) (ys xs : List A) → IsApart xs (y ∷ ys) → IsApart xs ys
  weaken y ys [] h = tt
  weaken y ys (x ∷ xs) h = (h.0.1, weaken y ys xs h.1)

  -- There is one order of rows whose keys differ.
  pub order_unique :
      (xs ys : List A)
      → IsAscending (descending key) xs
      → IsAscending (descending key) ys
      → ((q : A → Bool) → count_by q xs ≡ count_by q ys)
      → IsApart xs ys
      → xs ≡ ys
  order_unique [] [] up vp same apart = refl
  order_unique [] (y ∷ ys) up vp same apart = ground (arith, same (λ _. true))
  order_unique (x ∷ xs) [] up vp same apart = ground (arith, same (λ _. true))
  order_unique (x ∷ xs) (y ∷ ys) up vp same apart =
      let low = not_above x y xs ys up same in
      let high = not_above y x ys xs vp (λ q. sym (same q)) in
      let x_y : x ≡ y = apart.0.0 (ground (arith, low, high)) in
      let tails : (q : A → Bool) → count_by q xs ≡ count_by q ys = λ q.
        drop_count q x xs ys
          (subst (λ t. count_by q (x ∷ xs) ≡ count_by q (t ∷ ys)) (sym x_y) (same q)) in
      subst (λ t. x ∷ xs ≡ t ∷ ys) x_y
        (ap (λ t. x ∷ t) (order_unique xs ys up.1 vp.1 tails (weaken y ys xs apart.1)))

  module _ (sort : Sort) where
    descending_trans :
        (a b c : A)
        → descending key a b ≡ true
        → descending key b c ≡ true
        → descending key a c ≡ true
    descending_trans a b c h k = leb_trans (key c) (key b) (key a) k h

    descending_total : (a b : A) → descending key a b ≡ false → descending key b a ≡ true
    descending_total a b h = leb_total (key b) (key a) h

    -- Rows whose keys differ come in the same order at every reading.
    pub order_by_again :
        (j k : ℕ) (xs : List A)
        → IsApart xs xs
        → sort.order_by (descending key) j xs ≡ sort.order_by (descending key) k xs
    order_by_again j k xs apart =
        order_unique (sort.order_by (descending key) j xs) (sort.order_by (descending key) k xs)
          (sort.order_by-IsAscending (descending key) descending_trans descending_total j xs)
          (sort.order_by-IsAscending (descending key) descending_trans descending_total k xs)
          (λ q.
            rw (sort.count_by-order_by (descending key) j q xs)
              (sym (sort.count_by-order_by (descending key) k q xs)))
          (sort.order_by-All (descending key) j _ xs (below xs apart))
      where
        below : (ys : List A) → IsApart ys xs → IsApart ys (sort.order_by (descending key) k xs)
        below [] h = tt
        below (y ∷ ys) h = (sort.order_by-All (descending key) k _ xs h.0, below ys h.1)
