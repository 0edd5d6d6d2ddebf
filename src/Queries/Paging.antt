-- ===== src/Queries/Paging.antt =====
-- A client of `list_workflows` or `list_deadletters` that asks for one page after the other.
use replay_forge.Base.{
  ℕ, zero, suc, ◌+◌, ◌*◌, ◌≡◌, ◌≤◌, ◌∙◌, refl, ap, sym, Bool, true, List, [], ◌∷◌, ◌++◌, map, arith,
  count_by, length, group_by,
}
use replay_forge.Models.{DeadLetter}
use replay_forge.Service.Tables.{Db}
use replay_forge.Service.Ordering.{Sort, descending, take, drop, page}
use replay_forge.Service.World.{Platform, World, Step, ok, ◌>>=◌, pure}
use replay_forge.Workflows.{WorkflowSummaryOut}
use replay_forge.Queries.{
  DeadLetterOut, workflow_of, updated_last, summary_row, dead_letter_out, event_of, list_workflows,
  list_deadletters,
}
use replay_forge.Queries.Order.{IsApart, order_by_again}

-- `n` pages of `limit` rows, from `offset` on; other requests may come between, and read the clock.
abbrev pub read_pages :
    (p : Platform) {B : Type 0} → (ℕ → ℕ → Step p (List B)) → ℕ → ℕ → ℕ → Step p (List B)
read_pages p endpoint zero limit offset = pure []
read_pages p endpoint (suc n) limit offset = do
  first ← endpoint limit offset
  rest ← read_pages p endpoint n limit (offset + limit)
  pure (first ++ rest)

zero_add : (n : ℕ) → 0 + n ≡ n
zero_add n = omega arith

zero_mul : (n : ℕ) → 0 * n ≡ 0
zero_mul n = omega arith

suc_add : (m n : ℕ) → suc m + n ≡ suc (m + n)
suc_add m n = omega arith

module _ {A : Type 0} where
  drop-nil : (n : ℕ) → drop {A = A} n [] ≡ []
  drop-nil zero = refl
  drop-nil (suc n) = refl

  take-nil : (n : ℕ) → take {A = A} n [] ≡ []
  take-nil zero = refl
  take-nil (suc n) = refl

  drop-drop : (m n : ℕ) (xs : List A) → drop (m + n) xs ≡ drop n (drop m xs)
  drop-drop zero n xs = ap (λ k. drop k xs) (zero_add n)
  drop-drop (suc m) n [] = rw (suc_add m n) (sym (drop-nil n))
  drop-drop (suc m) n (x ∷ xs) = rw (suc_add m n) (drop-drop m n xs)

  take-take : (m n : ℕ) (xs : List A) → take (m + n) xs ≡ take m xs ++ take n (drop m xs)
  take-take zero n xs = ap (λ k. take k xs) (zero_add n)
  take-take (suc m) n [] = rw (suc_add m n) (sym (take-nil n))
  take-take (suc m) n (x ∷ xs) = rw (suc_add m n) (ap (λ t. x ∷ t) (take-take m n xs))

  take_all : (n : ℕ) (xs : List A) → length xs ≤ n → take n xs ≡ xs
  take_all zero [] h = refl
  take_all (suc n) [] h = refl
  take_all zero (x ∷ xs) h = absurd (omega arith)
  take_all (suc n) (x ∷ xs) h = ap (λ t. x ∷ t) (take_all n xs (omega arith))

  length-count_by : (xs : List A) → count_by (λ _. true) xs ≡ length xs
  length-count_by [] = refl
  length-count_by (x ∷ xs) = omega (arith, length-count_by xs)

  map_append : {B : Type 0} (f : A → B) (xs ys : List A) → map f (xs ++ ys) ≡ map f xs ++ map f ys
  map_append f [] ys = refl
  map_append f (x ∷ xs) ys = ap (λ t. f x ∷ t) (map_append f xs ys)

  count_by-map :
      {B : Type 0} (f : A → B) (q : B → Bool) (xs : List A)
      → count_by q (map f xs) ≡ count_by (λ x. q (f x)) xs
  count_by-map f q [] = refl
  count_by-map f q (x ∷ xs) = ground (arith, count_by-map f q xs)

module _ (p : Platform) (sort : Sort) {A B : Type 0} (endpoint : ℕ → ℕ → Step p (List B))
    (key : A → ℕ) (rows : Db p.tables → List A) (out : Db p.tables → A → B)
    (answers : (limit offset : ℕ) (w : World p)
      → endpoint limit offset w ≡ (
        ok (map (out w.db) (page limit offset (sort.order_by (descending key) w.tick (rows w.db)))),
        record w { tick = w.tick + 1 },
      )) where
  read_pages_lem :
      (n limit offset k : ℕ) (w : World p)
      → IsApart key (rows w.db) (rows w.db)
      → (read_pages p endpoint n limit offset w).0
        ≡ ok (
            map
              (out w.db)
              (take (n * limit) (drop offset (sort.order_by (descending key) k (rows w.db)))))
  read_pages_lem zero limit offset k w apart = rw (zero_mul limit) refl
  read_pages_lem (suc n) limit offset k w apart =
      let all = sort.order_by (descending key) k (rows w.db) in
      let rest = read_pages_lem n limit (offset + limit) k (record w { tick = w.tick + 1 }) apart in
      let count : suc n * limit ≡ limit + n * limit = grind arith in
      rw
        (
          count,
          take-take limit (n * limit) (drop offset all),
          map_append (out w.db) (take limit (drop offset all))
              (take (n * limit) (drop limit (drop offset all))),
        )
        (ground (
          arith,
          answers limit offset w,
          rest,
          drop-drop offset limit all,
          order_by_again key sort w.tick k (rows w.db) apart,
        ))

  -- Enough pages give every row once, in the order of the first reading.
  pub read_pages-all :
      (n limit : ℕ) (w : World p)
      → IsApart key (rows w.db) (rows w.db)
      → length (rows w.db) ≤ n * limit
      → (outs : List B) × ((read_pages p endpoint n limit 0 w).0 ≡ ok outs)
        × (outs ≡ map (out w.db) (sort.order_by (descending key) w.tick (rows w.db)))
        × ((q : B → Bool) → count_by q outs ≡ count_by (λ r. q (out w.db r)) (rows w.db))
  read_pages-all n limit w apart enough =
      let le = descending key in
      let all = sort.order_by le w.tick (rows w.db) in
      let size : length all ≡ length (rows w.db) = omega (
        arith,
        length-count_by all,
        length-count_by (rows w.db),
        sort.count_by-order_by le w.tick (λ _. true) (rows w.db),
      ) in
      (
        map (out w.db) all,
        read_pages_lem n limit 0 w.tick w apart
            ∙ ap (λ t. ok (map (out w.db) t)) (take_all (n * limit) all (omega (arith, size))),
        refl,
        λ q.
            count_by-map (out w.db) q all
            ∙ sort.count_by-order_by le w.tick (λ r. q (out w.db r)) (rows w.db),
      )

module _ (p : Platform) (sort : Sort) where
  list_deadletters_lem :
      (limit offset : ℕ) (w : World p)
      → list_deadletters p sort limit offset w ≡ (
        ok (
            map
              (λ (d : DeadLetter). dead_letter_out d (event_of p sort w.db d))
              (page limit offset (
                sort.order_by
                  (descending (λ (d : DeadLetter). d.created_at))
                  w.tick
                  (p.tables.rows w.db.dead_letters)))),
        record w { tick = w.tick + 1 },
      )
  unfolding list_deadletters
  list_deadletters_lem limit offset w = refl

  list_workflows_lem :
      (limit offset : ℕ) (w : World p)
      → list_workflows p sort limit offset w ≡ (
        ok (
            map summary_row (
              page limit offset (
                sort.order_by
                  (descending updated_last)
                  w.tick
                  (group_by workflow_of (p.tables.rows w.db.events))))),
        record w { tick = w.tick + 1 },
      )
  unfolding list_workflows
  list_workflows_lem limit offset w = refl

  -- A client that asks for `n` pages of `limit` dead letters each, enough for all of them, while none is
  -- written, gets every dead letter exactly once, those that were made last first, if no two were made
  -- at one moment; the database may order rows of one moment as it likes at each request.
  pub list_deadletters_pages :
      (n limit : ℕ) (w : World p)
      → IsApart
          (λ (d : DeadLetter). d.created_at)
          (p.tables.rows w.db.dead_letters)
          (p.tables.rows w.db.dead_letters)
      → length (p.tables.rows w.db.dead_letters) ≤ n * limit
      → (outs : List DeadLetterOut) × ((read_pages p (list_deadletters p sort) n limit 0 w).0
          ≡ ok outs)
        × (outs
            ≡ map
                (λ (d : DeadLetter). dead_letter_out d (event_of p sort w.db d))
                (sort.order_by
                  (descending (λ (d : DeadLetter). d.created_at))
                  w.tick
                  (p.tables.rows w.db.dead_letters)))
        × ((q : DeadLetterOut → Bool)
            → count_by q outs
              ≡ count_by
                  (λ d. q (dead_letter_out d (event_of p sort w.db d)))
                  (p.tables.rows w.db.dead_letters))
  list_deadletters_pages =
      read_pages-all p sort (list_deadletters p sort) (λ (d : DeadLetter). d.created_at)
        (λ db. p.tables.rows db.dead_letters) (λ db d. dead_letter_out d (event_of p sort db d))
        list_deadletters_lem

  -- A client that asks for `n` pages of `limit` workflows each, enough for all of them, while nothing is
  -- written, gets the summary of every workflow exactly once, the last updated first, if no two
  -- workflows were last updated at one moment.
  pub list_workflows_pages :
      (n limit : ℕ) (w : World p)
      → IsApart updated_last
          (group_by workflow_of (p.tables.rows w.db.events))
          (group_by workflow_of (p.tables.rows w.db.events))
      → length (group_by workflow_of (p.tables.rows w.db.events)) ≤ n * limit
      → (outs : List WorkflowSummaryOut) × ((read_pages p (list_workflows p sort) n limit 0 w).0
          ≡ ok outs)
        × (outs
            ≡ map summary_row (
                sort.order_by
                  (descending updated_last)
                  w.tick
                  (group_by workflow_of (p.tables.rows w.db.events))))
        × ((q : WorkflowSummaryOut → Bool)
            → count_by q outs
              ≡ count_by
                  (λ g. q (summary_row g))
                  (group_by workflow_of (p.tables.rows w.db.events)))
  list_workflows_pages =
      read_pages-all p sort (list_workflows p sort) updated_last
        (λ db. group_by workflow_of (p.tables.rows db.events)) (λ db. summary_row)
        list_workflows_lem
