-- ===== src/Base/Groups.antt =====
-- GROUP BY on a text column, and sums and averages over the rows of a group.
use Prim.Native.Nat.{ℕ, suc, ◌+◌, ◌*◌, ◌<◌}
use Prim.Native.String.{String}
use mathlib.Core.Path.{◌≡◌, refl, ap, sym, subst}
use mathlib.Core.Bool.{Bool, false, ◌&&◌}
use mathlib.Core.List.{List, [], ◌∷◌}
use mathlib.Core.Logic.{inl, inr}
use native.Mathlib.Omega.{arith}
use text.Mathlib.Text.{◌==◌ as str_eq}
use text.Mathlib.TextEquality.{eq_iff}
use replay_forge.Base.Tests.{if◌then◌else◌, Bool-cases, ltb}
use replay_forge.Base.Lists.{keep, length, count_by}

-- A fraction, as a division gives it before any rounding.
pub record Ratio : Type 0 where
  pub num : ℕ
  pub den : ℕ

-- `a < b`, for fractions with denominators above 0
abbrev pub lt_ratio : Ratio → Ratio → Bool
lt_ratio a b = ltb (a.num * b.den) (b.num * a.den)

text_eq_sym : (j k : String) → str_eq j k ≡ false → str_eq k j ≡ false
text_eq_sym j k h = ground (arith, eq_iff j k, eq_iff k j)

module _ {ℓ} {A : Type ℓ} where
  abbrev pub sum_by : (A → ℕ) → List A → ℕ
  sum_by f [] = 0
  sum_by f (x ∷ xs) = f x + sum_by f xs

  -- The rows with this key.
  abbrev pub rows_of : (A → String) → String → List A → List A
  rows_of key k = keep (λ x. str_eq (key x) k)

  -- Puts a row into its group, a new one if there is none.
  abbrev pub into_group : String → A → List (String × List A) → List (String × List A)
  into_group k x [] = (k, x ∷ []) ∷ []
  into_group k x ((j, g) ∷ gs) = if str_eq k j then (j, x ∷ g) ∷ gs else (j, g) ∷ into_group k x gs

  abbrev pub group_by : (A → String) → List A → List (String × List A)
  group_by key [] = []
  group_by key (x ∷ xs) = into_group (key x) x (group_by key xs)

  abbrev pub group_total : List (String × List A) → ℕ
  group_total [] = 0
  group_total ((j, g) ∷ gs) = length g + group_total gs

  -- No group has this key, and no two groups have one key.
  abbrev pub NotKey : String → List (String × List A) → Type 0
  NotKey k [] = Unit {0}
  NotKey k ((j, g) ∷ gs) = (str_eq k j ≡ false) × NotKey k gs

  abbrev pub Distinct : List (String × List A) → Type 0
  Distinct [] = Unit {0}
  Distinct ((j, g) ∷ gs) = NotKey j gs × Distinct gs

  -- Each group has exactly the rows of its key, and at least one.
  abbrev pub AllGroups : (A → String) → List A → List (String × List A) → Type ℓ
  AllGroups key xs [] = Unit
  AllGroups key xs ((k, g) ∷ gs) = (g ≡ rows_of key k xs) × (0 < length g) × AllGroups key xs gs

  group_total-into_group :
      (k : String) (x : A) (gs : List (String × List A))
      → group_total (into_group k x gs) ≡ suc (group_total gs)
  group_total-into_group k x [] = omega arith
  group_total-into_group k x ((j, g) ∷ gs) = ground (arith, group_total-into_group k x gs)

  -- The groups have all rows.
  pub group_total-group_by :
      (key : A → String) (xs : List A) → group_total (group_by key xs) ≡ length xs
  group_total-group_by key [] = refl
  group_total-group_by key (x ∷ xs) =
      omega (arith, group_total-into_group (key x) x (group_by key xs), group_total-group_by key xs)

  NotKey-into_group :
      (j k : String) (x : A) (gs : List (String × List A))
      → str_eq j k ≡ false
      → NotKey j gs
      → NotKey j (into_group k x gs)
  NotKey-into_group j k x [] d h = (d, tt)
  NotKey-into_group j k x ((i, g) ∷ gs) d h = elim (Bool-cases (str_eq k i)) [
    | inl same ↦ rw same (h.0, h.1)
    | inr other ↦ rw other (h.0, NotKey-into_group j k x gs d h.1)
  ]

  Distinct-into_group :
      (k : String) (x : A) (gs : List (String × List A))
      → Distinct gs
      → Distinct (into_group k x gs)
  Distinct-into_group k x [] d = (tt, tt)
  Distinct-into_group k x ((j, g) ∷ gs) d = elim (Bool-cases (str_eq k j)) [
    | inl same ↦ rw same (d.0, d.1)
    | inr other ↦
        rw other
          (NotKey-into_group j k x gs (text_eq_sym k j other) d.0, Distinct-into_group k x gs d.1)
  ]

  pub group_by-Distinct : (key : A → String) (xs : List A) → Distinct (group_by key xs)
  group_by-Distinct key [] = tt
  group_by-Distinct key (x ∷ xs) =
      Distinct-into_group (key x) x (group_by key xs) (group_by-Distinct key xs)

  -- The groups of other keys are as they were when a row is added.
  AllGroups-skip :
      (key : A → String) (x : A) (xs : List A) (gs : List (String × List A))
      → NotKey (key x) gs
      → AllGroups key xs gs
      → AllGroups key (x ∷ xs) gs
  AllGroups-skip key x xs [] n h = tt
  AllGroups-skip key x xs ((k, g) ∷ gs) n h = (rw n.0 h.0, h.1, AllGroups-skip key x xs gs n.1 h.2)

  -- What the group of a key has, nothing where there is none.
  abbrev pub group_of : String → List (String × List A) → List A
  group_of k [] = []
  group_of k ((j, g) ∷ gs) = if str_eq k j then g else group_of k gs

  AllGroups-into_group :
      (key : A → String) (x : A) (xs : List A) (gs : List (String × List A))
      → group_of (key x) gs ≡ rows_of key (key x) xs
      → Distinct gs
      → AllGroups key xs gs
      → AllGroups key (x ∷ xs) (into_group (key x) x gs)
  AllGroups-into_group key x xs [] e d h =
      rw ((eq_iff (key x) (key x)).1 refl) (ap (λ t. x ∷ t) e, omega arith, tt)
  AllGroups-into_group key x xs ((k, g) ∷ gs) e d h = elim (Bool-cases (str_eq (key x) k)) [
    | inl same ↦
        let k' = (eq_iff (key x) k).0 same in
        rw same (
          rw same (ap (λ t. x ∷ t) h.0),
          omega arith,
          AllGroups-skip key x xs gs (subst (λ t. NotKey t gs) (sym k') d.0) h.2,
        )
    | inr other ↦
        rw other (rw other h.0, h.1, AllGroups-into_group key x xs gs (ground arith) d.1 h.2)
  ]

  group_of-into_group :
      (j k : String) (x : A) (gs : List (String × List A))
      → group_of j (into_group k x gs) ≡ (if str_eq k j then x ∷ group_of j gs else group_of j gs)
  group_of-into_group j k x [] = ground (arith, eq_iff j k, eq_iff k j)
  group_of-into_group j k x ((i, g) ∷ gs) =
      ground (arith, eq_iff j k, eq_iff k j, eq_iff k i, eq_iff j i, group_of-into_group j k x gs)

  pub group_of-group_by :
      (key : A → String) (k : String) (xs : List A)
      → group_of k (group_by key xs) ≡ rows_of key k xs
  group_of-group_by key k [] = refl
  group_of-group_by key k (x ∷ xs) =
      ground (arith, group_of-into_group k (key x) x (group_by key xs), group_of-group_by key k xs)

  pub group_by-AllGroups : (key : A → String) (xs : List A) → AllGroups key xs (group_by key xs)
  group_by-AllGroups key [] = tt
  group_by-AllGroups key (x ∷ xs) =
      AllGroups-into_group key x xs (group_by key xs) (group_of-group_by key (key x) xs)
        (group_by-Distinct key xs) (group_by-AllGroups key xs)

  -- How many groups of a key pass a test of their rows: the one that there is, if it does.
  group_of-NotKey : (k : String) (gs : List (String × List A)) → NotKey k gs → group_of k gs ≡ []
  group_of-NotKey k [] h = refl
  group_of-NotKey k ((j, g) ∷ gs) h = rw h.0 (group_of-NotKey k gs h.1)

  count_by-NotKey :
      (q : List A → Bool) (k : String) (gs : List (String × List A))
      → NotKey k gs
      → count_by (λ g. str_eq g.0 k && q g.1) gs ≡ 0
  count_by-NotKey q k [] h = refl
  count_by-NotKey q k ((j, g) ∷ gs) h = rw (text_eq_sym k j h.0) (count_by-NotKey q k gs h.1)

  pub count_by-group_of :
      (q : List A → Bool) (k : String) (gs : List (String × List A))
      → q [] ≡ false
      → Distinct gs
      → count_by (λ g. str_eq g.0 k && q g.1) gs ≡ (if q (group_of k gs) then 1 else 0)
  count_by-group_of q k [] e d = rw e refl
  count_by-group_of q k ((j, g) ∷ gs) e d = elim (Bool-cases (str_eq k j)) [
    | inl same ↦
        let k' = (eq_iff k j).0 same in
        let none_left = count_by-NotKey q k gs (subst (λ t. NotKey t gs) (sym k') d.0) in
        ground (arith, same, eq_iff j k, eq_iff k j, none_left)
    | inr other ↦ ground (arith, text_eq_sym k j other, other, count_by-group_of q k gs e d.1)
  ]
