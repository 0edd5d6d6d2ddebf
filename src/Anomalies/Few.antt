-- ===== src/Anomalies/Few.antt =====
-- How many services can be outliers: a rate that is far above the average takes its share of the sum.
use replay_forge.Base.{
  ℕ, suc, ◌+◌, ◌*◌, ◌≤◌, ◌<◌, ◌≡◌, Bool, false, List, [], ◌∷◌, arith, All, count_by, length, ltb,
  ltb→lt, Ratio, lt_ratio, Bool-cases, inl, inr, ◌⊎◌,
}
use replay_forge.Anomalies.{ServiceStats, dlq_rate, sum_rates, limit_rate, is_outlier}

mul_pos : (a b : ℕ) → 0 < a → 0 < b → 0 < a * b
mul_pos a b h k = grind arith

mul_le : (a b c : ℕ) → a ≤ b → a * c ≤ b * c
mul_le a b c h = grind arith

mul_lt : (a b c : ℕ) → a < b → 0 < c → a * c < b * c
mul_lt a b c h k =
    let step : suc a * c ≤ b * c = mul_le (suc a) b c (omega arith) in
    let split : suc a * c ≡ c + a * c = grind arith in omega (arith, step, split)

-- The sum of the rates so far is at least `k` times the rate `t`, and one rate more is above `t`.
add_above :
    (k tn td n d sn sd : ℕ)
    → k * tn * sd ≤ sn * td
    → tn * d < n * td
    → 0 < sd
    → suc k * tn * (d * sd) < (n * sd + sn * d) * td
add_above k tn td n d sn sd h a p =
    let one = mul_le (k * tn * sd) (sn * td) d h in
    let two = mul_lt (tn * d) (n * td) sd a p in grind (arith, one)

add_any :
    (k tn td n d sn sd : ℕ) → k * tn * sd ≤ sn * td → k * tn * (d * sd) ≤ (n * sd + sn * d) * td
add_any k tn td n d sn sd h = let one = mul_le (k * tn * sd) (sn * td) d h in grind (arith, one)

add_any_strict :
    (k tn td n d sn sd : ℕ)
    → k * tn * sd < sn * td
    → 0 < d
    → k * tn * (d * sd) < (n * sd + sn * d) * td
add_any_strict k tn td n d sn sd h p =
    let one = mul_lt (k * tn * sd) (sn * td) d h p in grind (arith, one)

abbrev above : Ratio → ServiceStats → Bool
above t r = lt_ratio t (dlq_rate r)

abbrev pub HasEvents : ServiceStats → Type 0
HasEvents r = 0 < r.total

record IsShare (t : Ratio) (rs : List ServiceStats) : Type 0 where
  den : 0 < (sum_rates rs).den
  share : count_by (above t) rs * t.num * (sum_rates rs).den ≤ (sum_rates rs).num * t.den
  strict :
      0 < count_by (above t) rs
      → count_by (above t) rs * t.num * (sum_rates rs).den < (sum_rates rs).num * t.den

add-IsShare :
    (t : Ratio) (r : ServiceStats) (rs : List ServiceStats) (k : ℕ)
    → 0 < r.total
    → 0 < (sum_rates rs).den
    → k * t.num * (sum_rates rs).den ≤ (sum_rates rs).num * t.den
    → (0 < k → k * t.num * (sum_rates rs).den < (sum_rates rs).num * t.den)
    → above t r ≡ false
    → (k * t.num * (sum_rates (r ∷ rs)).den ≤ (sum_rates (r ∷ rs)).num * t.den)
      × (0 < k → k * t.num * (sum_rates (r ∷ rs)).den < (sum_rates (r ∷ rs)).num * t.den)
add-IsShare t r rs k p d h strict low = (
  add_any k t.num t.den r.dlq r.total (sum_rates rs).num (sum_rates rs).den h,
  λ some_k.
      add_any_strict k t.num t.den r.dlq r.total (sum_rates rs).num (sum_rates rs).den
        (strict some_k) p,
)

rates-IsShare : (t : Ratio) (rs : List ServiceStats) → All HasEvents rs → IsShare t rs
rates-IsShare t [] h = record {
  den = omega arith;
  share = grind arith;
  strict = λ k. absurd (omega (arith, k));
}
rates-IsShare t (r ∷ rs) h =
    let rest = rates-IsShare t rs h.1 in
    let den = mul_pos r.total (sum_rates rs).den h.0 rest.den in
    elim (Bool-cases (above t r)) [
      | inl high ↦
          let more =
            add_above (count_by (above t) rs) t.num t.den r.dlq r.total (sum_rates rs).num
              (sum_rates rs).den rest.share (ltb→lt _ _ high) rest.den in
          record { den = den; share = rw high (omega (arith, more)); strict = λ k. rw high more }
      | inr low ↦
          let (share, strict) =
            add-IsShare t r rs (count_by (above t) rs) h.0 rest.den rest.share rest.strict low in
          record { den = den; share = rw low share; strict = rw low strict }
    ]

outlier_is_above :
    (t : Ratio) (rs : List ServiceStats) → count_by (is_outlier t) rs ≤ count_by (above t) rs
outlier_is_above t [] = omega arith
outlier_is_above t (r ∷ rs) = ground (arith, outlier_is_above t rs)

-- Where `k` rates are above three times the average of `n`, `k` is less than a third of `n`.
few : (k n sn sd : ℕ) → k * (3 * sn) * sd < sn * (n * sd) → 3 * k < n
few k n sn sd h = elim (Bool-cases (ltb (3 * k) n)) [
  | inl low ↦ ltb→lt _ _ low
  | inr high ↦
      let le : n ≤ 3 * k = ground arith in
      let scaled = mul_le n (3 * k) (sn * sd) le in absurd (grind (arith, scaled))
]

-- Fewer than a third of the services are outliers, or none.
pub outliers_few :
    (rs : List ServiceStats)
    → All HasEvents rs
    → (count_by (is_outlier (limit_rate rs)) rs ≡ 0)
      ⊎ (3 * count_by (is_outlier (limit_rate rs)) rs < length rs)
outliers_few rs h =
    let t = limit_rate rs in
    let share = rates-IsShare t rs h in
    elim (Bool-cases (ltb 0 (count_by (above t) rs))) [
      | inl some_k ↦
          let bound =
            few (count_by (above t) rs) (length rs) (sum_rates rs).num (sum_rates rs).den
              (share.strict (ltb→lt _ _ some_k)) in
          inr (omega (arith, bound, outlier_is_above t rs))
      | inr no_k ↦
          let zero_k : count_by (above t) rs ≡ 0 = ground arith in
          inl (omega (arith, zero_k, outlier_is_above t rs))
    ]
