-- ===== src/Retry/Bounds.antt =====
-- The delays of next_retry_delay: which attempts have one, within what range, in what order.
use replay_forge.Base.{
  ℕ, zero, suc, ◌+◌, ◌*◌, ◌/◌, ◌≤◌, ◌<◌, ◌≡◌, ◌↔◌, ◌⊎◌, inl, inr, Bool, Option, none, some, arith,
  Option-cases, Bool-cases, sym,
}
use replay_forge.Retry.{base_delay, factor, factor_unit, next_retry_delay}
use replay_forge.Service.World.{Platform, World, ok}

some_eq : {a b : ℕ} → some a ≡ some b → a ≡ b
some_eq e = cc

base_delay-none_iff : (attempt : ℕ) → (base_delay attempt ≡ none) ↔ ((attempt ≡ 0) ⊎ (4 < attempt))
unfolding base_delay
base_delay-none_iff zero = ground arith
base_delay-none_iff (suc zero) = ground arith
base_delay-none_iff (suc (suc zero)) = ground arith
base_delay-none_iff (suc (suc (suc zero))) = ground arith
base_delay-none_iff (suc (suc (suc (suc zero)))) = ground arith
base_delay-none_iff (suc (suc (suc (suc (suc n))))) = ground arith

-- The largest delay of an attempt is below the smallest of the next.
base_delay_grows :
    (attempt : ℕ) {b c : ℕ}
    → base_delay attempt ≡ some b
    → base_delay (attempt + 1) ≡ some c
    → 12 * b / 10 < 8 * c / 10
unfolding base_delay
base_delay_grows zero h k = ground arith
base_delay_grows (suc zero) h k = ground arith
base_delay_grows (suc (suc zero)) h k = ground arith
base_delay_grows (suc (suc (suc zero))) h k = ground arith
base_delay_grows (suc (suc (suc (suc n)))) h k = ground arith

-- An entry of the table, times a number within 20 per cent of 1.
scaled_bounds :
    (attempt : ℕ) {b : ℕ} (u : ℕ)
    → base_delay attempt ≡ some b
    → 72057594037927936 ≤ u
    → u ≤ 108086391056891904
    → (8 * b / 10 ≤ b * u / factor_unit) × (b * u / factor_unit ≤ 12 * b / 10)
unfolding base_delay
scaled_bounds zero u e low high = cc
scaled_bounds (suc zero) u e low high = rw (sym (some_eq e)) (omega arith, omega arith)
scaled_bounds (suc (suc zero)) u e low high = rw (sym (some_eq e)) (omega arith, omega arith)
scaled_bounds (suc (suc (suc zero))) u e low high = rw (sym (some_eq e)) (omega arith, omega arith)
scaled_bounds (suc (suc (suc (suc zero)))) u e low high =
    rw (sym (some_eq e)) (omega arith, omega arith)
scaled_bounds (suc (suc (suc (suc (suc n))))) u e low high = absurd (ground arith)

module _ (p : Platform) (attempt : ℕ) (j : Bool) (w : World p) where
  -- A delay is found without an exception, and nothing but a random number is read.
  pub next_retry_delay_reads :
      (d : Option ℕ) × (k : ℕ) × (next_retry_delay p attempt j w ≡ (ok d, record w { tick = k }))
  unfolding next_retry_delay
  next_retry_delay_reads = elim (Option-cases (base_delay attempt)) [
    | inl e ↦ (none, w.tick, rw (e, next_retry_delay))
    | inr (zero, e) ↦ (some 0, w.tick, ground arith)
    | inr (suc b, e) ↦ elim (Bool-cases j) [
      | inl yes_jitter ↦ (some (suc b * factor p w.tick / factor_unit), w.tick + 1, ground arith)
      | inr no_jitter ↦ (some (suc b), w.tick, ground arith)
    ]
  ]

  -- A delay that is found is within 20 per cent of the table's entry for the attempt, rounded down.
  pub next_retry_delay_bounds :
      {d : ℕ}
      → (next_retry_delay p attempt j w).0 ≡ ok (some d)
      → (b : ℕ) × (base_delay attempt ≡ some b) × (8 * b / 10 ≤ d) × (d ≤ 12 * b / 10)
  unfolding next_retry_delay
  next_retry_delay_bounds h = elim (Option-cases (base_delay attempt)) [
    | inl e ↦ absurd (ground arith)
    | inr (b, e) ↦
        let (low, high) =
          p.uniform_bounds w.tick 72057594037927936 108086391056891904 (omega arith) in
        let scaled = scaled_bounds attempt (factor p w.tick) e low high in
        (b, e, ground (arith, scaled), ground (arith, scaled))
  ]

  -- There is no delay for attempt 0 and for those after the fourth, and there is one for all others.
  pub next_retry_delay-none_iff :
      ((next_retry_delay p attempt j w).0 ≡ ok none) ↔ ((attempt ≡ 0) ⊎ (4 < attempt))
  unfolding next_retry_delay
  next_retry_delay-none_iff = ground (arith, base_delay-none_iff attempt)

-- The delay of an attempt is below that of the next, whatever the random numbers are.
pub next_retry_delay_grows :
    (p : Platform) (attempt : ℕ) (i j : Bool) (v w : World p) {c d : ℕ}
    → (next_retry_delay p attempt i v).0 ≡ ok (some c)
    → (next_retry_delay p (attempt + 1) j w).0 ≡ ok (some d)
    → c < d
next_retry_delay_grows p attempt i j v w h k = ground (
  arith,
  next_retry_delay_bounds p attempt i v h,
  next_retry_delay_bounds p (attempt + 1) j w k,
  base_delay_grows attempt (next_retry_delay_bounds p attempt i v h).1
      (next_retry_delay_bounds p (attempt + 1) j w k).1,
)
