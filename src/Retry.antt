-- ===== src/Retry.antt =====
-- api/app/core/retry_policy.py: the backoff before the next attempt, and when to give up.
pub mod Bounds
use replay_forge.Base.{
  ℕ, ◌+◌, ◌*◌, ◌/◌, ◌-◌, Bool, true, false, ◌&&◌, List, [], ◌∷◌, Option, none, some, ltb, leb, ◌==◌,
  if◌then◌else◌, length, get_elem?,
}
use replay_forge.Service.World.{Platform, Step, ok, pure, ◌>>=◌}

-- `_BACKOFF`, in seconds
abbrev pub backoff : List ℕ
backoff = 0 ∷ 10 ∷ 30 ∷ 60 ∷ []

-- `base` of attempt number `attempt`: `idx < 0` is the case of attempt 0.
unfoldable pub base_delay : ℕ → Option ℕ
base_delay attempt = if attempt == 0 then none else get_elem? backoff (attempt - 1)

-- `random.uniform(0.8, 1.2)`, in units of 2 ^ -53 / 10
abbrev pub factor_unit : ℕ
factor_unit = 90071992547409920

abbrev pub factor : Platform → ℕ → ℕ
factor p k = p.uniform k 72057594037927936 108086391056891904

-- `int(base * random.uniform(0.8, 1.2))`, with the product as it is before rounding
abbrev pub jitter : (p : Platform) → ℕ → Step p ℕ
jitter p base w = (ok (base * factor p w.tick / factor_unit), record w { tick = w.tick + 1 })

-- `next_retry_delay(attempt, jitter)`
unfoldable pub next_retry_delay : (p : Platform) → ℕ → Bool → Step p (Option ℕ)
next_retry_delay p attempt with_jitter = elim (base_delay attempt) [
  | none ↦ pure none
  | some base ↦
      if with_jitter && ltb 0 base
      then (do delay ← jitter p base; pure (some delay))
      else pure (some base)
]

unfoldable pub should_dead_letter : ℕ → ℕ → Bool
should_dead_letter attempt_count max_attempts = leb max_attempts attempt_count
