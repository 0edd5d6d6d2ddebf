-- ===== src/Tests/Retry.antt =====
-- The delays of api/app/tests/test_retry_policy.py, and the theorems on them at concrete inputs.
use replay_forge.Base.{ℕ, ◌*◌, ◌/◌, ◌≤◌, ◌≡◌, refl, true, false, none, some}
use replay_forge.Service.World.{ok}
use replay_forge.Retry.{base_delay, next_retry_delay, should_dead_letter}
use replay_forge.Retry.Bounds.{next_retry_delay_bounds}
use replay_forge.Tests.Services.{platform}
use replay_forge.Tests.Data.{fresh, world}

delays :
    ((next_retry_delay platform 1 false (world fresh)).0 ≡ ok (some 0))
    × ((next_retry_delay platform 4 false (world fresh)).0 ≡ ok (some 60))
    × ((next_retry_delay platform 5 false (world fresh)).0 ≡ ok none)
unfolding base_delay next_retry_delay
delays = (refl, refl, refl)

limits : (should_dead_letter 4 4 ≡ true) × (should_dead_letter 3 4 ≡ false)
unfolding should_dead_letter
limits = (refl, refl)

next_retry_delay_bounds_example :
    (b : ℕ) × (base_delay 3 ≡ some b) × (8 * b / 10 ≤ 30) × (30 ≤ 12 * b / 10)
unfolding base_delay next_retry_delay
next_retry_delay_bounds_example = next_retry_delay_bounds platform 3 true (world fresh) refl
