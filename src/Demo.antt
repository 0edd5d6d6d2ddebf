-- ===== src/Demo.antt =====
-- api/app/demo/checkout_simulator.py: which events the demo fails on purpose.
use replay_forge.Base.{ℕ, ◌*◌, String, Bool, ltb, str_eq, if◌then◌else◌}
use replay_forge.Service.World.{Platform, Seed}

-- `random()` is a multiple of 2 ^ -53 below 1.
abbrev pub random_units : ℕ
random_units = 9007199254740992

-- FAIL_RATES, in percent
unfoldable pub fail_rate : String → ℕ
fail_rate event_type =
    if str_eq event_type "payment.authorized"
    then 15
    else if str_eq event_type "inventory.reserved"
    then 10
    else if str_eq event_type "email.receipt_sent"
    then 25
    else 0

-- CRASH_RATE, in percent
abbrev pub crash_rate : ℕ
crash_rate = 1

-- `rng.random() < rate`
abbrev pub is_below_rate : ℕ → ℕ → Bool
is_below_rate drawn rate = ltb (100 * drawn) (rate * random_units)

unfoldable pub should_fail_event : Platform → ℕ → String → ℕ → Bool
unfolding fail_rate
should_fail_event p event_id event_type attempt_count =
    is_below_rate (p.first_random (Seed.fault event_id attempt_count)) (fail_rate event_type)

unfoldable pub should_crash : Platform → ℕ → ℕ → Bool
should_crash p event_id attempt_count =
    is_below_rate (p.first_random (Seed.crash event_id attempt_count)) crash_rate
