-- ===== src/Anomalies/Halves.antt =====
-- The two halves of a report on anomalies, and the attempts that each speaks of.
use replay_forge.Base.{
  ℕ, ◌+◌, ◌/◌, ◌≤◌, ◌<◌, ◌≡◌, refl, Bool, false, List, [], ◌∷◌, Option, none, some, arith, count_by,
  length, leb, ltb, if◌then◌else◌, ◌&&◌, sorted, length-sorted, get_elem?-some,
}
use replay_forge.Models.{EventAttempt, ℤ}
use replay_forge.Metrics.{durations_of, tail, tail_place, le_duration}
use replay_forge.Anomalies.{
  Stats, minutes, finished, has_failed, stats_with, stats, in_baseline, in_recent,
}

-- `finished_at >= cutoff`
abbrev pub in_lookback : (read lookback_minutes : ℕ) → EventAttempt → Bool
in_lookback read lookback_minutes = finished (λ t. leb read (t + minutes lookback_minutes))

halves_of :
    (read lookback_minutes t : ℕ)
    → (if leb read (t + minutes lookback_minutes) then 1 else 0)
      ≡ (if leb read (t + minutes lookback_minutes) && ltb (t + minutes (lookback_minutes / 2)) read
          then 1
          else 0)
        + (if leb read (t + minutes (lookback_minutes / 2)) then 1 else 0)
halves_of read lookback_minutes t =
    let le : minutes (lookback_minutes / 2) ≤ minutes lookback_minutes = omega arith in
    ground (arith, le)

-- An attempt that is in the window is in one of its halves.
one_half :
    (read lookback_minutes : ℕ) (a : EventAttempt)
    → (if in_lookback read lookback_minutes a then 1 else 0)
      ≡ (if in_baseline read lookback_minutes a then 1 else 0)
        + (if in_recent read lookback_minutes a then 1 else 0)
one_half read lookback_minutes a = half_at a.finished_at
  where
    half_at :
        (o : Option ℕ)
        → (if (elim o [ none ↦ false | some t ↦ leb read (t + minutes lookback_minutes) ])
            then 1
            else 0)
          ≡ (if (elim o [
            | none ↦ false
            | some t ↦
                leb read (t + minutes lookback_minutes)
                && ltb (t + minutes (lookback_minutes / 2)) read
          ])
              then 1
              else 0)
            + (if (elim o [ none ↦ false | some t ↦ leb read (t + minutes (lookback_minutes / 2)) ])
                then 1
                else 0)
    half_at none = refl
    half_at (some t) = halves_of read lookback_minutes t

pub both_halves :
    (read lookback_minutes : ℕ) (rows : List EventAttempt)
    → count_by (in_lookback read lookback_minutes) rows
      ≡ count_by (in_baseline read lookback_minutes) rows
        + count_by (in_recent read lookback_minutes) rows
both_halves read lookback_minutes [] = refl
both_halves read lookback_minutes (a ∷ rows) =
    ground (arith, one_half read lookback_minutes a, both_halves read lookback_minutes rows)

-- What a half of a report says of its attempts: nothing exactly if none of them has a duration, and
-- otherwise how many there are and how many failed.
abbrev pub IsHalf : List EventAttempt → Option Stats → Type 0
IsHalf rows none = durations_of rows ≡ []
IsHalf rows (some s) = (s.total ≡ length rows) × (s.failed ≡ count_by has_failed rows)

tail_place_lt : (n : ℕ) → 0 < n → tail_place n < n
tail_place_lt n h = ground arith

tail_some : (d : ℤ) (ds : List ℤ) → (x : ℤ) × (tail (d ∷ ds) ≡ some x)
tail_some d ds =
    let ordered = sorted le_duration (d ∷ ds) in
    let many = length-sorted le_duration (d ∷ ds) in
    get_elem?-some ordered (tail_place (length ordered))
      (tail_place_lt (length ordered) (omega (arith, many)))

stats_with-IsHalf :
    (rows : List EventAttempt) (ds : List ℤ)
    → durations_of rows ≡ ds
    → IsHalf rows (stats_with rows ds (tail ds))
stats_with-IsHalf rows [] e = e
stats_with-IsHalf rows (d ∷ ds) e = rw (tail_some d ds).1 (refl, refl)

pub stats-IsHalf : (rows : List EventAttempt) → IsHalf rows (stats rows)
unfolding stats
stats-IsHalf rows = stats_with-IsHalf rows (durations_of rows) refl
