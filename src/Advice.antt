-- ===== src/Advice.antt =====
-- api/app/core/ai_insights.py: recommend_retry_policy. Rates and averages are compared as exact
-- fractions.
pub mod Chosen
use replay_forge.Base.{
  ℕ, ◌+◌, ◌*◌, String, Bool, ◌&&◌, List, if◌then◌else◌, ltb, leb, map, keep, count_by, length,
  sorted, sum_by, group_by, round_half_even, Ratio,
}
use replay_forge.Models.{Status, Event}
use replay_forge.Service.World.{Platform, Step, ◌>>=◌, pure, get_db}
use replay_forge.Convergence.Rows.{has_status}
use replay_forge.Metrics.{rate}
use replay_forge.Insights.{type_of}

pub data Policy : Type 0 where
  reduce_attempts increase_backoff investigate_root_cause keep_current : Policy

-- What a group of events of one type comes to: `dead_rate` and `avg_att` are `dead` and `attempts`
-- over `total`.
pub record Recommendation : Type 0 where
  pub event_type : String
  pub total : ℕ
  pub succeeded : ℕ
  pub dead : ℕ
  pub attempts : ℕ
  pub recommendation : Policy
  pub suggested_max_attempts : ℕ

-- `dead_rate < 0.02 and avg_att < 1.3`, `dead_rate > 0.10`, `avg_att > 2.5`
abbrev pub rarely_fails : (total dead attempts : ℕ) → Bool
rarely_fails total dead attempts = ltb (100 * dead) (2 * total) && ltb (10 * attempts) (13 * total)

abbrev pub often_dead : (total dead : ℕ) → Bool
often_dead total dead = ltb total (10 * dead)

abbrev pub often_retried : (total attempts : ℕ) → Bool
often_retried total attempts = ltb (5 * total) (2 * attempts)

unfoldable pub decide : (total dead attempts : ℕ) → Policy × ℕ
decide total dead attempts =
    if rarely_fails total dead attempts
    then (Policy.reduce_attempts, 2)
    else if often_dead total dead
    then (Policy.increase_backoff, 6)
    else if often_retried total attempts
    then (Policy.investigate_root_cause, 4)
    else (Policy.keep_current, 4)

-- `total < 10: continue`
abbrev pub is_enough : List Event → Bool
is_enough group = leb 10 (length group)

unfoldable pub recommend : String × List Event → Recommendation
recommend (event_type, group) =
    let dead = count_by (has_status Status.dead_lettered) group in
    let attempts = sum_by (λ (e : Event). e.attempt_count) group in
    let chosen = decide (length group) dead attempts in
    record {
      event_type = event_type;
      total = length group;
      succeeded = count_by (has_status Status.succeeded) group;
      dead = dead;
      attempts = attempts;
      recommendation = chosen.0;
      suggested_max_attempts = chosen.1;
    }

-- `sorted(..., key=lambda x: x["dead_letter_rate"], reverse=True)`: the rate in thousandths.
abbrev pub dead_letter_rate : Recommendation → ℕ
dead_letter_rate r = round_half_even (1000 * r.dead) r.total

abbrev pub more_dead : Recommendation → Recommendation → Bool
more_dead a b = leb (dead_letter_rate b) (dead_letter_rate a)

unfoldable pub recommendations_of : List Event → List Recommendation
recommendations_of events =
    sorted more_dead (map recommend (keep (λ g. is_enough g.1) (group_by type_of events)))

-- `recommend_retry_policy`
unfoldable pub recommend_retry_policy : (p : Platform) → Step p (List Recommendation)
recommend_retry_policy p = do db ← get_db p; pure (recommendations_of (p.tables.rows db.events))
