-- ===== src/Advice/Chosen.antt =====
-- Which event types recommend_retry_policy of api/app/core/ai_insights.py speaks of, and what it says.
use replay_forge.Base.{ℕ, ◌*◌, ◌≤◌, ◌<◌, ◌≡◌, ◌↔◌, String, List, str_eq, count_by, rows_of, sum_by}
use replay_forge.Models.{Event, Status}
use replay_forge.Insights.Groups.{in_group}
use replay_forge.Service.World.{World}
use replay_forge.Insights.{type_of}
use replay_forge.Advice.{Recommendation}

-- The events of a type, counted.
abbrev pub of_type : List Event → String → ℕ
of_type events k = count_by (λ e. str_eq (type_of e) k) events

-- The advice of a recommendation: its numbers are those of the events of its type. More attempts than four exactly if more than a tenth of the events
-- are dead-lettered, fewer exactly if less than a fiftieth are and an event has fewer than 1.3 failed
-- attempts on average; and ten events at least.
pub record IsAdvice (events : List Event) (r : Recommendation) : Type 0 where
  pub all_of_type : r.total ≡ of_type events r.event_type
  pub all_succeeded : r.succeeded ≡ count_by (in_group type_of r.event_type Status.succeeded) events
  pub all_dead : r.dead ≡ count_by (in_group type_of r.event_type Status.dead_lettered) events
  pub all_attempts :
      r.attempts ≡ sum_by (λ (e : Event). e.attempt_count) (rows_of type_of r.event_type events)
  pub more : (4 < r.suggested_max_attempts) ↔ (r.total < 10 * r.dead)
  pub fewer :
      (r.suggested_max_attempts < 4)
      ↔ ((100 * r.dead < 2 * r.total) × (10 * r.attempts < 13 * r.total))
  pub enough : 10 ≤ r.total
