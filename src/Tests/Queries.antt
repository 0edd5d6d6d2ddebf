-- ===== src/Tests/Queries.antt =====
-- The theorems of Metrics and Insights at concrete inputs.
use replay_forge.Base.{
  ℕ, ◌≡◌, ◌≤◌, List, [], ◌∷◌, none, some, sum_by, count_by, arith, ◌+◌, true, refl, round_half_even,
}
use replay_forge.Models.{IncidentSummary, Event, EventAttempt, Status, pos, is_event}
use replay_forge.Service.World.{World, ok}
use replay_forge.Convergence.Report.{Gauges}
use replay_forge.Metrics.{MetricsOut, get_metrics}
use replay_forge.Metrics.Agrees.{IsAgreed, get_metrics-IsAgreed}
use replay_forge.Insights.{LatencyHistogram, latency_histogram}
use replay_forge.Insights.Histogram.{in_intervals, latency_histogram-in_intervals}
use replay_forge.Advice.{Policy, recommendations_of, recommend, decide}
use replay_forge.Summaries.{
  Writer, is_cached, summarize_workflow, summarize_anew, write_summary, claude_summarize,
  template_summarize,
}
use replay_forge.Summaries.Cached.{summarize_workflow_twice}
use replay_forge.Tests.Services.{platform, fake_redis}
use replay_forge.Tests.Data.{fresh, dead, failed_attempt, dead_world}

-- Two services, and attempts of 30 and of 2000 milliseconds.
abbrev other : Event
other = record fresh { id = 8; service_name = "inventory-service"; status = Status.succeeded }

abbrev third : Event
third = record fresh { id = 9; status = Status.retrying }

abbrev attempts : List EventAttempt
attempts =
    record (failed_attempt 1) { duration_ms = some (pos 30) }
    ∷ record (failed_attempt 2) { duration_ms = some (pos 2000) }
    ∷ failed_attempt 3
    ∷ []

abbrev busy_world : World platform
busy_world = record dead_world {
  db = record dead_world.db { events = dead ∷ other ∷ third ∷ []; attempts = attempts };
}

-- One call raises.
abbrev gauges : Gauges fake_redis
gauges = record { zcard = λ s. none; xlen = λ t s. some 2; xpending = λ t s. some 1 }

unique : (id : ℕ) → count_by (is_event id) busy_world.db.events ≤ 1
unique id = ground arith

get_metrics-IsAgreed_example :
    (o : MetricsOut) × ((get_metrics platform gauges (λ k d. d) busy_world).0 ≡ ok o)
    × IsAgreed (dead ∷ other ∷ third ∷ []) o
get_metrics-IsAgreed_example = get_metrics-IsAgreed platform gauges busy_world unique

latency_histogram-in_intervals_example :
    (h : LatencyHistogram) × ((latency_histogram platform busy_world).0 ≡ ok h)
    × (h.counts ≡ in_intervals (pos 30 ∷ pos 2000 ∷ []))
    × (sum_by (λ n. n) h.counts ≡ h.total)
    × (h.total ≡ 2)
latency_histogram-in_intervals_example = latency_histogram-in_intervals platform busy_world

-- The key is there, and the model does not answer.
abbrev writer : Writer
writer = record { render = λ t. "a summary"; claude = λ es. none; api_key = "key" }

abbrev summary : IncidentSummary
summary = record {
  id = platform.uuid4 1;
  workflow_id = "checkout_1";
  summary_text = "a summary";
  model_name = none;
  created_at = 2000000;
}

abbrev first_world : World platform
first_world = record busy_world {
  db = record busy_world.db { incident_summaries = summary ∷ [] };
  tick = busy_world.tick + 3;
}

-- The next request, ten seconds later.
abbrev next_world : World platform
next_world = record first_world { tick = 12 }

summarize_workflow_twice_example :
    (t : IncidentSummary) × (v' : World platform) × (summarize_workflow platform writer "checkout_1"
        next_world
      ≡ (ok t, v'))
    × (is_cached "checkout_1" 12000000 t ≡ true)
    × (v'.db ≡ next_world.db)
unfolding summarize_workflow summarize_anew write_summary claude_summarize template_summarize
summarize_workflow_twice_example =
    summarize_workflow_twice platform writer "checkout_1" busy_world next_world first_world summary
      refl refl (omega arith)

-- Ten events of one type, and one of another.
abbrev frequent_world : World platform
frequent_world = record busy_world {
  db = record busy_world.db {
    events =
        dead
        ∷ dead
        ∷ fresh
        ∷ fresh
        ∷ fresh
        ∷ fresh
        ∷ fresh
        ∷ fresh
        ∷ fresh
        ∷ fresh
        ∷ record fresh { event_type = "refund.issued" }
        ∷ [];
  };
}

-- One event type has ten events, a fifth of them dead-lettered.
ten_are_enough :
    recommendations_of frequent_world.db.events
    ≡ record {
      event_type = "payment.authorized";
      total = 10;
      succeeded = 0;
      dead = 2;
      attempts = 6;
      recommendation = Policy.increase_backoff;
      suggested_max_attempts = 6;
    }
      ∷ []
unfolding recommendations_of recommend decide round_half_even
ten_are_enough = refl
