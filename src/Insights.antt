-- ===== src/Insights.antt =====
-- api/app/api/insights.py: the events by service and by type, and the histogram of the durations.
-- Rates and averages are fractions before the code rounds them.
pub mod Groups
pub mod Histogram
pub mod Recent
use replay_forge.Base.{
  ℕ, zero, suc, ◌+◌, String, Bool, true, false, ◌&&◌, List, [], ◌∷◌, Option, none, some,
  if◌then◌else◌, ltb, leb, ◌==◌, str_eq, map, keep, count_by, length, sorted, Ratio, sum_by,
  group_by,
}
use replay_forge.Models.{Status, Event, EventAttempt, ℤ, pos, negsuc}
use replay_forge.Service.World.{Platform, Step, ◌>>=◌, pure, get_db}
use replay_forge.Convergence.Rows.{has_status}
use replay_forge.Metrics.{Average, average, durations_of, rate}

-- An element of what `services_breakdown` returns.
pub record ServiceRow : Type 0 where
  pub service : String
  pub total : ℕ
  pub succeeded : ℕ
  pub failed : ℕ
  pub retrying : ℕ
  pub success_rate : Ratio
  pub avg_duration : Option Average

abbrev pub service_of : Event → String
service_of e = e.service_name

-- The join of the attempts with the events of a service. Ids are unique, so that an attempt is
-- joined with one event.
abbrev pub of_service : List Event → String → EventAttempt → Bool
of_service events service a =
    ltb 0 (count_by (λ (e : Event). e.id == a.event_id && str_eq e.service_name service) events)

unfoldable pub service_row : List Event → List EventAttempt → String × List Event → ServiceRow
service_row events attempts (service, group) = record {
  service = service;
  total = length group;
  succeeded = count_by (has_status Status.succeeded) group;
  failed = count_by (has_status Status.dead_lettered) group;
  retrying = count_by (has_status Status.retrying) group;
  success_rate = rate (count_by (has_status Status.succeeded) group) (length group);
  avg_duration = average (durations_of (keep (of_service events service) attempts));
}

-- `out.sort(key=lambda x: x["total"], reverse=True)`
abbrev pub more_services : ServiceRow → ServiceRow → Bool
more_services a b = leb b.total a.total

unfoldable pub services_of : List Event → List EventAttempt → List ServiceRow
services_of events attempts =
    sorted more_services (map (service_row events attempts) (group_by service_of events))

-- `services_breakdown`
unfoldable pub services_breakdown : (p : Platform) → Step p (List ServiceRow)
services_breakdown p = do
  db ← get_db p
  pure (services_of (p.tables.rows db.events) (p.tables.rows db.attempts))

-- An element of what `event_type_breakdown` returns.
pub record TypeRow : Type 0 where
  pub event_type : String
  pub total : ℕ
  pub succeeded : ℕ
  pub dead_lettered : ℕ
  pub retrying : ℕ
  pub avg_attempts : Ratio

abbrev pub type_of : Event → String
type_of e = e.event_type

unfoldable pub type_row : String × List Event → TypeRow
type_row (event_type, group) = record {
  event_type = event_type;
  total = length group;
  succeeded = count_by (has_status Status.succeeded) group;
  dead_lettered = count_by (has_status Status.dead_lettered) group;
  retrying = count_by (has_status Status.retrying) group;
  avg_attempts = rate (sum_by (λ (e : Event). e.attempt_count) group) (length group);
}

-- `order_by(func.count(Event.id).desc())`
abbrev pub more_types : TypeRow → TypeRow → Bool
more_types a b = leb b.total a.total

unfoldable pub types_of : List Event → List TypeRow
types_of events = sorted more_types (map type_row (group_by type_of events))

-- `event_type_breakdown`
unfoldable pub event_type_breakdown : (p : Platform) → Step p (List TypeRow)
event_type_breakdown p = do db ← get_db p; pure (types_of (p.tables.rows db.events))

-- `bins[1:]`
abbrev pub upper_ends : List ℕ
upper_ends = 25 ∷ 50 ∷ 75 ∷ 100 ∷ 150 ∷ 200 ∷ 300 ∷ 500 ∷ 1000 ∷ []

-- `d < hi`
abbrev pub below : ℤ → ℕ → Bool
below (pos a) hi = ltb a hi
below (negsuc a) hi = true

-- The first place with `d < hi`, and the place after the last where there is none.
abbrev pub place_of : ℤ → List ℕ → ℕ
place_of d [] = 0
place_of d (hi ∷ his) = if below d hi then 0 else suc (place_of d his)

-- `counts[i] += 1`
abbrev pub count_at : ℕ → List ℕ → List ℕ
count_at i [] = []
count_at zero (c ∷ cs) = suc c ∷ cs
count_at (suc i) (c ∷ cs) = c ∷ count_at i cs

-- `[0] * len(labels)`, and the loop over the durations
abbrev pub counts_of : List ℤ → List ℕ
counts_of [] = 0 ∷ 0 ∷ 0 ∷ 0 ∷ 0 ∷ 0 ∷ 0 ∷ 0 ∷ 0 ∷ 0 ∷ []
counts_of (d ∷ ds) = count_at (place_of d upper_ends) (counts_of ds)

pub record LatencyHistogram : Type 0 where
  pub counts : List ℕ
  pub total : ℕ

-- `latency_histogram`; the labels are constants.
unfoldable pub latency_histogram : (p : Platform) → Step p LatencyHistogram
latency_histogram p = do
  db ← get_db p
  let durations = durations_of (p.tables.rows db.attempts)
  pure (record { counts = counts_of durations; total = length durations })
