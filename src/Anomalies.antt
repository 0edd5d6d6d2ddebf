-- ===== src/Anomalies.antt =====
-- api/app/core/ai_insights.py: detect_anomalies. Times are numbers of microseconds, and rates are compared
-- as exact fractions.
pub mod Few
pub mod Halves
pub mod Report
use replay_forge.Base.{
  ℕ, ◌+◌, ◌*◌, ◌/◌, String, Bool, true, false, not, ◌&&◌, List, [], ◌∷◌, ◌++◌, Option, none, some,
  map, keep, count_by, length, ltb, leb, group_by, Ratio, lt_ratio, if◌then◌else◌,
}
use replay_forge.Models.{ℤ, pos, negsuc, Status, Event, EventAttempt}
use replay_forge.Accounting.{is_failed}
use replay_forge.Service.World.{Platform, Step, ◌>>=◌, pure, now, get_db}
use replay_forge.Convergence.Rows.{has_status}
use replay_forge.Metrics.{Average, durations_of, le_duration, sum_durations, tail}
use replay_forge.Insights.{service_of}

-- `_stats`: `failure_rate` is `failed` over `total`.
pub record Stats : Type 0 where
  pub total : ℕ
  pub failed : ℕ
  pub average : Average
  pub p95_ms : ℤ

abbrev pub has_failed : EventAttempt → Bool
has_failed a = is_failed a.status

abbrev pub stats_with : List EventAttempt → List ℤ → Option ℤ → Option Stats
stats_with rows durations none = none
stats_with rows durations (some p95) = some (record {
  total = length rows;
  failed = count_by has_failed rows;
  average = record { total = sum_durations durations; count = length durations };
  p95_ms = p95;
})

-- There is no 95th percentile exactly if there are no durations.
unfoldable pub stats : List EventAttempt → Option Stats
stats rows = stats_with rows (durations_of rows) (tail (durations_of rows))

pub data Anomaly : Type 0 where
  error_rate_spike : (baseline current : Ratio) → Anomaly
  latency_degradation : (baseline_p95_ms current_p95_ms : ℤ) → Anomaly
  throughput_drop : (baseline_per_min current_per_min : Ratio) → Anomaly
  service_outlier : (service : String) (dlq_rate : Ratio) → Anomaly

abbrev pub failure_rate : Stats → Ratio
failure_rate s = record { num = s.failed; den = s.total }

abbrev pub double : ℤ → ℤ
double (pos n) = pos (2 * n)
double (negsuc n) = negsuc (2 * n + 1)

abbrev pub gt : ℤ → ℤ → Bool
gt a b = not (le_duration a b)

-- `max(lookback_minutes / 2, 1)`, in halves of a minute
abbrev pub half_minutes : ℕ → ℕ
half_minutes lookback_minutes = if leb lookback_minutes 2 then 2 else lookback_minutes

abbrev pub per_minute : ℕ → Stats → Ratio
per_minute lookback_minutes s = record { num = 2 * s.total; den = half_minutes lookback_minutes }

-- The tests on the two halves, for `base` and `rec`.
abbrev pub is_spike : Stats → Stats → Bool
is_spike base rec =
    ltb rec.total (20 * rec.failed) && ltb (2 * base.failed * rec.total) (rec.failed * base.total)

abbrev pub is_slower : Stats → Stats → Bool
is_slower base rec = gt rec.p95_ms (double base.p95_ms) && gt rec.p95_ms (pos 200)

abbrev pub is_drop : ℕ → Stats → Stats → Bool
is_drop lookback_minutes base rec =
    ltb (5 * half_minutes lookback_minutes) (2 * base.total) && ltb (2 * rec.total) base.total

abbrev pub if_so : Bool → Anomaly → List Anomaly → List Anomaly
if_so true a rest = a ∷ rest
if_so false a rest = rest

-- `if base and rec: ...`
unfoldable pub half_anomalies : ℕ → Option Stats → Option Stats → List Anomaly
half_anomalies lookback_minutes (some base) (some rec) =
    if_so (is_spike base rec) (error_rate_spike (failure_rate base) (failure_rate rec)) (
      if_so (is_slower base rec) (latency_degradation base.p95_ms rec.p95_ms) (
        if_so (is_drop lookback_minutes base rec)
          (throughput_drop (per_minute lookback_minutes base) (per_minute lookback_minutes rec))
          []))
half_anomalies lookback_minutes _ _ = []

-- A row of `svc_stats`, less the retries, which are not read.
pub record ServiceStats : Type 0 where
  pub service_name : String
  pub total : ℕ
  pub dlq : ℕ

abbrev pub service_stats : String × List Event → ServiceStats
service_stats (service, events) = record {
  service_name = service;
  total = length events;
  dlq = count_by (has_status Status.dead_lettered) events;
}

abbrev pub dlq_rate : ServiceStats → Ratio
dlq_rate r = record { num = r.dlq; den = r.total }

abbrev pub add_ratio : Ratio → Ratio → Ratio
add_ratio a b = record { num = a.num * b.den + b.num * a.den; den = a.den * b.den }

abbrev pub sum_rates : List ServiceStats → Ratio
sum_rates [] = record { num = 0; den = 1 }
sum_rates (r ∷ rs) = add_ratio (dlq_rate r) (sum_rates rs)

-- `avg_dlq_rate * 3`: every service has an event, so that none is left out of the average.
abbrev pub limit_rate : List ServiceStats → Ratio
limit_rate rs = record { num = 3 * (sum_rates rs).num; den = length rs * (sum_rates rs).den }

-- `r.total > 10`, `rate > avg_dlq_rate * 3 and rate > 0.05`
abbrev pub is_outlier : Ratio → ServiceStats → Bool
is_outlier limit r = ltb 10 r.total && lt_ratio limit (dlq_rate r) && ltb r.total (20 * r.dlq)

abbrev pub outlier : ServiceStats → Anomaly
outlier r = service_outlier r.service_name (dlq_rate r)

unfoldable pub service_anomalies : List ServiceStats → List Anomaly
service_anomalies rs = map outlier (keep (is_outlier (limit_rate rs)) rs)

pub record AnomalyReport : Type 0 where
  pub checked_at : ℕ
  pub lookback_minutes : ℕ
  pub baseline : Option Stats
  pub current : Option Stats
  pub anomalies : List Anomaly
  pub anomaly_count : ℕ
  pub is_anomaly : Bool

abbrev pub minutes : ℕ → ℕ
minutes n = 60000000 * n

-- `finished_at.isnot(None)`, and a test on it
abbrev pub finished : (ℕ → Bool) → EventAttempt → Bool
finished test a = elim a.finished_at [ none ↦ false | some t ↦ test t ]

-- `finished_at >= cutoff` and `finished_at < half`, and `finished_at >= half`
abbrev pub in_baseline : (read lookback_minutes : ℕ) → EventAttempt → Bool
in_baseline read lookback_minutes =
    finished (λ t.
      leb read (t + minutes lookback_minutes) && ltb (t + minutes (lookback_minutes / 2)) read)

abbrev pub in_recent : (read lookback_minutes : ℕ) → EventAttempt → Bool
in_recent read lookback_minutes = finished (λ t. leb read (t + minutes (lookback_minutes / 2)))

-- `Event.created_at >= cutoff`
abbrev pub is_recent : (read lookback_minutes : ℕ) → Event → Bool
is_recent read lookback_minutes e = leb read (e.created_at + minutes lookback_minutes)

abbrev pub services : ℕ → ℕ → List Event → List ServiceStats
services read lookback_minutes events =
    map service_stats (group_by service_of (keep (is_recent read lookback_minutes) events))

unfoldable pub report_anomalies :
    (read lookback_minutes : ℕ) → List EventAttempt → List Event → AnomalyReport
report_anomalies read lookback_minutes attempts events =
    let base = stats (keep (in_baseline read lookback_minutes) attempts) in
    let rec = stats (keep (in_recent read lookback_minutes) attempts) in
    let found =
      half_anomalies lookback_minutes base rec
      ++ service_anomalies (services read lookback_minutes events) in
    record {
      checked_at = read;
      lookback_minutes = lookback_minutes;
      baseline = base;
      current = rec;
      anomalies = found;
      anomaly_count = length found;
      is_anomaly = ltb 0 (length found);
    }

-- `detect_anomalies`
unfoldable pub detect_anomalies : (p : Platform) → ℕ → Step p AnomalyReport
detect_anomalies p lookback_minutes = do
  read ← now p
  db ← get_db p
  pure
      (report_anomalies read lookback_minutes (p.tables.rows db.attempts) (p.tables.rows db.events))
