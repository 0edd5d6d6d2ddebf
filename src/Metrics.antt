-- ===== src/Metrics.antt =====
-- api/app/api/metrics.py: the numbers of `/api/metrics`. Averages and rates are fractions before the
-- code rounds them.
pub mod Agrees
use replay_forge.Base.{
  ℕ, zero, suc, ◌+◌, ◌*◌, ◌-◌, ◌/◌, Bool, true, false, ◌&&◌, List, [], ◌∷◌, Option, none, some,
  if◌then◌else◌, ◌==◌, leb, map, keep, count_by, length, get_elem?, sorted, Ratio,
}
use replay_forge.Models.{
  Status, Event, EventAttempt, DeadLetter, Worker, ℤ, pos, negsuc, is_event, status_eq,
}
use replay_forge.Service.Redis.{Redis, Stream}
use replay_forge.Service.World.{Platform, Step, ok, ◌>>=◌, pure, now}
use replay_forge.Service.Tables.{Db}
use replay_forge.Convergence.Rows.{status_counts, count_of, sum_counts, is_succeeded, is_failed}
use replay_forge.Convergence.Report.{Gauges, ConvergenceReport, build_convergence_report}

-- The depths of the streams, each with a `try` of its own.
pub record Backlog : Type 0 where
  pub retry_queue_depth : ℕ
  pub incoming_stream_depth : ℕ
  pub retry_stream_depth : ℕ
  pub incoming_pending : ℕ
  pub retry_pending : ℕ

abbrev pub or_zero : Option ℕ → ℕ
or_zero none = 0
or_zero (some n) = n

unfoldable pub backlog : {r : Redis} → Gauges r → r.Server → Backlog
backlog g s = record {
  retry_queue_depth = or_zero (g.zcard s);
  incoming_stream_depth = or_zero (g.xlen Stream.incoming s);
  retry_stream_depth = or_zero (g.xlen Stream.retry s);
  incoming_pending = or_zero (g.xpending Stream.incoming s);
  retry_pending = or_zero (g.xpending Stream.retry s);
}

-- `finished_at >= recent_cutoff`, a minute before `read`
abbrev pub is_recent_success : ℕ → EventAttempt → Bool
is_recent_success read a = is_succeeded a.status && finished_since a.finished_at
  where
    finished_since : Option ℕ → Bool
    finished_since none = false
    finished_since (some t) = leb read (t + 1000000 * 60)

-- `DeadLetter.replayed_at.isnot(None)`
abbrev pub is_some : {A : Type 0} → Option A → Bool
is_some none = false
is_some (some a) = true

abbrev pub is_replayed : DeadLetter → Bool
is_replayed d = is_some d.replayed_at

-- The join with `events`: the events of a dead letter that have succeeded, one at most as ids are
-- unique.
abbrev pub succeeded_events : List Event → DeadLetter → ℕ
succeeded_events events d =
    count_by (λ (e : Event). e.id == d.event_id && status_eq e.status Status.succeeded) events

abbrev pub replayed_succeeded : List Event → List DeadLetter → ℕ
replayed_succeeded events [] = 0
replayed_succeeded events (d ∷ ds) =
    if is_replayed d
    then succeeded_events events d + replayed_succeeded events ds
    else replayed_succeeded events ds

-- `(replayed_succeeded / replayed_count) if replayed_count > 0 else 0.0`
abbrev pub rate : ℕ → ℕ → Ratio
rate n zero = record { num = 0; den = 1 }
rate n (suc m) = record { num = n; den = suc m }

-- An average of durations: their sum and their number.
pub record Average : Type 0 where
  pub total : ℤ
  pub count : ℕ

-- Where a duration is negative the clock was set back; the order is that of the integers.
abbrev pub le_duration : ℤ → ℤ → Bool
le_duration (pos a) (pos b) = leb a b
le_duration (pos a) (negsuc b) = false
le_duration (negsuc a) (pos b) = true
le_duration (negsuc a) (negsuc b) = leb b a

-- `a - b` as an integer, and a sum
abbrev pub sub_nat : ℕ → ℕ → ℤ
sub_nat a zero = pos a
sub_nat zero (suc b) = negsuc b
sub_nat (suc a) (suc b) = sub_nat a b

abbrev pub add_duration : ℤ → ℤ → ℤ
add_duration (pos a) (pos b) = pos (a + b)
add_duration (pos a) (negsuc b) = sub_nat a (suc b)
add_duration (negsuc a) (pos b) = sub_nat b (suc a)
add_duration (negsuc a) (negsuc b) = negsuc (suc (a + b))

abbrev pub sum_durations : List ℤ → ℤ
sum_durations [] = pos 0
sum_durations (d ∷ ds) = add_duration d (sum_durations ds)

-- The durations that are there.
abbrev pub durations_of : List EventAttempt → List ℤ
durations_of [] = []
durations_of (a ∷ as_left) = elim a.duration_ms [
  | none ↦ durations_of as_left
  | some d ↦ d ∷ durations_of as_left
]

-- `round(avg_dur, 1) if avg_dur else None`: an average of 0 counts as none.
abbrev pub is_zero : ℤ → Bool
is_zero (pos zero) = true
is_zero _ = false

abbrev pub average : List ℤ → Option Average
average [] = none
average (d ∷ ds) =
    if is_zero (sum_durations (d ∷ ds))
    then none
    else some (record { total = sum_durations (d ∷ ds); count = length (d ∷ ds) })

-- `sorted_dur[int(n * 0.50)]` and `sorted_dur[min(int(n * 0.95), n - 1)]`
abbrev pub median : List ℤ → Option ℤ
median ds = get_elem? (sorted le_duration ds) (length (sorted le_duration ds) / 2)

abbrev pub tail_place : ℕ → ℕ
tail_place n = if leb (n - 1) (95 * n / 100) then n - 1 else 95 * n / 100

abbrev pub tail : List ℤ → Option ℤ
tail ds = get_elem? (sorted le_duration ds) (tail_place (length (sorted le_duration ds)))

-- `MetricsOut`. The fields that are the convergence report's are in `convergence`.
pub record MetricsOut : Type 0 where
  pub total_events : ℕ
  pub succeeded : ℕ
  pub failed : ℕ
  pub dead_lettered : ℕ
  pub retrying : ℕ
  pub queued : ℕ
  pub processing : ℕ
  pub replay_requeued : ℕ
  pub replay_success_rate : Ratio
  pub convergence : ConvergenceReport
  pub processed_per_sec : Ratio
  pub streams : Backlog
  pub replay_latency : Option Average
  pub event_attempt_failures : ℕ
  pub avg_attempt_duration : Option Average
  pub p50_attempt_duration : Option ℤ
  pub p95_attempt_duration : Option ℤ

-- `replayed_at - created_at` of the replayed dead letters.
abbrev pub replay_latencies : List DeadLetter → List ℤ
replay_latencies [] = []
replay_latencies (d ∷ ds) = elim d.replayed_at [
  | none ↦ replay_latencies ds
  | some t ↦ sub_nat t d.created_at ∷ replay_latencies ds
]

abbrev pub mean : List ℤ → Option Average
mean [] = none
mean (d ∷ ds) = some (record { total = sum_durations (d ∷ ds); count = length (d ∷ ds) })

-- What the statements after the report's read, one after the other: the statuses, the recent attempts,
-- the replayed letters, these with their events, the latencies, the durations and the failures.
pub record Reads : Type 0 where
  pub counted : List Event
  pub recent : List EventAttempt
  pub replayed : List DeadLetter
  pub joined_letters : List DeadLetter
  pub joined_events : List Event
  pub answered : List DeadLetter
  pub timed : List EventAttempt
  pub failures : List EventAttempt

unfoldable pub metrics_of : Reads → ConvergenceReport → Backlog → (read : ℕ) → MetricsOut
metrics_of r convergence streams read =
    let counts = status_counts r.counted in
    let replayed_count = count_by is_replayed r.replayed in
    record {
      total_events = sum_counts counts;
      succeeded = count_of Status.succeeded counts;
      failed = count_of Status.failed counts;
      dead_lettered = count_of Status.dead_lettered counts;
      retrying = count_of Status.retrying counts;
      queued = count_of Status.queued counts;
      processing = count_of Status.processing counts;
      replay_requeued = replayed_count;
      replay_success_rate =
          rate (replayed_succeeded r.joined_events r.joined_letters) replayed_count;
      convergence = convergence;
      processed_per_sec = record { num = count_by (is_recent_success read) r.recent; den = 60 };
      streams = streams;
      replay_latency = mean (replay_latencies r.answered);
      event_attempt_failures = count_by (λ (a : EventAttempt). is_failed a.status) r.failures;
      avg_attempt_duration = average (durations_of r.timed);
      p50_attempt_duration = median (durations_of r.timed);
      p95_attempt_duration = tail (durations_of r.timed);
    }

abbrev pub get_backlog : (p : Platform) → Gauges p.redis → Step p Backlog
get_backlog p g w = (ok (backlog g w.redis), w)

-- The rows that a statement reads: the `k`-th comes after what the other sessions have committed
-- before it, `others k` (READ COMMITTED).
abbrev pub next_read : (p : Platform) → (ℕ → Db p.tables → Db p.tables) → Step p (Db p.tables)
next_read p others w =
    (ok (others w.tick w.db), record w { db = others w.tick w.db; tick = w.tick + 1 })

-- `get_metrics`; the statements of the report read one state of the tables.
unfoldable pub get_metrics :
    (p : Platform) → Gauges p.redis → (ℕ → Db p.tables → Db p.tables) → Step p MetricsOut
get_metrics p g others = do
  convergence ← build_convergence_report p g
  counted ← next_read p others
  read ← now p
  recent ← next_read p others
  replayed ← next_read p others
  joined ← next_read p others
  answered ← next_read p others
  streams ← get_backlog p g
  timed ← next_read p others
  failures ← next_read p others
  pure (
      metrics_of
        (record {
          counted = p.tables.rows counted.events;
          recent = p.tables.rows recent.attempts;
          replayed = p.tables.rows replayed.dead_letters;
          joined_letters = p.tables.rows joined.dead_letters;
          joined_events = p.tables.rows joined.events;
          answered = p.tables.rows answered.dead_letters;
          timed = p.tables.rows timed.attempts;
          failures = p.tables.rows failures.attempts;
        })
        convergence streams read)
