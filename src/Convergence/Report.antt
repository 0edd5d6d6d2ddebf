-- ===== src/Convergence/Report.antt =====
-- api/app/core/convergence.py: the report on what is still under way, and the state that it gives.
use replay_forge.Base.{
  ℕ, ◌+◌, ◌-◌, Bool, true, false, ◌||◌, List, [], ◌∷◌, ◌++◌, Option, none, some, ltb, if◌then◌else◌,
  length, count_by,
}
use replay_forge.Models.{is_working, Status, Event, EventAttempt, Worker, ℤ}
use replay_forge.Service.Redis.{Redis, Stream}
use replay_forge.Service.World.{Platform, Step, ok, ◌>>=◌, pure, now, get_db}
use replay_forge.Convergence.Rows.{
  status_counts, count_of, sum_counts, distinct, attempt_event_ids, is_orphan, count_duplicates,
  extra_attempts, is_recent_failure, is_stale, worker_heartbeat_age,
}

-- `convergence_issues`, each with the numbers in its text
pub data Issue : Type 0 where
  pending_entries waiting_on_retry in_flight_rows orphaned_claims duplicate_effects : ℕ → Issue

pub data State : Type 0 where
  converged degraded recovering : State

-- What Redis says of its streams, 0 for each where a call raises.
pub record Depths : Type 0 where
  pub retry_queue_depth : ℕ
  pub incoming_stream_depth : ℕ
  pub retry_stream_depth : ℕ
  pub pending_events : ℕ

pub record ConvergenceReport : Type 0 where
  pub total_events : ℕ
  pub processed_events : ℕ
  pub acknowledged_events : ℕ
  pub received_events : ℕ
  pub queued_events : ℕ
  pub processing_events : ℕ
  pub retrying_events : ℕ
  pub dead_lettered_events : ℕ
  pub depths : Depths
  pub stream_backlog : ℕ
  pub dlq_events : ℕ
  pub orphaned_records : ℕ
  pub duplicate_deliveries : ℕ
  pub duplicate_side_effects : ℕ
  pub recent_failures : ℕ
  pub active_workers : ℕ
  pub stale_workers : ℕ
  pub heartbeat_age : Option ℤ
  pub convergence_state : State
  pub converged : Bool
  pub convergence_issues : List Issue
  pub verified_at : ℕ

abbrev depths_of : ℕ → ℕ → ℕ → ℕ → Depths
depths_of a b c d = record {
  retry_queue_depth = a;
  incoming_stream_depth = b;
  retry_stream_depth = c;
  pending_events = d;
}

-- What the report asks of Redis, each `none` where the client raises.
pub record Gauges (r : Redis) : Type 0 where
  -- `zcard(RETRY_ZSET)`
  pub zcard : r.Server → Option ℕ
  -- `xlen(stream)`
  pub xlen : Stream → r.Server → Option ℕ
  -- `(xpending(stream, GROUP) or {}).get("pending", 0)`
  pub xpending : Stream → r.Server → Option ℕ

-- The `try` block: what was assigned before a call raises stays assigned.
unfoldable pub read_depths : {r : Redis} → Gauges r → r.Server → Depths
read_depths g s = elim (g.zcard s) [
  | none ↦ depths_of 0 0 0 0
  | some a ↦ elim (g.xlen Stream.incoming s) [
    | none ↦ depths_of a 0 0 0
    | some b ↦ elim (g.xlen Stream.retry s) [
      | none ↦ depths_of a b 0 0
      | some c ↦ elim (g.xpending Stream.incoming s) [
        | none ↦ depths_of a b c 0
        | some d ↦ elim (g.xpending Stream.retry s) [
          | none ↦ depths_of a b c 0
          | some e ↦ depths_of a b c (d + e)
        ]
      ]
    ]
  ]
]

-- `convergence_issues.append` under a test.
abbrev pub issue_if : Bool → Issue → List Issue
issue_if true i = i ∷ []
issue_if false i = []

unfoldable pub issues :
    (pending retrying received queued processing orphaned duplicates : ℕ) → List Issue
issues pending retrying received queued processing orphaned duplicates =
    issue_if (ltb 0 pending) (Issue.pending_entries pending)
    ++ issue_if (ltb 0 retrying) (Issue.waiting_on_retry retrying)
    ++ issue_if (ltb 0 queued || ltb 0 processing || ltb 0 received)
        (Issue.in_flight_rows (received + queued + processing))
    ++ issue_if (ltb 0 orphaned) (Issue.orphaned_claims orphaned)
    ++ issue_if (ltb 0 duplicates) (Issue.duplicate_effects duplicates)

-- `not convergence_issues`
abbrev pub is_empty : List Issue → Bool
is_empty [] = true
is_empty (i ∷ is) = false

abbrev pub state_of : Bool → ℕ → ℕ → State
state_of is_converged orphaned duplicates =
    if is_converged
    then State.converged
    else if ltb 0 orphaned || ltb 0 duplicates
    then State.degraded
    else State.recovering

-- `build_convergence_report`, from what the statements see and the three readings of the clock.
unfoldable pub report_of :
    (events : List Event) (attempts : List EventAttempt) (workers : List Worker) (d : Depths)
    (cutoff_now now age_now : ℕ)
    → ConvergenceReport
report_of events attempts workers d cutoff_now now age_now =
    let counts = status_counts events in
    let received = count_of Status.received counts in
    let queued = count_of Status.queued counts in
    let processing = count_of Status.processing counts in
    let retrying = count_of Status.retrying counts in
    let dead = count_of Status.dead_lettered counts in
    let orphaned = count_by (λ w. is_orphan events w.current_event_id) workers in
    let duplicates = count_duplicates attempts in
    let found = issues d.pending_events retrying received queued processing orphaned duplicates in
    record {
      total_events = sum_counts counts;
      processed_events = length (distinct (attempt_event_ids attempts));
      acknowledged_events = sum_counts counts - (received + queued + processing);
      received_events = received;
      queued_events = queued;
      processing_events = processing;
      retrying_events = retrying;
      dead_lettered_events = dead;
      depths = d;
      stream_backlog =
          d.incoming_stream_depth + d.retry_stream_depth + d.retry_queue_depth + d.pending_events;
      dlq_events = dead;
      orphaned_records = orphaned;
      duplicate_deliveries = extra_attempts events;
      duplicate_side_effects = duplicates;
      recent_failures = count_by (is_recent_failure cutoff_now) attempts;
      active_workers = count_by (λ w. is_working w.status) workers;
      stale_workers = count_by (is_stale now) workers;
      heartbeat_age = worker_heartbeat_age age_now workers;
      convergence_state = state_of (is_empty found) orphaned duplicates;
      converged = is_empty found;
      convergence_issues = found;
      verified_at = now;
    }

abbrev get_depths : (p : Platform) → Gauges p.redis → Step p Depths
get_depths p g w = (ok (read_depths g w.redis), w)

unfoldable pub build_convergence_report : (p : Platform) → Gauges p.redis → Step p ConvergenceReport
build_convergence_report p g = do
  cutoff_now ← now p
  depths ← get_depths p g
  now_read ← now p
  age_now ← now p
  db ← get_db p
  pure (
      report_of (p.tables.rows db.events) (p.tables.rows db.attempts) (p.tables.rows db.workers)
        depths cutoff_now now_read age_now)
