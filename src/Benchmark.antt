-- ===== src/Benchmark.antt =====
-- scripts/benchmark_replay.py: a run that submits events and measures how they are handled, built of
-- the steps in Runs.
pub mod Bounded
use replay_forge.Base.{
  ℕ, zero, suc, ◌+◌, ◌*◌, ◌-◌, ◌%◌, String, Bool, true, false, not, ◌&&◌, ◌||◌, List, [], ◌∷◌,
  Option, none, some, ltb, leb, ◌==◌, if◌then◌else◌, keep, map, count_by, length, get_elem?, str_eq,
  sorted, round_half_even, Ratio,
}
use replay_forge.Harness.{
  SubmittedEvent, TerminalEvent, Reply, Posted, Watch, Waited, returned, key_error, out_of_fuel,
  Polled, stopped, timed_out, submit_events, wait_for_ready, wait_for_terminal_events,
  wait_for_convergence,
}
use replay_forge.Runs.{
  Args, EventPayload, Failure, Kind, Note, Outcome, Report, Site, all_terminal, become_ready,
  compose, done, elapsed, ended_as, failed, final_report, get_or, ids_of, is_successful, latencies,
  or_fail, payloads_from, per_second, percentile, rate_or_zero, ready_outcome, report_outcome,
  request_failed, restart, says_converged, submitted_at, terminal_outcome, ◌>>=◌,
}

-- `BenchmarkOutcome`: `command` and `base_url` are made of the arguments alone.
pub record BenchmarkOutcome : Type 0 where
  pub status : Kind
  pub events : ℕ
  pub workers : ℕ
  pub concurrency : ℕ
  pub submitted : ℕ
  pub completed : ℕ
  pub failed : ℕ
  pub dead_letters : ℕ
  pub retries : ℕ
  pub pending_entries : ℕ
  pub stream_backlog : ℕ
  pub orphaned_records : ℕ
  pub duplicate_deliveries : ℕ
  pub duplicate_side_effects : ℕ
  pub convergence_state : String
  pub converged : Bool
  pub ingest_throughput : Option Ratio
  pub processing_throughput : Option Ratio
  pub end_to_end_throughput : Option Ratio
  pub recovery_time : Option ℕ
  pub p50_e2e : Option ℕ
  pub p95_e2e : Option ℕ
  pub p99_e2e : Option ℕ
  pub timestamp : ℕ
  pub base_url : String
  pub note : Option Note

unfoldable pub event_payload : (uuid4 : ℕ → String) → ℕ → EventPayload
event_payload uuid4 index = record {
  application_name = "converge-benchmark";
  workflow_id = uuid4 (2 * index);
  event_type = "benchmark.event";
  service = index % 4;
  idempotency_key = uuid4 (2 * index + 1);
  sequence = index;
  max_attempts = 4;
}

-- `_pending_artifact`
unfoldable pub pending_artifact : (timestamp : ℕ) → Args → Note → BenchmarkOutcome
pending_artifact timestamp args note = record {
  status = Kind.pending;
  events = args.events;
  workers = args.workers;
  concurrency = args.concurrency;
  submitted = 0;
  completed = 0;
  failed = 0;
  dead_letters = 0;
  retries = 0;
  pending_entries = 0;
  stream_backlog = 0;
  orphaned_records = 0;
  duplicate_deliveries = 0;
  duplicate_side_effects = 0;
  convergence_state = "pending";
  converged = false;
  ingest_throughput = none;
  processing_throughput = none;
  end_to_end_throughput = none;
  recovery_time = none;
  p50_e2e = none;
  p95_e2e = none;
  p99_e2e = none;
  timestamp = timestamp;
  base_url = args.base_url;
  note = some note;
}

-- What `run_benchmark` returns, as `main` writes it out with the arguments and the time.
unfoldable pub measure :
    {P : Type 0}
    → Site P
    → (timestamp : ℕ) → Args
    → List SubmittedEvent
    → List TerminalEvent
    → Report
    → Option ℕ
    → BenchmarkOutcome
measure site timestamp args submissions terminal convergence workers =
    let submitted = count_by is_successful submissions in
    let completed = count_by (ended_as "succeeded") terminal in
    let recovery = elapsed site.start site.end in
    record {
      status = Kind.measured;
      events = args.events;
      workers = get_or args.workers workers;
      concurrency = args.concurrency;
      submitted = submitted;
      completed = completed;
      failed =
          count_by (λ (s : SubmittedEvent). not (s.status_code == 201)) submissions
          + count_by (ended_as "failed") terminal;
      dead_letters = count_by (ended_as "dead_lettered") terminal;
      retries = get_or 0 convergence.retrying_events;
      pending_entries = get_or 0 convergence.pending_events;
      stream_backlog = get_or 0 convergence.stream_backlog;
      orphaned_records = get_or 0 convergence.orphaned_records;
      duplicate_deliveries =
          get_or 0 convergence.duplicate_deliveries
          + count_by (λ (s : SubmittedEvent). s.duplicate) submissions;
      duplicate_side_effects = get_or 0 convergence.duplicate_side_effects;
      convergence_state = get_or "unknown" convergence.convergence_state;
      converged = get_or false convergence.converged;
      ingest_throughput = some (per_second submitted (elapsed site.start site.ingest_done));
      processing_throughput = some (rate_or_zero completed recovery);
      end_to_end_throughput = some (rate_or_zero submitted recovery);
      recovery_time = some recovery;
      p50_e2e = percentile (latencies terminal) 50;
      p95_e2e = percentile (latencies terminal) 95;
      p99_e2e = percentile (latencies terminal) 99;
      timestamp = timestamp;
      base_url = args.base_url;
      note = none;
    }

-- `run_benchmark`
unfoldable pub run_benchmark :
    {P : Type 0} → Site P → (timestamp : ℕ) → Args → Outcome BenchmarkOutcome
run_benchmark site timestamp args = do
  restarted ← restart site args
  ready ← become_ready site args
  let submissions = submit_events site.post (payloads_from site.payload 0 args.events)
  terminal ← all_terminal site.watch args.timeout (keep is_successful submissions)
  convergence ← final_report site.report_clock site.report args.timeout
  workers ← or_fail Failure.request_failed site.workers
  done (measure site timestamp args submissions terminal convergence workers)

-- The artifact that `main` writes. A run that returns is measured, so that the branches for a run
-- that is not are never taken.
unfoldable pub main_artifact :
    {P : Type 0} → Site P → (timestamp : ℕ) → Args → Outcome BenchmarkOutcome
main_artifact site timestamp args =
    if args.dry_run || args.pending
    then done (pending_artifact timestamp args Note.requested)
    else run_benchmark site timestamp args
