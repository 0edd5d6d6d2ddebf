-- ===== src/Chaos.antt =====
-- scripts/chaos_replay.py: a run in which a worker is stopped and started again while the events
-- are handled. Its other steps and its percentiles are those of the benchmark, in Runs.
pub mod Recovered
use replay_forge.Base.{
  ℕ, ◌+◌, ◌*◌, ◌%◌, String, Bool, false, not, ◌||◌, List, [], ◌∷◌, Option, none, some, leb, ◌==◌,
  if◌then◌else◌, keep, count_by, Ratio, length,
}
use replay_forge.Harness.{SubmittedEvent, TerminalEvent, submit_events}
use replay_forge.Runs.{
  Args, Site, Report, Outcome, done, failed, Failure, ◌>>=◌, or_fail, Kind, Note, EventPayload,
  get_or, payloads_from, restart, become_ready, all_terminal, final_report, is_successful, ended_as,
  latencies, percentile, elapsed, per_second, rate_or_zero,
}

-- The arguments that the benchmark does not have; a negative delay acts as 0.
pub record Delays : Type 0 where
  pub kill_delay : ℕ
  pub restart_delay : ℕ

unfoldable pub event_payload : (uuid4 : ℕ → String) → ℕ → EventPayload
event_payload uuid4 index = record {
  application_name = "chaos-replay";
  workflow_id = uuid4 (2 * index);
  event_type = "chaos.event";
  service = index % 5;
  idempotency_key = uuid4 (2 * index + 1);
  sequence = index;
  max_attempts = 4;
}

-- What the task that stops a worker meets: how `docker compose ps`, with the ids it lists, `docker
-- stop` and `docker compose up` end, and the reading of the clock after the stop.
pub record Killer : Type 0 where
  pub worker_ids : Option (List String)
  pub docker_stop : String → Bool
  pub stopped_at : ℕ
  pub docker_up : Bool

-- `stop_one_go_worker`: the first id that is listed, if there is one.
abbrev pub stop_first : Killer → List String → Outcome (Option String)
stop_first killer [] = done none
stop_first killer (id ∷ rest) =
    if killer.docker_stop id then done (some id) else failed Failure.compose_failed

unfoldable pub stop_one_go_worker : Killer → Outcome (Option String)
stop_one_go_worker killer = do
  ids ← or_fail Failure.compose_failed killer.worker_ids
  stop_first killer ids

-- `start_one_go_worker`
abbrev pub start_one_go_worker : Killer → Outcome (Unit {0})
start_one_go_worker killer = if killer.docker_up then done tt else failed Failure.compose_failed

-- `_kill_and_restart`, with what it assigns
unfoldable pub kill_and_restart : Killer → Outcome (Option String × ℕ)
kill_and_restart killer = do
  killed ← stop_one_go_worker killer
  started ← start_one_go_worker killer
  done (killed, killer.stopped_at)

pub record ChaosOutcome : Type 0 where
  pub status : Kind
  pub events : ℕ
  pub workers : ℕ
  pub concurrency : ℕ
  pub kill_delay : ℕ
  pub restart_delay : ℕ
  pub killed_worker_id : Option String
  pub submitted : ℕ
  pub completed : ℕ
  pub failed : ℕ
  pub dead_letters : ℕ
  pub retries : ℕ
  pub pending_before_recovery : ℕ
  pub pending_after_recovery : ℕ
  pub stream_backlog_before_recovery : ℕ
  pub stream_backlog_after_recovery : ℕ
  pub orphaned_records : ℕ
  pub duplicate_deliveries : ℕ
  pub duplicate_side_effects : ℕ
  pub convergence_state_before : String
  pub convergence_state_after : String
  pub converged : Bool
  pub recovery_time : Option ℕ
  pub ingest_throughput : Option Ratio
  pub end_to_end_throughput : Option Ratio
  pub p50_e2e : Option ℕ
  pub p95_e2e : Option ℕ
  pub p99_e2e : Option ℕ
  pub timestamp : ℕ
  pub base_url : String
  pub note : Option Note

-- `_pending_artifact`
unfoldable pub pending_artifact : (timestamp : ℕ) → Args → Delays → Note → ChaosOutcome
pending_artifact timestamp args delays note = record {
  status = Kind.pending;
  events = args.events;
  workers = args.workers;
  concurrency = args.concurrency;
  kill_delay = delays.kill_delay;
  restart_delay = delays.restart_delay;
  killed_worker_id = none;
  submitted = 0;
  completed = 0;
  failed = 0;
  dead_letters = 0;
  retries = 0;
  pending_before_recovery = 0;
  pending_after_recovery = 0;
  stream_backlog_before_recovery = 0;
  stream_backlog_after_recovery = 0;
  orphaned_records = 0;
  duplicate_deliveries = 0;
  duplicate_side_effects = 0;
  convergence_state_before = "pending";
  convergence_state_after = "pending";
  converged = false;
  recovery_time = none;
  ingest_throughput = none;
  end_to_end_throughput = none;
  p50_e2e = none;
  p95_e2e = none;
  p99_e2e = none;
  timestamp = timestamp;
  base_url = args.base_url;
  note = some note;
}

-- `kill_started or start`: a reading of 0 counts as none.
abbrev pub recovery_anchor : ℕ → ℕ → ℕ
recovery_anchor kill_started start = if kill_started == 0 then start else kill_started

-- What `run_chaos` returns, as `main` writes it out with the arguments and the time. `before` is the
-- report that was read after the stop, `recovery` the one at the end.
unfoldable pub measure :
    {P : Type 0}
    → Site P
    → (timestamp : ℕ) → Args
    → Delays
    → List SubmittedEvent
    → List TerminalEvent
    → (before recovery : Report) → (killed : Option String) → (kill_started : ℕ) → Option ℕ
    → ChaosOutcome
measure site timestamp args delays submissions terminal before recovery killed kill_started
      workers =
    let submitted = count_by is_successful submissions in
    let time = elapsed (recovery_anchor kill_started site.start) site.end in
    record {
      status = Kind.measured;
      events = args.events;
      workers = get_or args.workers workers;
      concurrency = args.concurrency;
      kill_delay = delays.kill_delay;
      restart_delay = delays.restart_delay;
      killed_worker_id = killed;
      submitted = submitted;
      completed = count_by (ended_as "succeeded") terminal;
      failed = count_by (ended_as "failed") terminal;
      dead_letters = count_by (ended_as "dead_lettered") terminal;
      retries = get_or 0 recovery.retrying_events;
      pending_before_recovery = get_or 0 before.pending_events;
      pending_after_recovery = get_or 0 recovery.pending_events;
      stream_backlog_before_recovery = get_or 0 before.stream_backlog;
      stream_backlog_after_recovery = get_or 0 recovery.stream_backlog;
      orphaned_records = get_or 0 recovery.orphaned_records;
      duplicate_deliveries = get_or 0 recovery.duplicate_deliveries;
      duplicate_side_effects = get_or 0 recovery.duplicate_side_effects;
      convergence_state_before = get_or "unknown" before.convergence_state;
      convergence_state_after = get_or "unknown" recovery.convergence_state;
      converged = get_or false recovery.converged;
      recovery_time = some time;
      ingest_throughput = some (per_second submitted (elapsed site.start site.ingest_done));
      end_to_end_throughput = some (rate_or_zero submitted time);
      p50_e2e = percentile (latencies terminal) 50;
      p95_e2e = percentile (latencies terminal) 95;
      p99_e2e = percentile (latencies terminal) 99;
      timestamp = timestamp;
      base_url = args.base_url;
      note = none;
    }

-- `run_chaos`: the task runs beside the waiting, and an error of it is raised where it is awaited.
unfoldable pub run_chaos :
    {P : Type 0}
    → Site P
    → Killer
    → (before_recovery : Option Report) → (timestamp : ℕ) → Args
    → Delays
    → Outcome ChaosOutcome
run_chaos site killer before_recovery timestamp args delays = do
  restarted ← restart site args
  ready ← become_ready site args
  let submissions = submit_events site.post (payloads_from site.payload 0 args.events)
  before ← or_fail Failure.request_failed before_recovery
  terminal ← all_terminal site.watch args.timeout (keep is_successful submissions)
  recovery ← final_report site.report_clock site.report args.timeout
  kill ← kill_and_restart killer
  workers ← or_fail Failure.request_failed site.workers
  done (
      measure site timestamp args delays submissions terminal before recovery kill.0 kill.1 workers)

-- The artifact that `main` writes. A run that returns is measured, so that the branches for a run
-- that is not are never taken.
unfoldable pub main_artifact :
    {P : Type 0}
    → Site P
    → Killer
    → (before_recovery : Option Report) → (timestamp : ℕ) → Args
    → Delays
    → Outcome ChaosOutcome
main_artifact site killer before_recovery timestamp args delays =
    if args.dry_run || args.pending
    then done (pending_artifact timestamp args delays Note.requested)
    else run_chaos site killer before_recovery timestamp args delays
