-- ===== src/Tests/Scripts.antt =====
-- The theorems of Harness, Benchmark and Chaos at concrete inputs.
use replay_forge.Base.{
  ℕ, ◌+◌, ◌*◌, ◌≤◌, ◌≡◌, refl, String, Bool, true, false, List, [], ◌∷◌, Option, none, some, length,
  if◌then◌else◌, str_eq, arith, ltb, leb, ◌==◌, round_half_even,
}
use replay_forge.Harness.{
  wait_for_ready, ready_turn, submit_events, submit, poll_pending, terminal_turn, settle, finish,
  time_out, convergence_turn, Reply, Posted, answered, Watch, TerminalEvent, has_text,
  wait_for_terminal_events, returned, wait_for_convergence,
}
use replay_forge.Harness.Results.{has_result, OneEach, AllEnded}
use replay_forge.Harness.Complete.{wait_for_terminal_events_lem}
use replay_forge.Benchmark.{BenchmarkOutcome, run_benchmark, measure, main_artifact, event_payload}
use replay_forge.Runs.{
  done, restart, become_ready, all_terminal, final_report, Args, Report, Site, percentile,
  EventPayload,
}
use replay_forge.Runs.Steps.{Ends, IsFair}
use replay_forge.Benchmark.Bounded.{IsCoherent, benchmark-IsCoherent}
use replay_forge.Chaos.{Killer, Delays}
use replay_forge.Chaos.Recovered.{chaos-IsCoherent}

-- The first event succeeds in the second turn; the other one never ends.
abbrev get : ℕ → String → Option (Reply String)
get i id =
    if str_eq id "a"
    then some
        (record { status_code = 200; body = some (if ltb i 2 then "queued" else "succeeded") })
    else none

abbrev watch : Watch
watch = record {
  monotonic = λ i. i;
  perf_counter = λ i id. 1000 * i + 7;
  get = get;
  listed = λ i xs. xs;
}

abbrev submitted : String → Option ℕ
submitted id = some 5

wait_for_terminal_events_lem_example :
    (out : List TerminalEvent) × (wait_for_terminal_events watch submitted 3 ("a" ∷ "b" ∷ "a" ∷ [])
      ≡ returned out)
    × ((x : String) → has_result x out ≡ has_text x ("a" ∷ "b" ∷ "a" ∷ []))
    × OneEach out
    × AllEnded out
    × (length out ≤ 3)
wait_for_terminal_events_lem_example =
    wait_for_terminal_events_lem watch submitted ("a" ∷ "b" ∷ "a" ∷ []) 3 (λ x h. (5, refl))
      (λ i x xs. refl) (λ i xs. refl) (λ i. omega arith)

abbrev report : Bool → Report
report flag = record {
  retrying_events = some 1;
  pending_events = some 2;
  stream_backlog = none;
  orphaned_records = some 0;
  duplicate_deliveries = some 1;
  duplicate_side_effects = none;
  convergence_state = some "recovering";
  converged = some flag;
}

-- Converged from the third turn on.
abbrev reports : ℕ → Option Bool
reports i = if i == 1 then none else some (leb 3 i)

abbrev args : Args
args = record {
  events = 3;
  workers = 2;
  concurrency = 1;
  base_url = "http://127.0.0.1:18000";
  timeout = 3;
  pending = false;
  dry_run = false;
  reset = false;
}

-- The third event is refused.
abbrev post : EventPayload → ℕ × Posted
post payload = (
  5,
  answered (if payload.sequence == 2 then 503 else 201) true
      (some (record { id = if payload.sequence == 0 then "a" else "b"; duplicate = false })),
)

abbrev site : Site EventPayload
site = record {
  restart_control_plane = true;
  restart_go_workers = λ n. true;
  ready_clock = λ i. i;
  ready = λ i. some (record { status_code = 200; body = some tt });
  payload = event_payload (λ k. "0123abcd");
  post = post;
  watch = watch;
  report_clock = λ i. i;
  report = λ i. some (report (leb 3 i));
  workers = some (some 2);
  start = 1;
  ingest_done = 4;
  end = 100;
}

abbrev site_IsFair : IsFair site
site_IsFair = record {
  ready_ticks = λ i. omega arith;
  watch_ticks = λ i. omega arith;
  report_ticks = λ i. omega arith;
  same_members = λ i x xs. refl;
  same_length = λ i xs. refl;
}

benchmark-IsCoherent_example : Ends (IsCoherent args) (main_artifact site 9 args)
benchmark-IsCoherent_example = benchmark-IsCoherent site 9 args site_IsFair

abbrev killer : Killer
killer = record {
  worker_ids = some ("w1" ∷ "w2" ∷ []);
  docker_stop = λ id. true;
  stopped_at = 50;
  docker_up = true;
}

abbrev delays : Delays
delays = record { kill_delay = 2; restart_delay = 3 }

chaos-IsCoherent_example :
    Ends
      (replay_forge.Chaos.Recovered.IsCoherent killer args)
      (replay_forge.Chaos.main_artifact site killer (some (report false)) 9 args delays)
chaos-IsCoherent_example =
    chaos-IsCoherent site killer (some (report false)) 9 args delays site_IsFair

-- Two of three events are taken, one succeeds, the other one is never heard of again.
benchmark_measures :
    (o : BenchmarkOutcome) × (main_artifact site 9 args ≡ done o)
    × (o.submitted ≡ 2)
    × (o.completed ≡ 1)
    × (o.failed ≡ 1)
    × (o.p50_e2e ≡ some 2002)
unfolding main_artifact run_benchmark measure restart become_ready wait_for_ready ready_turn
    submit_events submit all_terminal wait_for_terminal_events poll_pending terminal_turn settle
    finish time_out final_report wait_for_convergence convergence_turn percentile round_half_even
    event_payload
benchmark_measures = (_, refl, refl, refl, refl, refl)
