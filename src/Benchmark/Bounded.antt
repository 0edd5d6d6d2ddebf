-- ===== src/Benchmark/Bounded.antt =====
-- run_benchmark and main of scripts/benchmark_replay.py: how a run ends, and its numbers.
use replay_forge.Base.{
  ℕ, ◌+◌, ◌≤◌, ◌≡◌, ◌||◌, List, Option, inl, inr, Bool-cases, keep, length, arith,
}
use replay_forge.Harness.{SubmittedEvent, TerminalEvent, submit_events}
use replay_forge.Harness.Loops.{Any}
use replay_forge.Runs.Places.{AtMost, percentile-AtMost}
use replay_forge.Benchmark.{
  BenchmarkOutcome, measure, run_benchmark, pending_artifact, main_artifact,
}
use replay_forge.Runs.{
  Args, Site, Failure, Report, or_fail, restart, become_ready, all_terminal, final_report,
  latencies, is_successful, payloads_from,
}
use replay_forge.Runs.Steps.{
  length-payloads_from, length-submit_events, counts_le, submissions_le, IsFair, Ends, bind-Ends,
  restart-Ends, become_ready-Ends, final_report-Ends, Fits, all_terminal-Ends, or_fail-Ends,
}

-- How the numbers of an artifact stand to each other.
pub record IsCoherent (args : Args) (o : BenchmarkOutcome) : Type 0 where
  pub all_told : o.completed + o.dead_letters + o.failed ≤ args.events
  pub of_submitted : o.completed + o.dead_letters ≤ o.submitted
  pub median : AtMost o.p50_e2e o.p95_e2e
  pub tail : AtMost o.p95_e2e o.p99_e2e

measure-IsCoherent :
    {P : Type 0} (site : Site P) (timestamp : ℕ) (args : Args) (submissions : List SubmittedEvent)
    (terminal : List TerminalEvent) (r : Report) (workers : Option ℕ)
    → length submissions ≡ args.events
    → Fits submissions terminal
    → IsCoherent args (measure site timestamp args submissions terminal r workers)
unfolding measure
measure-IsCoherent site timestamp args submissions terminal r workers many fits = record {
  all_told = omega (arith, many, fits, counts_le terminal, submissions_le submissions);
  of_submitted = omega (arith, fits, counts_le terminal);
  median = percentile-AtMost (latencies terminal) 50 95 (omega arith);
  tail = percentile-AtMost (latencies terminal) 95 99 (omega arith);
}

run_benchmark-IsCoherent :
    {P : Type 0} (site : Site P) (timestamp : ℕ) (args : Args)
    → IsFair site
    → Ends (IsCoherent args) (run_benchmark site timestamp args)
unfolding run_benchmark
run_benchmark-IsCoherent site timestamp args fair =
    let submissions = submit_events site.post (payloads_from site.payload 0 args.events) in
    let Good = IsCoherent args in
    bind-Ends Any Good (restart site args) _ (restart-Ends site args) λ _ _.
      bind-Ends Any Good (become_ready site args) _ (become_ready-Ends site args fair.ready_ticks)
        λ _ _.
          bind-Ends (Fits submissions) Good
            (all_terminal site.watch args.timeout (keep is_successful submissions)) _
            (all_terminal-Ends site.watch args.timeout submissions fair.watch_ticks
              fair.same_members fair.same_length)
            λ terminal fits.
              bind-Ends _ Good (final_report site.report_clock site.report args.timeout) _
                (final_report-Ends site.report_clock site.report args.timeout fair.report_ticks)
                λ r _.
                  bind-Ends Any Good (or_fail Failure.request_failed site.workers) _
                    (or_fail-Ends site.workers)
                    λ workers _.
                      measure-IsCoherent site timestamp args submissions terminal r workers
                        (omega (
                          arith,
                          length-submit_events site.post (payloads_from site.payload 0 args.events),
                          length-payloads_from site.payload 0 args.events,
                        ))
                        fits

-- A benchmark always comes to an end. If it writes an artifact, then the completed, dead-lettered
-- and failed together are no more than the events asked for, the completed and dead-lettered no
-- more than the submitted, and the percentiles are in order. The clocks go on between two turns of
-- a loop, and a turn goes through the whole set.
pub benchmark-IsCoherent :
    {P : Type 0} (site : Site P) (timestamp : ℕ) (args : Args)
    → IsFair site
    → Ends (IsCoherent args) (main_artifact site timestamp args)
unfolding main_artifact pending_artifact
benchmark-IsCoherent site timestamp args fair = elim (Bool-cases (args.dry_run || args.pending)) [
  | inl asked ↦
      rw asked
        (record { all_told = omega arith; of_submitted = omega arith; median = tt; tail = tt })
  | inr live ↦ rw live (run_benchmark-IsCoherent site timestamp args fair)
]
