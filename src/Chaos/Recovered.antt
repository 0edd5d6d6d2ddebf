-- ===== src/Chaos/Recovered.antt =====
-- run_chaos and main of scripts/chaos_replay.py: how a run ends, and its numbers.
use replay_forge.Base.{
  ℕ, ◌+◌, ◌≤◌, ◌≡◌, String, List, [], ◌∷◌, Option, none, some, inl, inr, ◌||◌, Bool-cases,
  Option-cases, true, subst, sym, keep, length, arith,
}
use replay_forge.Harness.{SubmittedEvent, TerminalEvent, submit_events}
use replay_forge.Harness.Loops.{Any}
use replay_forge.Runs.{
  Args, Site, Report, Failure, ◌>>=◌, or_fail, payloads_from, restart, become_ready, all_terminal,
  final_report, is_successful, latencies,
}
use replay_forge.Runs.Places.{AtMost, percentile-AtMost}
use replay_forge.Runs.Steps.{
  length-payloads_from, length-submit_events, counts_le, submissions_le, IsFair, Ends, bind-Ends,
  restart-Ends, become_ready-Ends, final_report-Ends, Fits, all_terminal-Ends, or_fail-Ends,
}
use replay_forge.Chaos.{
  Killer, Delays, ChaosOutcome, stop_first, stop_one_go_worker, start_one_go_worker,
  kill_and_restart, measure, run_chaos, pending_artifact, main_artifact,
}

-- The worker that was stopped is the first that was listed.
abbrev pub IsKilled : Killer → Option String → Type 0
IsKilled killer none = Unit {0}
IsKilled killer (some id) =
    (rest : List String) × (killer.worker_ids ≡ some (id ∷ rest)) × (killer.docker_stop id ≡ true)

-- How the numbers of an artifact stand to each other.
pub record IsCoherent (killer : Killer) (args : Args) (o : ChaosOutcome) : Type 0 where
  pub of_submitted : o.completed + o.dead_letters + o.failed ≤ o.submitted
  pub of_events : o.submitted ≤ args.events
  pub killed : IsKilled killer o.killed_worker_id
  pub median : AtMost o.p50_e2e o.p95_e2e
  pub tail : AtMost o.p95_e2e o.p99_e2e

stop_first-Ends :
    (killer : Killer) (ids : List String)
    → killer.worker_ids ≡ some ids
    → Ends (IsKilled killer) (stop_first killer ids)
stop_first-Ends killer [] e = tt
stop_first-Ends killer (id ∷ rest) e = elim (Bool-cases (killer.docker_stop id)) [
  | inl gone ↦ rw gone (rest, e, gone)
  | inr failed_stop ↦ rw failed_stop tt
]

stop_one_go_worker-Ends : (killer : Killer) → Ends (IsKilled killer) (stop_one_go_worker killer)
unfolding stop_one_go_worker
stop_one_go_worker-Ends killer = elim (Option-cases killer.worker_ids) [
  | inl raised ↦ rw (raised, stop_one_go_worker) tt
  | inr (ids, e) ↦
      subst (λ o. Ends (IsKilled killer) (or_fail Failure.compose_failed o >>= stop_first killer))
        (sym e) (stop_first-Ends killer ids e)
]

start_one_go_worker-Ends : (killer : Killer) → Ends Any (start_one_go_worker killer)
start_one_go_worker-Ends killer = elim (Bool-cases killer.docker_up) [
  | inl up ↦ rw up tt
  | inr down ↦ rw down tt
]

kill_and_restart-Ends :
    (killer : Killer) → Ends (λ k. IsKilled killer k.0) (kill_and_restart killer)
unfolding kill_and_restart
kill_and_restart-Ends killer =
    let Q = λ (k : Option String × ℕ). IsKilled killer k.0 in
    bind-Ends (IsKilled killer) Q (stop_one_go_worker killer) _ (stop_one_go_worker-Ends killer)
      λ killed h.
        bind-Ends Any Q (start_one_go_worker killer) _ (start_one_go_worker-Ends killer)
          λ started _. h

measure-IsCoherent :
    {P : Type 0} (site : Site P) (timestamp : ℕ) (args : Args) (delays : Delays) (killer : Killer)
    (submissions : List SubmittedEvent) (terminal : List TerminalEvent) (before recovery : Report)
    (killed : Option String) (kill_started : ℕ) (workers : Option ℕ)
    → length submissions ≡ args.events
    → Fits submissions terminal
    → IsKilled killer killed
    → IsCoherent killer args (
        measure site timestamp args delays submissions terminal before recovery killed kill_started
          workers)
unfolding measure
measure-IsCoherent site timestamp args delays killer submissions terminal before recovery killed
      kill_started workers many fits h =
    record {
      of_submitted = omega (arith, fits, counts_le terminal);
      of_events = omega (arith, many, submissions_le submissions);
      killed = h;
      median = percentile-AtMost (latencies terminal) 50 95 (omega arith);
      tail = percentile-AtMost (latencies terminal) 95 99 (omega arith);
    }

run_chaos-IsCoherent :
    {P : Type 0} (site : Site P) (killer : Killer) (before_recovery : Option Report) (timestamp : ℕ)
    (args : Args) (delays : Delays)
    → IsFair site
    → Ends (IsCoherent killer args) (run_chaos site killer before_recovery timestamp args delays)
unfolding run_chaos
run_chaos-IsCoherent site killer before_recovery timestamp args delays fair =
    let submissions = submit_events site.post (payloads_from site.payload 0 args.events) in
    let Good = IsCoherent killer args in
    bind-Ends Any Good (restart site args) _ (restart-Ends site args) λ _ _.
      bind-Ends Any Good (become_ready site args) _ (become_ready-Ends site args fair.ready_ticks)
        λ _ _.
          bind-Ends Any Good (or_fail Failure.request_failed before_recovery) _
            (or_fail-Ends before_recovery)
            λ before _.
              bind-Ends (Fits submissions) Good
                (all_terminal site.watch args.timeout (keep is_successful submissions)) _
                (all_terminal-Ends site.watch args.timeout submissions fair.watch_ticks
                  fair.same_members fair.same_length)
                λ terminal fits.
                  bind-Ends _ Good (final_report site.report_clock site.report args.timeout) _
                    (final_report-Ends site.report_clock site.report args.timeout fair.report_ticks)
                    λ recovery _.
                      bind-Ends _ Good (kill_and_restart killer) _ (kill_and_restart-Ends killer)
                        λ kill h.
                          bind-Ends Any Good (or_fail Failure.request_failed site.workers) _
                            (or_fail-Ends site.workers)
                            λ workers _.
                              measure-IsCoherent site timestamp args delays killer submissions
                                terminal before recovery kill.0 kill.1 workers
                                (omega (
                                  arith,
                                  length-submit_events site.post
                                      (payloads_from site.payload 0 args.events),
                                  length-payloads_from site.payload 0 args.events,
                                ))
                                fits h

-- A chaos run always comes to an end. If it writes an artifact, then the completed, dead-lettered and
-- failed together are no more than the submitted, these no more than the events asked for, the
-- percentiles are in order, and a worker that it names as killed is the first that was listed, and
-- was stopped. The clocks go on between two turns of a loop, and a turn goes through the whole set.
pub chaos-IsCoherent :
    {P : Type 0} (site : Site P) (killer : Killer) (before_recovery : Option Report) (timestamp : ℕ)
    (args : Args) (delays : Delays)
    → IsFair site
    → Ends
        (IsCoherent killer args)
        (main_artifact site killer before_recovery timestamp args delays)
unfolding main_artifact pending_artifact
chaos-IsCoherent site killer before_recovery timestamp args delays fair =
    elim (Bool-cases (args.dry_run || args.pending)) [
      | inl asked ↦ rw asked (record {
        of_submitted = omega arith;
        of_events = omega arith;
        killed = tt;
        median = tt;
        tail = tt;
      })
      | inr live ↦
          rw live (run_chaos-IsCoherent site killer before_recovery timestamp args delays fair)
    ]
