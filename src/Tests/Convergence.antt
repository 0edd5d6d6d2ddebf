-- ===== src/Tests/Convergence.antt =====
-- The theorems of Convergence at concrete inputs.
use replay_forge.Base.{◌≡◌, ◌↔◌, refl, true, [], ◌∷◌, some}
use replay_forge.Models.{Worker, WorkerStatus}
use replay_forge.Service.World.{ok}
use replay_forge.Convergence.Report.{
  Depths, Gauges, ConvergenceReport, read_depths, issues, report_of, build_convergence_report,
}
use replay_forge.Convergence.Sound.{IsConverged, build_convergence_report-converged}
use replay_forge.Tests.Services.{platform, fake_redis}
use replay_forge.Tests.Data.{dead, doomed, failed_attempt, worker, dead_world}

-- A Redis with nothing waiting.
abbrev gauges : Gauges fake_redis
gauges = record { zcard = λ s. some 0; xlen = λ t s. some 2; xpending = λ t s. some 0 }

abbrev depths : Depths
depths = record {
  retry_queue_depth = 1;
  incoming_stream_depth = 2;
  retry_stream_depth = 0;
  pending_events = 1;
}

-- A worker whose claim is on no event.
abbrev lost_worker : Worker
lost_worker = record worker { status = WorkerStatus.busy; current_event_id = some 99 }

program : Unit {0}
unfolding read_depths issues report_of build_convergence_report
program = tt

-- Once the event is dead-lettered, the report says that all is done.
dead_world_converged : build_convergence_report platform gauges dead_world ≡ (
  ok (
      report_of
        (dead ∷ [])
        (failed_attempt 1 ∷ failed_attempt 2 ∷ failed_attempt 3 ∷ [])
        (worker ∷ [])
        (record {
          retry_queue_depth = 0;
          incoming_stream_depth = 2;
          retry_stream_depth = 2;
          pending_events = 0;
        })
        0
        1000000
        2000000),
  record dead_world { tick = 3 },
)
unfolding program
dead_world_converged = refl

build_convergence_report-converged_example :
    (r : ConvergenceReport) × ((build_convergence_report platform gauges dead_world).0 ≡ ok r)
    × ((r.converged ≡ true)
        ↔ IsConverged
            (dead ∷ [])
            (failed_attempt 1 ∷ failed_attempt 2 ∷ failed_attempt 3 ∷ [])
            (worker ∷ [])
            0)
unfolding program
build_convergence_report-converged_example =
    build_convergence_report-converged platform gauges dead_world

abbrev report : ConvergenceReport
report = report_of (dead ∷ doomed ∷ []) (failed_attempt 1 ∷ []) (lost_worker ∷ []) depths 5 6 7
