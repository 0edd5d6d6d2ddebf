-- ===== src/Convergence/Totals.antt =====
-- How the numbers and the state of the report hang together.
use replay_forge.Base.{
  ℕ, suc, if◌then◌else◌, ◌+◌, ◌≤◌, ◌≡◌, ◌↔◌, true, false, List, [], ◌∷◌, arith, length, count_by,
}
use replay_forge.Models.{Status, Event, EventAttempt, Worker, status_eq}
use replay_forge.Convergence.Rows.{has_status}
use replay_forge.Convergence.Report.{
  ConvergenceReport, State, Depths, issues, is_empty, report_of, state_of,
}
use replay_forge.Convergence.Counts.{count_of-status_counts, sum_counts-status_counts}

-- An event counts at most once.
parts_step :
    (s : Status) (a b c : ℕ)
    → (if status_eq s Status.received then suc a else a)
        + (if status_eq s Status.queued then suc b else b)
        + (if status_eq s Status.processing then suc c else c)
      ≤ suc (a + b + c)
parts_step Status.received a b c = omega arith
parts_step Status.queued a b c = omega arith
parts_step Status.processing a b c = omega arith
parts_step Status.retrying a b c = omega arith
parts_step Status.succeeded a b c = omega arith
parts_step Status.dead_lettered a b c = omega arith
parts_step Status.failed a b c = omega arith
parts_step Status.cancelled a b c = omega arith

-- An event has one status.
parts :
    (es : List Event)
    → count_by (has_status Status.received) es
        + count_by (has_status Status.queued) es
        + count_by (has_status Status.processing) es
      ≤ length es
parts [] = omega arith
parts (e ∷ es) = omega (
  arith,
  parts es,
  parts_step e.status (count_by (has_status Status.received) es)
      (count_by (has_status Status.queued) es) (count_by (has_status Status.processing) es),
)

-- The same for any seven numbers.
state_of-issues :
    (a b c d e f g : ℕ)
    → let flag = is_empty (issues a b c d e f g) in
      ((state_of flag f g ≡ State.converged) ↔ (flag ≡ true))
      × ((state_of flag f g ≡ State.degraded) ↔ (1 ≤ f + g))
      × ((state_of flag f g ≡ State.recovering) ↔ ((flag ≡ false) × (f ≡ 0) × (g ≡ 0)))
unfolding issues
state_of-issues a b c d e f g = ground arith

module _ (events : List Event) (attempts : List EventAttempt) (workers : List Worker) (d : Depths)
    (cutoff_now now age_now : ℕ) where
  abbrev report : ConvergenceReport
  report = report_of events attempts workers d cutoff_now now age_now

  -- The counts of a report are those of the rows: the total is the number of events, and it is the
  -- sum of the acknowledged, the received, the queued and the processing ones.
  pub report_of_totals :
      (report.total_events ≡ length events)
      × (report.total_events
          ≡ report.acknowledged_events + report.received_events + report.queued_events
            + report.processing_events)
      × (report.dlq_events ≡ count_by (has_status Status.dead_lettered) events)
  unfolding report_of
  report_of_totals = ground (
    arith,
    parts events,
    sum_counts-status_counts events,
    count_of-status_counts Status.received events,
    count_of-status_counts Status.queued events,
    count_of-status_counts Status.processing events,
    count_of-status_counts Status.dead_lettered events,
  )

  -- The state is `converged` exactly with the flag, `degraded` exactly if a claim is orphaned or an
  -- event succeeded twice, and `recovering` in the other cases.
  pub report_of_state :
      ((report.convergence_state ≡ State.converged) ↔ (report.converged ≡ true))
      × ((report.convergence_state ≡ State.degraded)
          ↔ (1 ≤ report.orphaned_records + report.duplicate_side_effects))
      × ((report.convergence_state ≡ State.recovering) ↔ (
          (report.converged ≡ false)
          × (report.orphaned_records ≡ 0)
          × (report.duplicate_side_effects ≡ 0)))
  unfolding report_of
  report_of_state = state_of-issues _ _ _ _ _ _ _
