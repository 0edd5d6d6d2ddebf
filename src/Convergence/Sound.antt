-- ===== src/Convergence/Sound.antt =====
-- What the report says of the rows, against a description that does not count.
use replay_forge.Base.{
  ℕ, ◌≤◌, ◌≡◌, ◌↔◌, refl, Bool, true, false, List, [], ◌∷◌, Option, none, some, arith, count_by,
  find_by, find_by-none, All, ◌==◌, Option-cases, Bool-cases, inl, inr, none-find_by,
}
use replay_forge.Models.{Status, Event, EventAttempt, Worker, is_event, status_eq}
use replay_forge.Service.World.{Platform, World, ok}
use replay_forge.Convergence.Rows.{
  has_status, count_of, status_counts, is_orphan, succeeded_of, count_duplicates,
}
use replay_forge.Convergence.Report.{
  ConvergenceReport, Depths, Gauges, read_depths, issues, is_empty, report_of,
  build_convergence_report,
}
use replay_forge.Convergence.Counts.{
  count_of-status_counts, count_by_zero, zero-count_by, count_duplicates-zero,
  zero-count_duplicates,
}

-- The event has still to be worked on.
abbrev pub is_under_way : Status → Bool
is_under_way Status.received = true
is_under_way Status.queued = true
is_under_way Status.processing = true
is_under_way Status.retrying = true
is_under_way _ = false

-- A worker that claims an event claims one that is there.
abbrev pub HoldsEvent : List Event → Option ℕ → Type 0
HoldsEvent events none = Unit {0}
HoldsEvent events (some id) = (e : Event) × (find_by (is_event id) events ≡ some e)

-- Nothing is under way, no message waits for its acknowledgement, every claim is on an event that is
-- there, and no event succeeded twice.
pub record IsConverged (events : List Event) (attempts : List EventAttempt) (workers : List Worker)
    (pending : ℕ) : Type 0 where
  pub acknowledged : pending ≡ 0
  pub at_rest : All (λ e. is_under_way e.status ≡ false) events
  pub claims : All (λ w. HoldsEvent events w.current_event_id) workers
  pub once : (id : ℕ) → count_by (succeeded_of id) attempts ≤ 1

-- There is no issue exactly if all seven numbers are 0.
issues-empty :
    (a b c d e f g : ℕ)
    → (is_empty (issues a b c d e f g) ≡ true)
      ↔ ((a ≡ 0) × (b ≡ 0) × (c ≡ 0) × (d ≡ 0) × (e ≡ 0) × (f ≡ 0) × (g ≡ 0))
unfolding issues
issues-empty a b c d e f g = ground arith

-- The four statuses of an event under way.
under_way_iff :
    (s : Status)
    → (is_under_way s ≡ false) ↔ (
        (status_eq s Status.retrying ≡ false)
        × (status_eq s Status.received ≡ false)
        × (status_eq s Status.queued ≡ false)
        × (status_eq s Status.processing ≡ false))
under_way_iff Status.received = ground arith
under_way_iff Status.queued = ground arith
under_way_iff Status.processing = ground arith
under_way_iff Status.retrying = ground arith
under_way_iff Status.succeeded = ground arith
under_way_iff Status.dead_lettered = ground arith
under_way_iff Status.failed = ground arith
under_way_iff Status.cancelled = ground arith

-- The four counts of events under way are 0 exactly if none is under way.
under_way-counts :
    (events : List Event)
    → count_by (has_status Status.retrying) events ≡ 0
    → count_by (has_status Status.received) events ≡ 0
    → count_by (has_status Status.queued) events ≡ 0
    → count_by (has_status Status.processing) events ≡ 0
    → All (λ e. is_under_way e.status ≡ false) events
under_way-counts [] a b c d = tt
under_way-counts (e ∷ es) a b c d = (
  ground (arith, under_way_iff e.status),
  under_way-counts es (ground arith) (ground arith) (ground arith) (ground arith),
)

counts-under_way :
    (events : List Event)
    → All (λ e. is_under_way e.status ≡ false) events
    → (count_by (has_status Status.retrying) events ≡ 0)
      × (count_by (has_status Status.received) events ≡ 0)
      × (count_by (has_status Status.queued) events ≡ 0)
      × (count_by (has_status Status.processing) events ≡ 0)
counts-under_way [] h = (refl, refl, refl, refl)
counts-under_way (e ∷ es) h = ground (arith, h.0, under_way_iff e.status, counts-under_way es h.1)

holds_event :
    (events : List Event) (o : Option ℕ) → is_orphan events o ≡ false → HoldsEvent events o
holds_event events none h = tt
holds_event events (some id) h = elim (Option-cases (find_by (is_event id) events)) [
  | inl missing ↦ let gone = find_by-none (is_event id) events missing in ground arith
  | inr (e, found) ↦ (e, found)
]

not_orphan : (events : List Event) (o : Option ℕ) → HoldsEvent events o → is_orphan events o ≡ false
not_orphan events none h = refl
not_orphan events (some id) (e, found) = elim (Bool-cases (count_by (is_event id) events == 0)) [
  | inl gone ↦ let missing = none-find_by (is_event id) events (ground arith) in ground arith
  | inr there ↦ there
]

claims_hold :
    (events : List Event) (ws : List Worker)
    → All (λ w. is_orphan events w.current_event_id ≡ false) ws
    → All (λ w. HoldsEvent events w.current_event_id) ws
claims_hold events [] h = tt
claims_hold events (w ∷ ws) h =
    (holds_event events w.current_event_id h.0, claims_hold events ws h.1)

claims_held :
    (events : List Event) (ws : List Worker)
    → All (λ w. HoldsEvent events w.current_event_id) ws
    → All (λ w. is_orphan events w.current_event_id ≡ false) ws
claims_held events [] h = tt
claims_held events (w ∷ ws) h =
    (not_orphan events w.current_event_id h.0, claims_held events ws h.1)

module _ (events : List Event) (attempts : List EventAttempt) (workers : List Worker) (d : Depths)
    (cutoff_now now age_now : ℕ) where
  abbrev report : ConvergenceReport
  report = report_of events attempts workers d cutoff_now now age_now

  -- The numbers that an issue is raised for.
  abbrev under_way : Status → ℕ
  under_way s = count_of s (status_counts events)

  abbrev orphans : ℕ
  orphans = count_by (λ w. is_orphan events w.current_event_id) workers

  abbrev NoIssue : Type 0
  NoIssue =
      (d.pending_events ≡ 0)
      × (under_way Status.retrying ≡ 0)
      × (under_way Status.received ≡ 0)
      × (under_way Status.queued ≡ 0)
      × (under_way Status.processing ≡ 0)
      × (orphans ≡ 0)
      × (count_duplicates attempts ≡ 0)

  NoIssue-IsConverged : NoIssue → IsConverged events attempts workers d.pending_events
  NoIssue-IsConverged (pending, retrying, received, queued, processing, orphaned, duplicates) =
      let count = λ (s : Status). count_of-status_counts s events in
      record {
        acknowledged = pending;
        at_rest =
            under_way-counts events (rw (← count Status.retrying) retrying)
              (rw (← count Status.received) received) (rw (← count Status.queued) queued)
              (rw (← count Status.processing) processing);
        claims =
            claims_hold events workers (
              count_by_zero (λ (w : Worker). is_orphan events w.current_event_id) workers orphaned);
        once = count_duplicates-zero attempts duplicates;
      }

  IsConverged-NoIssue : IsConverged events attempts workers d.pending_events → NoIssue
  IsConverged-NoIssue h =
      let (retrying, received, queued, processing) = counts-under_way events h.at_rest in
      let count = λ (s : Status). count_of-status_counts s events in
      (
        h.acknowledged,
        rw (count Status.retrying) retrying,
        rw (count Status.received) received,
        rw (count Status.queued) queued,
        rw (count Status.processing) processing,
        zero-count_by (λ (w : Worker). is_orphan events w.current_event_id) workers
            (claims_held events workers h.claims),
        zero-count_duplicates attempts h.once,
      )

  pub report-converged :
      (report.converged ≡ true) ↔ IsConverged events attempts workers d.pending_events
  unfolding report_of
  report-converged =
      let (to_zero, from_zero) =
        issues-empty d.pending_events (under_way Status.retrying) (under_way Status.received)
          (under_way Status.queued) (under_way Status.processing) orphans
          (count_duplicates attempts) in
      (λ h. NoIssue-IsConverged (to_zero h), λ h. from_zero (IsConverged-NoIssue h))

-- The report is made whatever Redis answers. It says `converged` exactly if no event is under way, no
-- message waits for its acknowledgement as far as Redis could be read, every claim of a worker is on
-- an event that is there, and no event has two succeeded attempts.
pub build_convergence_report-converged :
    (p : Platform) (g : Gauges p.redis) (w : World p)
    → (r : ConvergenceReport) × ((build_convergence_report p g w).0 ≡ ok r)
      × ((r.converged ≡ true)
          ↔ IsConverged
              (p.tables.rows w.db.events)
              (p.tables.rows w.db.attempts)
              (p.tables.rows w.db.workers)
              (read_depths g w.redis).pending_events)
unfolding build_convergence_report
build_convergence_report-converged p g w = (
  _,
  refl,
  report-converged (p.tables.rows w.db.events) (p.tables.rows w.db.attempts)
      (p.tables.rows w.db.workers) (read_depths g w.redis) _ _ _,
)
