-- ===== src/Metrics/Agrees.antt =====
-- How the numbers of api/app/api/metrics.py fit together, and with the convergence report.
use replay_forge.Base.{
  ℕ, zero, suc, ◌+◌, ◌/◌, ◌≤◌, ◌<◌, ◌≡◌, refl, true, false, List, [], ◌∷◌, Option, none, some,
  if◌then◌else◌, count_by, length, sorted, sorted-IsAscending, length-sorted, get_elem?-IsAscending,
  get_elem?-some, arith,
}
use replay_forge.Models.{Status, Event, DeadLetter, ℤ, pos, negsuc, is_event, status_eq}
use replay_forge.Service.World.{Platform, World, ok}
use replay_forge.Convergence.Rows.{has_status}
use replay_forge.Convergence.Report.{Gauges, build_convergence_report, report_of}
use replay_forge.Convergence.Counts.{count_of-status_counts, sum_counts-status_counts}
use replay_forge.Metrics.{
  MetricsOut, le_duration, median, tail, tail_place, rate, is_replayed, succeeded_events,
  replayed_succeeded, durations_of, metrics_of, get_metrics,
}

le_duration_trans :
    (a b c : ℤ) → le_duration a b ≡ true → le_duration b c ≡ true → le_duration a c ≡ true
le_duration_trans (pos a) (pos b) (pos c) h k = ground arith
le_duration_trans (pos a) (pos b) (negsuc c) h k = cc
le_duration_trans (pos a) (negsuc b) c h k = cc
le_duration_trans (negsuc a) b (pos c) h k = refl
le_duration_trans (negsuc a) (pos b) (negsuc c) h k = cc
le_duration_trans (negsuc a) (negsuc b) (negsuc c) h k = ground arith

le_duration_total : (a b : ℤ) → le_duration a b ≡ false → le_duration b a ≡ true
le_duration_total (pos a) (pos b) h = ground arith
le_duration_total (pos a) (negsuc b) h = refl
le_duration_total (negsuc a) (pos b) h = cc
le_duration_total (negsuc a) (negsuc b) h = ground arith

-- One duration is at most the other; there is none of either or one of both.
abbrev pub InOrder : Option ℤ → Option ℤ → Type 0
InOrder none none = Unit {0}
InOrder (some a) (some b) = le_duration a b ≡ true
InOrder none (some b) = ⊥
InOrder (some a) none = ⊥

places : (n : ℕ) → 0 < n → (n / 2 ≤ tail_place n) × (tail_place n < n)
places n h = ground arith

median-InOrder : (ds : List ℤ) → InOrder (median ds) (tail ds)
median-InOrder [] = tt
median-InOrder (d ∷ ds) =
    let ordered = sorted le_duration (d ∷ ds) in
    let n = length ordered in
    let many = length-sorted le_duration (d ∷ ds) in
    let (le_tail, tail_lt) = places n (omega (arith, many)) in
    let (low, el) = get_elem?-some ordered (n / 2) (omega arith) in
    let (high, eh) = get_elem?-some ordered (tail_place n) tail_lt in
    rw (el, eh)
      (get_elem?-IsAscending le_duration le_duration_trans le_duration_total ordered (n / 2)
        (tail_place n) (sorted-IsAscending le_duration le_duration_trans le_duration_total (d ∷ ds))
        le_tail el eh)

-- An event has one status of eight.
one_of :
    (s : Status)
    → (if status_eq s Status.received then 1 else 0)
        + (if status_eq s Status.queued then 1 else 0)
        + (if status_eq s Status.processing then 1 else 0)
        + (if status_eq s Status.retrying then 1 else 0)
        + (if status_eq s Status.succeeded then 1 else 0)
        + (if status_eq s Status.dead_lettered then 1 else 0)
        + (if status_eq s Status.failed then 1 else 0)
        + (if status_eq s Status.cancelled then 1 else 0)
      ≡ 1
one_of Status.received = refl
one_of Status.queued = refl
one_of Status.processing = refl
one_of Status.retrying = refl
one_of Status.succeeded = refl
one_of Status.dead_lettered = refl
one_of Status.failed = refl
one_of Status.cancelled = refl

count_by-cons :
    (s : Status) (e : Event) (es : List Event)
    → count_by (has_status s) (e ∷ es)
      ≡ (if status_eq e.status s then 1 else 0) + count_by (has_status s) es
count_by-cons s e es = ground arith

-- The events with these statuses, in the order of `Status`.
abbrev all_statuses : List Event → ℕ
all_statuses es =
    count_by (has_status Status.received) es
    + count_by (has_status Status.queued) es
    + count_by (has_status Status.processing) es
    + count_by (has_status Status.retrying) es
    + count_by (has_status Status.succeeded) es
    + count_by (has_status Status.dead_lettered) es
    + count_by (has_status Status.failed) es
    + count_by (has_status Status.cancelled) es

all_statuses-length : (es : List Event) → all_statuses es ≡ length es
all_statuses-length [] = refl
all_statuses-length (e ∷ es) = omega (
  arith,
  all_statuses-length es,
  one_of e.status,
  count_by-cons Status.received e es,
  count_by-cons Status.queued e es,
  count_by-cons Status.processing e es,
  count_by-cons Status.retrying e es,
  count_by-cons Status.succeeded e es,
  count_by-cons Status.dead_lettered e es,
  count_by-cons Status.failed e es,
  count_by-cons Status.cancelled e es,
)

succeeded_events_le :
    (events : List Event) (d : DeadLetter)
    → succeeded_events events d ≤ count_by (is_event d.event_id) events
succeeded_events_le [] d = omega arith
succeeded_events_le (e ∷ es) d = ground (arith, succeeded_events_le es d)

replayed_succeeded_le :
    (events : List Event) (ds : List DeadLetter)
    → ((id : ℕ) → count_by (is_event id) events ≤ 1)
    → replayed_succeeded events ds ≤ count_by is_replayed ds
replayed_succeeded_le events [] unique = omega arith
replayed_succeeded_le events (d ∷ ds) unique =
    ground (
      arith,
      replayed_succeeded_le events ds unique,
      succeeded_events_le events d,
      unique d.event_id,
    )

rate_le : (n m : ℕ) → n ≤ m → (rate n m).num ≤ (rate n m).den
rate_le n zero h = omega arith
rate_le n (suc m) h = h

-- How the numbers of an answer fit together.
pub record IsAgreed (events : List Event) (o : MetricsOut) : Type 0 where
  pub total : o.total_events ≡ length events
  pub parts :
      o.total_events
      ≡ o.succeeded
        + o.failed
        + o.dead_lettered
        + o.retrying
        + o.queued
        + o.processing
        + count_by (has_status Status.received) events
        + count_by (has_status Status.cancelled) events
  pub same_total : o.total_events ≡ o.convergence.total_events
  pub same_dead : o.dead_lettered ≡ o.convergence.dlq_events
  pub same_retrying : o.retrying ≡ o.convergence.retrying_events
  pub rate_at_most_one : o.replay_success_rate.num ≤ o.replay_success_rate.den
  pub durations : InOrder o.p50_attempt_duration o.p95_attempt_duration

-- While no other session writes, the endpoint always answers. If no two events have one id, then the total is the number of events
-- and the sum of the six counts, the received and the cancelled; the total, the dead letters and
-- the retrying are those of the convergence report in the answer; the success rate of replays is
-- at most 1; and the median duration is at most the 95th percentile.
pub get_metrics-IsAgreed :
    (p : Platform) (g : Gauges p.redis) (w : World p)
    → ((id : ℕ) → count_by (is_event id) (p.tables.rows w.db.events) ≤ 1)
    → (o : MetricsOut) × ((get_metrics p g (λ k d. d) w).0 ≡ ok o)
      × IsAgreed (p.tables.rows w.db.events) o
unfolding get_metrics build_convergence_report report_of metrics_of
get_metrics-IsAgreed p g w unique =
    let events = p.tables.rows w.db.events in
    let letters = p.tables.rows w.db.dead_letters in
    (
      _,
      refl,
      record {
        total = sum_counts-status_counts events;
        parts = omega (
          arith,
          sum_counts-status_counts events,
          all_statuses-length events,
          count_of-status_counts Status.queued events,
          count_of-status_counts Status.processing events,
          count_of-status_counts Status.retrying events,
          count_of-status_counts Status.succeeded events,
          count_of-status_counts Status.dead_lettered events,
          count_of-status_counts Status.failed events,
        );
        same_total = refl;
        same_dead = refl;
        same_retrying = refl;
        rate_at_most_one =
            rate_le (replayed_succeeded events letters) (count_by is_replayed letters)
              (replayed_succeeded_le events letters unique);
        durations = median-InOrder (durations_of (p.tables.rows w.db.attempts));
      },
    )
