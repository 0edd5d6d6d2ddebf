-- ===== src/Workflows/Parts.antt =====
-- How the numbers of a summary add up.
use replay_forge.Base.{
  ℕ, suc, if◌then◌else◌, ◌+◌, ◌≤◌, ◌≡◌, ◌↔◌, ◌⊎◌, inl, inr, refl, String, Bool, true, false, List,
  [], ◌∷◌, arith, length, count_by,
}
use replay_forge.Models.{Status, Event, status_eq}
use replay_forge.Convergence.Rows.{has_status}
use replay_forge.Service.World.{Platform, World, Result, ok, raise, Error}
use replay_forge.Workflows.{
  WorkflowSummaryOut, counts_succeeded, counts_dead_lettered, counts_failed, counts_in_flight,
  tally, in_workflow, summary_of, group_row, respond, get_workflow,
}

abbrev pub is_cancelled : Status → Bool
is_cancelled Status.cancelled = true
is_cancelled _ = false

-- Each status counts in one part.
one_part :
    (s : Status) (a b c d : ℕ)
    → suc (a + b + c + d)
      ≡ (if counts_succeeded s then suc a else a)
        + (if counts_failed s then suc b else b)
        + (if counts_in_flight s then suc c else c)
        + (if is_cancelled s then suc d else d)
one_part Status.received a b c d = omega arith
one_part Status.queued a b c d = omega arith
one_part Status.processing a b c d = omega arith
one_part Status.retrying a b c d = omega arith
one_part Status.succeeded a b c d = omega arith
one_part Status.dead_lettered a b c d = omega arith
one_part Status.failed a b c d = omega arith
one_part Status.cancelled a b c d = omega arith

dead_is_failed : (s : Status) → counts_dead_lettered s ≡ true → counts_failed s ≡ true
dead_is_failed Status.received h = cc
dead_is_failed Status.queued h = cc
dead_is_failed Status.processing h = cc
dead_is_failed Status.retrying h = cc
dead_is_failed Status.succeeded h = cc
dead_is_failed Status.dead_lettered h = refl
dead_is_failed Status.failed h = refl
dead_is_failed Status.cancelled h = cc

total_parts :
    (es : List Event)
    → length es
      ≡ tally counts_succeeded es
        + tally counts_failed es
        + tally counts_in_flight es
        + tally is_cancelled es
total_parts [] = refl
total_parts (e ∷ es) = ground (
  arith,
  total_parts es,
  one_part e.status (tally counts_succeeded es) (tally counts_failed es) (tally counts_in_flight es)
      (tally is_cancelled es),
)

dead_failed : (es : List Event) → tally counts_dead_lettered es ≤ tally counts_failed es
dead_failed [] = omega arith
dead_failed (e ∷ es) = ground (arith, dead_failed es, dead_is_failed e.status)

abbrev one_if : Bool → ℕ
one_if b = if b then 1 else 0

-- An event counts in a tally if it has one of its statuses.
has_status-cons :
    (s : Status) (e : Event) (es : List Event)
    → count_by (has_status s) (e ∷ es) ≡ one_if (status_eq e.status s) + count_by (has_status s) es
has_status-cons s e es = ground arith

is_succeeded : (s : Status) → counts_succeeded s ≡ status_eq s Status.succeeded
is_succeeded Status.received = refl
is_succeeded Status.queued = refl
is_succeeded Status.processing = refl
is_succeeded Status.retrying = refl
is_succeeded Status.succeeded = refl
is_succeeded Status.dead_lettered = refl
is_succeeded Status.failed = refl
is_succeeded Status.cancelled = refl

is_dead : (s : Status) → counts_dead_lettered s ≡ status_eq s Status.dead_lettered
is_dead Status.received = refl
is_dead Status.queued = refl
is_dead Status.processing = refl
is_dead Status.retrying = refl
is_dead Status.succeeded = refl
is_dead Status.dead_lettered = refl
is_dead Status.failed = refl
is_dead Status.cancelled = refl

tally-cons :
    (counts : Status → Bool) (e : Event) (es : List Event)
    → tally counts (e ∷ es) ≡ one_if (counts e.status) + tally counts es
tally-cons counts e es = ground arith

failed_step :
    (s : Status)
    → one_if (counts_failed s)
      ≡ one_if (status_eq s Status.failed) + one_if (status_eq s Status.dead_lettered)
failed_step Status.received = refl
failed_step Status.queued = refl
failed_step Status.processing = refl
failed_step Status.retrying = refl
failed_step Status.succeeded = refl
failed_step Status.dead_lettered = refl
failed_step Status.failed = refl
failed_step Status.cancelled = refl

flight_step :
    (s : Status)
    → one_if (counts_in_flight s)
      ≡ one_if (status_eq s Status.received)
        + one_if (status_eq s Status.queued)
        + one_if (status_eq s Status.processing)
        + one_if (status_eq s Status.retrying)
flight_step Status.received = refl
flight_step Status.queued = refl
flight_step Status.processing = refl
flight_step Status.retrying = refl
flight_step Status.succeeded = refl
flight_step Status.dead_lettered = refl
flight_step Status.failed = refl
flight_step Status.cancelled = refl

tally_succeeded :
    (es : List Event) → tally counts_succeeded es ≡ count_by (has_status Status.succeeded) es
tally_succeeded [] = refl
tally_succeeded (e ∷ es) = ground (arith, tally_succeeded es, is_succeeded e.status)

tally_dead :
    (es : List Event)
    → tally counts_dead_lettered es ≡ count_by (has_status Status.dead_lettered) es
tally_dead [] = refl
tally_dead (e ∷ es) = ground (arith, tally_dead es, is_dead e.status)

tally_failed :
    (es : List Event)
    → tally counts_failed es
      ≡ count_by (has_status Status.failed) es + count_by (has_status Status.dead_lettered) es
tally_failed [] = refl
tally_failed (e ∷ es) = omega (
  arith,
  tally_failed es,
  tally-cons counts_failed e es,
  failed_step e.status,
  has_status-cons Status.failed e es,
  has_status-cons Status.dead_lettered e es,
)

tally_in_flight :
    (es : List Event)
    → tally counts_in_flight es
      ≡ count_by (has_status Status.received) es
        + count_by (has_status Status.queued) es
        + count_by (has_status Status.processing) es
        + count_by (has_status Status.retrying) es
tally_in_flight [] = refl
tally_in_flight (e ∷ es) = omega (
  arith,
  tally_in_flight es,
  tally-cons counts_in_flight e es,
  flight_step e.status,
  has_status-cons Status.received e es,
  has_status-cons Status.queued e es,
  has_status-cons Status.processing e es,
  has_status-cons Status.retrying e es,
)

-- What a summary promises of a workflow's events.
pub record IsSummary (events : List Event) (r : WorkflowSummaryOut) : Type 0 where
  pub total : r.total_events ≡ length events
  pub succeeded : r.succeeded ≡ count_by (has_status Status.succeeded) events
  pub dead_lettered : r.dead_lettered ≡ count_by (has_status Status.dead_lettered) events
  pub failed :
      r.failed
      ≡ count_by (has_status Status.failed) events
        + count_by (has_status Status.dead_lettered) events
  pub in_flight :
      r.in_flight
      ≡ count_by (has_status Status.received) events
        + count_by (has_status Status.queued) events
        + count_by (has_status Status.processing) events
        + count_by (has_status Status.retrying) events
  pub parts : r.total_events ≡ r.succeeded + r.failed + r.in_flight + tally is_cancelled events
  pub dead_among_failed : r.dead_lettered ≤ r.failed
  pub failures : (r.has_failures ≡ false) ↔ (r.failed ≡ 0)

-- What the answer is for the events of a workflow.
abbrev pub IsAnswer :
    (p : Platform) → World p → List Event → Result WorkflowSummaryOut × World p → Type 0
IsAnswer p w events o =
    ((events ≡ []) × (o ≡ (raise (Error.http 404 "workflow not found"), w)))
    ⊎ ((r : WorkflowSummaryOut) × (o ≡ (ok r, w)) × IsSummary events r)

summary_of-IsSummary :
    (workflow_id : String) (es : List Event) → IsSummary es (summary_of workflow_id es)
unfolding summary_of
summary_of-IsSummary workflow_id es = record {
  total = refl;
  succeeded = tally_succeeded es;
  dead_lettered = tally_dead es;
  failed = tally_failed es;
  in_flight = tally_in_flight es;
  parts = total_parts es;
  dead_among_failed = dead_failed es;
  failures = ground (arith, dead_failed es);
}

respond-IsAnswer :
    (p : Platform) (workflow_id : String) (w : World p) (es : List Event)
    → IsAnswer p w es (respond p (group_row workflow_id es) w)
respond-IsAnswer p workflow_id w [] = inl (refl, refl)
respond-IsAnswer p workflow_id w (e ∷ es) =
    inr (summary_of workflow_id (e ∷ es), refl, summary_of-IsSummary workflow_id (e ∷ es))

-- A workflow with no event is answered with 404. Any other gives a summary whose numbers are those of
-- its events: in all, the succeeded, the dead-lettered, the failed (the dead-lettered with them) and
-- those in flight (received, queued, processing or retrying). The total is the sum of the succeeded,
-- the failed, those in flight and the cancelled, and there are failures exactly if one failed.
-- Nothing is written.
pub get_workflow-IsAnswer :
    (p : Platform) (workflow_id : String) (w : World p)
    → IsAnswer p w
        (p.tables.select (in_workflow workflow_id) w.db.events)
        (get_workflow p workflow_id w)
unfolding get_workflow
get_workflow-IsAnswer p workflow_id w =
    respond-IsAnswer p workflow_id w (p.tables.select (in_workflow workflow_id) w.db.events)
