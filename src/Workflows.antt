-- ===== src/Workflows.antt =====
-- api/app/api/workflows.py: the summary of one workflow.
pub mod Parts
use replay_forge.Base.{
  ℕ, ◌≡◌, String, Bool, true, false, ◌||◌, List, [], ◌∷◌, Option, none, some, ltb, leb, ◌==◌,
  str_eq, if◌then◌else◌, length, keep, count_by,
}
use replay_forge.Models.{Status, Event}
use replay_forge.Service.World.{Platform, Step, Error, ◌>>=◌, pure, throw, get_db}

-- `WorkflowSummaryOut`
pub record WorkflowSummaryOut : Type 0 where
  pub workflow_id : String
  pub total_events : ℕ
  pub succeeded : ℕ
  pub failed : ℕ
  pub dead_lettered : ℕ
  pub in_flight : ℕ
  pub has_failures : Bool
  pub last_updated_at : Option ℕ

-- `_SUCCEEDED`, `_DEAD_LETTERED`, `_FAILED` and `_IN_FLIGHT`: whether an event counts as 1.
abbrev pub counts_succeeded : Status → Bool
counts_succeeded Status.succeeded = true
counts_succeeded _ = false

abbrev pub counts_dead_lettered : Status → Bool
counts_dead_lettered Status.dead_lettered = true
counts_dead_lettered _ = false

abbrev pub counts_failed : Status → Bool
counts_failed Status.failed = true
counts_failed Status.dead_lettered = true
counts_failed _ = false

abbrev pub counts_in_flight : Status → Bool
counts_in_flight Status.queued = true
counts_in_flight Status.processing = true
counts_in_flight Status.retrying = true
counts_in_flight Status.received = true
counts_in_flight _ = false

-- `func.sum` of such a case
abbrev pub tally : (Status → Bool) → List Event → ℕ
tally counts = count_by (λ (e : Event). counts e.status)

-- `func.max(Event.updated_at)`
abbrev pub last_update : List Event → Option ℕ
last_update [] = none
last_update (e ∷ es) = elim (last_update es) [
  | none ↦ some e.updated_at
  | some t ↦ if leb t e.updated_at then some e.updated_at else some t
]

abbrev pub in_workflow : String → Event → Bool
in_workflow workflow_id e = str_eq e.workflow_id workflow_id

-- The row of a group, as the endpoint returns it.
unfoldable pub summary_of : String → List Event → WorkflowSummaryOut
summary_of workflow_id events = record {
  workflow_id = workflow_id;
  total_events = length events;
  succeeded = tally counts_succeeded events;
  failed = tally counts_failed events;
  dead_lettered = tally counts_dead_lettered events;
  in_flight = tally counts_in_flight events;
  has_failures = ltb 0 (tally counts_dead_lettered events) || ltb 0 (tally counts_failed events);
  last_updated_at = last_update events;
}

-- There is no row for a workflow without events.
abbrev pub group_row : String → List Event → Option WorkflowSummaryOut
group_row workflow_id [] = none
group_row workflow_id (e ∷ es) = some (summary_of workflow_id (e ∷ es))

abbrev pub respond : (p : Platform) → Option WorkflowSummaryOut → Step p WorkflowSummaryOut
respond p none = throw (Error.http 404 "workflow not found")
respond p (some row) = pure row

-- `get_workflow`
unfoldable pub get_workflow : (p : Platform) → String → Step p WorkflowSummaryOut
get_workflow p workflow_id = do
  db ← get_db p
  respond p (group_row workflow_id (p.tables.select (in_workflow workflow_id) db.events))
