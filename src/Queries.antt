-- ===== src/Queries.antt =====
-- api/app/api/workflows.py, deadletters.py and events.py: the endpoints that list rows, and those that
-- read one event.
pub mod Order
pub mod Paging
pub mod Stored
pub mod Timeline
use replay_forge.Base.{
  ℕ, ◌+◌, String, Bool, true, false, List, [], ◌∷◌, map, Option, none, some, leb, ◌==◌, head?,
  group_by, sorted, if◌then◌else◌,
}
use replay_forge.Models.{
  Status, AttemptStatus, ReplayStatus, Reason, Event, EventAttempt, DeadLetter, is_event,
  is_attempt_of, ℤ,
}
use replay_forge.Service.Tables.{Db}
use replay_forge.Service.Ordering.{Sort, descending, ascending, take, page}
use replay_forge.Service.World.{
  Platform, Step, Result, ok, raise, Error, ◌>>=◌, pure, throw, get_db,
}
use replay_forge.Workflows.{WorkflowSummaryOut, in_workflow, last_update, summary_of}
use replay_forge.Replay.{replay_dead_letter}

-- The rows of `list_workflows`: the group of each workflow, with the latest update of its events.
abbrev pub workflow_of : Event → String
workflow_of e = e.workflow_id

abbrev pub updated_last : String × List Event → ℕ
updated_last group = elim (last_update group.1) [ none ↦ 0 | some t ↦ t ]

abbrev pub summary_row : String × List Event → WorkflowSummaryOut
summary_row group = summary_of group.0 group.1

-- `EventAttemptOut`
pub record EventAttemptOut : Type 0 where
  pub id : ℕ
  pub attempt_number : ℕ
  pub worker_name : Option String
  pub status : AttemptStatus
  pub error_message : Option String
  pub replay_of : Option ℕ
  pub started_at : ℕ
  pub finished_at : Option ℕ
  pub duration_ms : Option ℤ

abbrev pub attempt_out : EventAttempt → EventAttemptOut
attempt_out a = record {
  id = a.id;
  attempt_number = a.attempt_number;
  worker_name = a.worker_name;
  status = a.status;
  error_message = a.error_message;
  replay_of = a.replay_of;
  started_at = a.started_at;
  finished_at = a.finished_at;
  duration_ms = a.duration_ms;
}

-- `WorkflowTimelineEventOut`
pub record TimelineEvent : Type 0 where
  pub id : ℕ
  pub event_type : String
  pub service_name : String
  pub status : Status
  pub attempt_count : ℕ
  pub max_attempts : ℕ
  pub last_error : Option String
  pub created_at : ℕ
  pub updated_at : ℕ
  pub attempts : List EventAttemptOut

-- `WorkflowTimelineOut`
pub record WorkflowTimelineOut : Type 0 where
  pub workflow_id : String
  pub events : List TimelineEvent

-- `key=lambda a: a.attempt_number`
abbrev pub by_number : EventAttempt → EventAttempt → Bool
by_number = ascending (λ (a : EventAttempt). a.attempt_number)

abbrev pub timeline_event : Event → List EventAttempt → TimelineEvent
timeline_event ev attempts = record {
  id = ev.id;
  event_type = ev.event_type;
  service_name = ev.service_name;
  status = ev.status;
  attempt_count = ev.attempt_count;
  max_attempts = ev.max_attempts;
  last_error = ev.last_error;
  created_at = ev.created_at;
  updated_at = ev.updated_at;
  attempts = map attempt_out (sorted by_number attempts);
}

-- `DeadLetterOut`
pub record DeadLetterOut : Type 0 where
  pub id : ℕ
  pub event_id : ℕ
  pub workflow_id : String
  pub event_type : String
  pub service_name : String
  pub reason : Reason
  pub last_error : Option String
  pub created_at : ℕ
  pub replayed_at : Option ℕ
  pub replay_status : Option ReplayStatus

-- `... if dl.event else ""`
abbrev pub text_of : (Event → String) → Option Event → String
text_of column none = ""
text_of column (some e) = column e

abbrev pub dead_letter_out : DeadLetter → Option Event → DeadLetterOut
dead_letter_out dl event = record {
  id = dl.id;
  event_id = dl.event_id;
  workflow_id = text_of workflow_of event;
  event_type = text_of (λ e. e.event_type) event;
  service_name = text_of (λ e. e.service_name) event;
  reason = dl.reason;
  last_error = dl.last_error;
  created_at = dl.created_at;
  replayed_at = dl.replayed_at;
  replay_status = dl.replay_status;
}

-- An element of the recent activity.
pub record RecentEvent : Type 0 where
  pub id : ℕ
  pub workflow_id : String
  pub event_type : String
  pub service_name : String
  pub status : Status
  pub attempt_count : ℕ
  pub last_error : Option String
  pub updated_at : ℕ

abbrev pub recent_event : Event → RecentEvent
recent_event r = record {
  id = r.id;
  workflow_id = r.workflow_id;
  event_type = r.event_type;
  service_name = r.service_name;
  status = r.status;
  attempt_count = r.attempt_count;
  last_error = r.last_error;
  updated_at = r.updated_at;
}

-- `EventOut` with its attempts, and the columns of the event as the event.
pub record EventDetails : Type 0 where
  pub event : Event
  pub duplicate : Bool
  pub attempts : List EventAttemptOut

module _ (p : Platform) (sort : Sort) where
  -- A statement that sorts is a reading.
  abbrev pub ordered : {A : Type 0} → (A → A → Bool) → List A → Step p (List A)
  ordered le rows w = (ok (sort.order_by le w.tick rows), record w { tick = w.tick + 1 })

  -- `list_workflows`
  unfoldable pub list_workflows : ℕ → ℕ → Step p (List WorkflowSummaryOut)
  list_workflows limit offset = do
    db ← get_db p
    rows ← ordered (descending updated_last) (group_by workflow_of (p.tables.rows db.events))
    pure (map summary_row (page limit offset rows))

  abbrev pub attempts_of : Db p.tables → ℕ → List EventAttempt
  attempts_of db id = p.tables.select (is_attempt_of id) db.attempts

  abbrev pub timeline : String → Db p.tables → List Event → Step p WorkflowTimelineOut
  timeline workflow_id db [] = throw (Error.http 404 "workflow not found")
  timeline workflow_id db (ev ∷ evs) = pure (record {
    workflow_id = workflow_id;
    events = map (λ (e : Event). timeline_event e (attempts_of db e.id)) (ev ∷ evs);
  })

  -- `get_workflow_timeline`
  unfoldable pub get_workflow_timeline : String → Step p WorkflowTimelineOut
  get_workflow_timeline workflow_id = do
    db ← get_db p
    events ←
        ordered (ascending (λ (e : Event). e.created_at))
          (p.tables.select (in_workflow workflow_id) db.events)
    timeline workflow_id db events

  abbrev pub event_of : Db p.tables → DeadLetter → Option Event
  event_of db dl = head? (p.tables.select (is_event dl.event_id) db.events)

  -- `list_deadletters`
  unfoldable pub list_deadletters : ℕ → ℕ → Step p (List DeadLetterOut)
  list_deadletters limit offset = do
    db ← get_db p
    rows ← ordered (descending (λ (d : DeadLetter). d.created_at)) (p.tables.rows db.dead_letters)
    pure (map (λ (d : DeadLetter). dead_letter_out d (event_of db d)) (page limit offset rows))

  -- `recent_events`, for a limit that FastAPI has accepted
  unfoldable pub recent_events : ℕ → Step p (List RecentEvent)
  recent_events limit = do
    db ← get_db p
    rows ← ordered (descending (λ (e : Event). e.updated_at)) (p.tables.rows db.events)
    pure (map recent_event (take limit rows))

module _ (p : Platform) where
  abbrev pub details : Db p.tables → Event → EventDetails
  details db e = record {
    event = e;
    duplicate = false;
    attempts = map attempt_out (p.tables.select (is_attempt_of e.id) db.attempts);
  }

  abbrev pub found_event : Error → ℕ → Step p EventDetails
  found_event missing event_id = do
    db ← get_db p
    elim (head? (p.tables.select (is_event event_id) db.events)) [
      | none ↦ throw missing
      | some e ↦ pure (details db e)
    ]

  -- `get_event`
  unfoldable pub get_event_details : ℕ → Step p EventDetails
  get_event_details = found_event (Error.http 404 "event not found")

  -- `replay_deadletter`: the answer is read after the replay.
  unfoldable pub replay_deadletter : ℕ → Step p EventDetails
  replay_deadletter deadletter_id = do
    event ← replay_dead_letter p deadletter_id
    found_event Error.no_result_found event.id
