-- ===== src/Crew.antt =====
-- api/app/workers/worker.py, for several workers at once: each has a session and an event object of its
-- own over the same tables, and a message can be with more than one of them (it was claimed from a
-- worker that was slow, or published again). What each commits is a step, and a schedule is the order
-- in which the steps of all workers happen. A commit writes only the columns that the session has
-- changed since its last one; the readings of clocks and identifiers are given with the step.
pub mod Sound
pub mod Kept
pub mod Alone
pub mod Follows
pub mod Messages
use replay_forge.Base.{
  ℕ, ◌+◌, String, Bool, true, false, List, [], ◌∷◌, Option, none, some, ◌==◌, str_eq, if◌then◌else◌,
  head?,
}
use replay_forge.Models.{
  Status, AttemptStatus, Reason, Event, EventAttempt, DeadLetter, Worker, is_event, status_eq,
}
use replay_forge.Service.Tables.{Db}
use replay_forge.Service.World.{Platform, held_or}
use replay_forge.Retry.{should_dead_letter}
use replay_forge.Worker.{is_final, elapsed_ms, add_attempt, add_dead_letter, processing_event}

-- The tables, and the event object of each worker.
pub record Crew (p : Platform) : Type 0 where
  pub db : Db p.tables
  pub held : ℕ → Option Event

-- What a worker reads while it ends an attempt.
pub record Readings : Type 0 where
  pub worker : Worker
  pub attempt_num : ℕ
  pub started_at : ℕ
  pub finished_at : ℕ
  pub updated_at : ℕ
  pub retry_at : ℕ
  pub attempt_id : ℕ
  pub letter_id : ℕ
  pub letter_created_at : ℕ

pub data CrewStep : Type 0 where
  -- `db.execute(select(Event).where(Event.id == event_id))`
  load : ℕ → CrewStep
  -- the commit of `status = "processing"`
  mark : ℕ → CrewStep
  -- the commit of `_handle_success`
  succeed : Readings → CrewStep
  -- the commit of `_handle_failure`, for the text of the error
  fail : String → Readings → CrewStep
  -- the process is started again, and has no object
  restart : CrewStep

abbrev pub same_text : Option String → Option String → Bool
same_text none none = true
same_text (some a) (some b) = str_eq a b
same_text _ _ = false

abbrev pub same_moment : Option ℕ → Option ℕ → Bool
same_moment none none = true
same_moment (some a) (some b) = a == b
same_moment _ _ = false

-- The row after the flush of an object that was `before` at its last commit and is `after` now.
abbrev pub written_row : Event → Event → Event → Event
written_row before after row = record row {
  status = if status_eq before.status after.status then row.status else after.status;
  attempt_count =
      if before.attempt_count == after.attempt_count
      then row.attempt_count
      else after.attempt_count;
  next_retry_at =
      if same_moment before.next_retry_at after.next_retry_at
      then row.next_retry_at
      else after.next_retry_at;
  last_error =
      if same_text before.last_error after.last_error then row.last_error else after.last_error;
  updated_at = if before.updated_at == after.updated_at then row.updated_at else after.updated_at;
}

abbrev pub flush : (p : Platform) → Event → Event → Db p.tables → Db p.tables
flush p before after d = record d {
  events = p.tables.update (λ r. r.id == after.id) (written_row before after) d.events;
}

abbrev pub hold : ℕ → Option Event → (ℕ → Option Event) → ℕ → Option Event
hold i e held j = if i == j then e else held j

-- `EventAttempt(...)` of `_handle_success` and `_handle_failure`
abbrev pub attempt_row : Event → AttemptStatus → Option String → Readings → EventAttempt
attempt_row e status error r = record {
  id = r.attempt_id;
  event_id = e.id;
  attempt_number = r.attempt_num;
  worker_id = some r.worker.id;
  worker_name = some r.worker.worker_name;
  status = status;
  error_message = error;
  replay_of = none;
  started_at = r.started_at;
  finished_at = some r.finished_at;
  duration_ms = some (elapsed_ms r.finished_at r.started_at);
}

abbrev pub letter_row : Event → String → Readings → DeadLetter
letter_row e error r = record {
  id = r.letter_id;
  event_id = e.id;
  reason = Reason.max_attempts_exceeded;
  last_error = some error;
  created_at = r.letter_created_at;
  replayed_at = none;
  replay_status = none;
}

-- The object after a failure, but for its status.
abbrev pub counted_failure : Event → String → Readings → Event
counted_failure e error r = record e {
  attempt_count = e.attempt_count + 1;
  last_error = some error;
  updated_at = r.updated_at;
}

abbrev pub gives_up : Event → Bool
gives_up e = should_dead_letter (e.attempt_count + 1) e.max_attempts

abbrev pub dead_event : Event → String → Readings → Event
dead_event e error r = record (counted_failure e error r) { status = Status.dead_lettered }

abbrev pub retrying_event : Event → String → Readings → Event
retrying_event e error r = record (counted_failure e error r) {
  status = Status.retrying;
  next_retry_at = some r.retry_at;
}

abbrev pub succeeded_event : Event → Readings → Event
succeeded_event e r = record e { status = Status.succeeded; updated_at = r.updated_at }

module _ (p : Platform) where
  -- What the select gives: the object that the worker has, if it is of that row; with no row the worker
  -- has none any more.
  abbrev pub take_row : ℕ → Option Event → Crew p → Crew p
  take_row i none c = record c { held = hold i none c.held }
  take_row i (some row) c = record c { held = hold i (some (held_or p (c.held i) row)) c.held }

  unfoldable pub load_row : ℕ → ℕ → Crew p → Crew p
  load_row i id c = take_row i (head? (p.tables.select (is_event id) c.db.events)) c

  unfoldable pub mark_processing : ℕ → ℕ → Event → Crew p → Crew p
  mark_processing i updated e c = if is_final e.status then c else record c {
    db = flush p e (processing_event e updated) c.db;
    held = hold i (some (processing_event e updated)) c.held;
  }

  unfoldable pub commit_success : ℕ → Readings → Event → Crew p → Crew p
  commit_success i r e c = record c {
    db =
        flush p e (succeeded_event e r)
          (add_attempt p (attempt_row e AttemptStatus.succeeded none r) c.db);
    held = hold i (some (succeeded_event e r)) c.held;
  }

  unfoldable pub commit_failure : ℕ → String → Readings → Event → Crew p → Crew p
  commit_failure i error r e c =
      if gives_up e
      then record c {
        db = flush p e (dead_event e error r) (
            add_dead_letter p (letter_row e error r)
              (add_attempt p (attempt_row e AttemptStatus.failed (some error) r) c.db));
        held = hold i (some (dead_event e error r)) c.held;
      }
      else record c {
        db =
            flush p e (retrying_event e error r)
              (add_attempt p (attempt_row e AttemptStatus.failed (some error) r) c.db);
        held = hold i (some (retrying_event e error r)) c.held;
      }

  -- What worker `i` does with its object, if it has one.
  abbrev pub with_object : Option Event → (Event → Crew p → Crew p) → Crew p → Crew p
  with_object none f c = c
  with_object (some e) f c = f e c

  unfoldable pub perform : ℕ → CrewStep → Crew p → Crew p
  perform i (CrewStep.load id) c = load_row i id c
  perform i (CrewStep.mark updated) c = with_object (c.held i) (mark_processing i updated) c
  perform i (CrewStep.succeed r) c = with_object (c.held i) (commit_success i r) c
  perform i (CrewStep.fail error r) c = with_object (c.held i) (commit_failure i error r) c
  perform i CrewStep.restart c = record c { held = hold i none c.held }

  -- A schedule, from its first step on.
  unfoldable pub run_crew : List (ℕ × CrewStep) → Crew p → Crew p
  run_crew [] c = c
  run_crew ((i, turn) ∷ rest) c = run_crew rest (perform i turn c)
