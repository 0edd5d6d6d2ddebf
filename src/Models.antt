-- ===== src/Models.antt =====
-- The tables of api/app/models.py: one record for each mapped class, with its columns. A UUID is a
-- number here (the code compares and prints it, nothing else), and a moment is a number of
-- microseconds.
mod Json
pub use Json.*
use replay_forge.Base.{
  ℕ, ◌≡◌, refl, String, Bool, true, false, ◌&&◌, Option, none, some, ◌==◌, str_eq, arith,
}

-- The values of the `status` column of an event, as the code writes and compares them.
pub data Status : Type 0 where
  received queued processing retrying succeeded dead_lettered failed cancelled : Status

-- The `status` column of an attempt, of a worker, and the `replay_status` of a dead letter.
pub data AttemptStatus : Type 0 where
  pending succeeded failed : AttemptStatus

pub data WorkerStatus : Type 0 where
  active busy stopped stale : WorkerStatus

pub data ReplayStatus : Type 0 where
  requeued publish_failed : ReplayStatus

-- Why an event is dead-lettered.
pub data Reason : Type 0 where
  max_attempts_exceeded : Reason

pub record Application : Type 0 where
  pub id : ℕ
  pub name : String
  pub created_at : ℕ

-- `max_attempts` is only compared with a count of attempts (`>=`), where a negative one acts as 0.
pub record Event : Type 0 where
  pub id : ℕ
  pub application_id : ℕ
  pub workflow_id : String
  pub event_type : String
  pub service_name : String
  pub idempotency_key : String
  pub status : Status
  pub payload_json : Fields
  pub metadata_json : Fields
  pub attempt_count : ℕ
  pub max_attempts : ℕ
  pub next_retry_at : Option ℕ
  pub last_error : Option String
  pub created_at : ℕ
  pub updated_at : ℕ

-- `replay_of` is the only key that the code writes into an attempt's `metadata_json`.
pub record EventAttempt : Type 0 where
  pub id : ℕ
  pub event_id : ℕ
  pub attempt_number : ℕ
  pub worker_id : Option ℕ
  pub worker_name : Option String
  pub status : AttemptStatus
  pub error_message : Option String
  pub replay_of : Option ℕ
  pub started_at : ℕ
  pub finished_at : Option ℕ
  pub duration_ms : Option ℤ

pub record DeadLetter : Type 0 where
  pub id : ℕ
  pub event_id : ℕ
  pub reason : Reason
  pub last_error : Option String
  pub created_at : ℕ
  pub replayed_at : Option ℕ
  pub replay_status : Option ReplayStatus

pub record Worker : Type 0 where
  pub id : ℕ
  pub worker_name : String
  pub status : WorkerStatus
  pub last_heartbeat_at : ℕ
  pub current_event_id : Option ℕ
  pub created_at : ℕ
  pub updated_at : ℕ

pub record IncidentSummary : Type 0 where
  pub id : ℕ
  pub workflow_id : String
  pub summary_text : String
  pub model_name : Option String
  pub created_at : ℕ

-- `uq_events_app_idempotency`: two rows with the same application and key conflict.
abbrev pub has_key : ℕ → String → Event → Bool
has_key app key e = (e.application_id == app) && str_eq e.idempotency_key key

-- `applications.name` is unique.
abbrev pub has_name : String → Application → Bool
has_name name a = str_eq a.name name

-- `Model.id == id`, in each table.
abbrev pub is_event : ℕ → Event → Bool
is_event id e = e.id == id

abbrev pub is_attempt_of : ℕ → EventAttempt → Bool
is_attempt_of id a = a.event_id == id

abbrev pub is_dead_letter : ℕ → DeadLetter → Bool
is_dead_letter id d = d.id == id

abbrev pub is_worker : ℕ → Worker → Bool
is_worker id w = w.id == id

-- `workers.worker_name` is unique.
abbrev pub has_worker_name : String → Worker → Bool
has_worker_name name w = str_eq w.worker_name name

-- Equality tests on the status columns.
abbrev pub status_eq : Status → Status → Bool
status_eq Status.received Status.received = true
status_eq Status.queued Status.queued = true
status_eq Status.processing Status.processing = true
status_eq Status.retrying Status.retrying = true
status_eq Status.succeeded Status.succeeded = true
status_eq Status.dead_lettered Status.dead_lettered = true
status_eq Status.failed Status.failed = true
status_eq Status.cancelled Status.cancelled = true
status_eq _ _ = false

-- `Worker.status.in_(["active", "busy"])`
abbrev pub is_working : WorkerStatus → Bool
is_working WorkerStatus.active = true
is_working WorkerStatus.busy = true
is_working _ = false

pub status_eq_refl : (s : Status) → status_eq s s ≡ true
status_eq_refl Status.received = refl
status_eq_refl Status.queued = refl
status_eq_refl Status.processing = refl
status_eq_refl Status.retrying = refl
status_eq_refl Status.succeeded = refl
status_eq_refl Status.dead_lettered = refl
status_eq_refl Status.failed = refl
status_eq_refl Status.cancelled = refl

pub status_eq_sound : (a b : Status) → status_eq a b ≡ true → a ≡ b
status_eq_sound Status.received b h = ground arith
status_eq_sound Status.queued b h = ground arith
status_eq_sound Status.processing b h = ground arith
status_eq_sound Status.retrying b h = ground arith
status_eq_sound Status.succeeded b h = ground arith
status_eq_sound Status.dead_lettered b h = ground arith
status_eq_sound Status.failed b h = ground arith
status_eq_sound Status.cancelled b h = ground arith
