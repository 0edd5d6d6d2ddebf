-- ===== src/Tests/Data.antt =====
-- Rows and worlds for the tests.
use replay_forge.Base.{ℕ, true, [], ◌∷◌, none, some}
use replay_forge.Models.{
  Status, AttemptStatus, WorkerStatus, Reason, Event, EventAttempt, DeadLetter, Worker, end, field,
  bool,
}
use replay_forge.Service.World.{World}
use replay_forge.Tests.Services.{platform, Fake}

-- A new event with three attempts, queued.
abbrev pub fresh : Event
fresh = record {
  id = 7;
  application_id = 1;
  workflow_id = "checkout_1";
  event_type = "payment.authorized";
  service_name = "payment-service";
  idempotency_key = "checkout_1_payment.authorized";
  status = Status.queued;
  payload_json = end;
  metadata_json = end;
  attempt_count = 0;
  max_attempts = 3;
  next_retry_at = none;
  last_error = none;
  created_at = 0;
  updated_at = 0;
}

-- An event that fails at each attempt.
abbrev pub doomed : Event
doomed = record fresh { payload_json = field "_force_fail" (bool true) end }

-- The same event, out of attempts, with its three failed attempts.
abbrev pub dead : Event
dead = record fresh {
  status = Status.dead_lettered;
  attempt_count = 3;
  last_error = some "timeout";
}

abbrev pub failed_attempt : ℕ → EventAttempt
failed_attempt n = record {
  id = n;
  event_id = 7;
  attempt_number = n;
  worker_id = some 1;
  worker_name = some "worker-a";
  status = AttemptStatus.failed;
  error_message = some "timeout";
  replay_of = none;
  started_at = 0;
  finished_at = some 0;
  duration_ms = none;
}

abbrev pub letter : DeadLetter
letter = record {
  id = 21;
  event_id = 7;
  reason = Reason.max_attempts_exceeded;
  last_error = some "timeout";
  created_at = 0;
  replayed_at = none;
  replay_status = none;
}

abbrev pub worker : Worker
worker = record {
  id = 1;
  worker_name = "worker-a";
  status = WorkerStatus.active;
  last_heartbeat_at = 0;
  current_event_id = none;
  created_at = 0;
  updated_at = 0;
}

abbrev pub server : Fake
server = record {
  log = λ s. [];
  waiting = λ s id. true;
  members = [];
  scores = λ k. none;
  up = true;
  acks = true;
}

-- A worker's world with one event, and no attempt yet.
abbrev pub world : Event → World platform
world e = record {
  db = record {
    applications = [];
    events = e ∷ [];
    attempts = [];
    dead_letters = [];
    workers = worker ∷ [];
    incident_summaries = [];
  };
  redis = server;
  tick = 0;
  heartbeat_event = none;
  held = none;
}

-- The world where the event is dead-lettered, and still held by the worker's session.
abbrev pub dead_world : World platform
dead_world = record {
  db = record {
    applications = [];
    events = dead ∷ [];
    attempts = failed_attempt 1 ∷ failed_attempt 2 ∷ failed_attempt 3 ∷ [];
    dead_letters = letter ∷ [];
    workers = worker ∷ [];
    incident_summaries = [];
  };
  redis = server;
  tick = 0;
  heartbeat_event = none;
  held = some dead;
}
