-- ===== src/Worker/Failure.antt =====
-- What _handle_failure leaves behind, whether or not the call of Redis at its end raises.
use replay_forge.Base.{
  ℕ, ◌+◌, ◌*◌, ◌≡◌, ◌++◌, refl, true, [], ◌∷◌, none, some, arith, update_by, count_by,
  count_by-append, ◌==◌, if◌then◌else◌, Bool-cases, Option-cases, inl, inr,
}
use replay_forge.Models.{Status, AttemptStatus, Reason, DeadLetter, Event, EventAttempt, Worker}
use replay_forge.Service.World.{Platform, World, Result, ok, Error, error_text, save_event}
use replay_forge.Retry.{should_dead_letter}
use replay_forge.Retry.Bounds.{next_retry_delay_reads}
use replay_forge.Streams.{schedule_retry, publish_deadletter}
use replay_forge.Worker.{
  add_attempt, or_zero, elapsed_ms, handle_success, process_event_stub, handle_failure, give_up,
  plan_retry,
}

-- What one failure of the event has written, and how the step ended.
pub record Failed (p : Platform) (e : Event) (error : Error) (w : World p)
    (o : Result (Unit {0}) × World p) : Type 0 where
  pub after : Event
  pub attempt : EventAttempt
  pub id : after.id ≡ e.id
  pub counted : after.attempt_count ≡ e.attempt_count + 1
  pub limit : after.max_attempts ≡ e.max_attempts
  pub noted : after.last_error ≡ some (error_text error)
  pub status : after.status ≡ (
      if should_dead_letter (e.attempt_count + 1) e.max_attempts
      then Status.dead_lettered
      else Status.retrying)
  pub attempt_of : attempt.event_id ≡ e.id
  pub attempt_failed : attempt.status ≡ AttemptStatus.failed
  pub held : o.1.held ≡ some after
  pub events :
      p.tables.rows o.1.db.events
      ≡ update_by (λ r. r.id == e.id) (λ _. after) (p.tables.rows w.db.events)
  pub dead_letters :
      count_by (λ l. l.event_id == e.id) (p.tables.rows o.1.db.dead_letters)
      ≡ count_by (λ l. l.event_id == e.id) (p.tables.rows w.db.dead_letters)
        + (if should_dead_letter (e.attempt_count + 1) e.max_attempts then 1 else 0)
  pub attempts : p.tables.rows o.1.db.attempts ≡ p.tables.rows w.db.attempts ++ attempt ∷ []
  -- A retry that is in the table is in the sorted set too, unless Redis raised.
  pub scheduled :
      o.0 ≡ ok tt
      → after.status ≡ Status.retrying
      → (at : ℕ) × (after.next_retry_at ≡ some at) × (p.redis.score e.id o.1.redis ≡ some at)

-- The branch that schedules a retry writes the event and the attempt.
pub plan_retry_lem :
    (p : Platform) (e : Event) (a : EventAttempt) (w : World p)
    → let w' = (plan_retry p e a w).1 in
      (at : ℕ) × (w'.held ≡ some (record e { status = Status.retrying; next_retry_at = some at }))
      × (w'.db
          ≡ save_event p
              (record e { status = Status.retrying; next_retry_at = some at })
              (add_attempt p a w.db))
      × ((plan_retry p e a w).0 ≡ ok tt → p.redis.score e.id w'.redis ≡ some at)
unfolding plan_retry schedule_retry
plan_retry_lem p e a w =
    let (d, k, read) = next_retry_delay_reads p e.attempt_count true w in
    let at = p.clock k + 1000000 * or_zero d in
    (
      at,
      ground (arith, read),
      ground (arith, read),
      λ done. elim (Option-cases (p.redis.zadd e.id at w.redis)) [
        | inl failed ↦ absurd (ground (arith, read))
        | inr (r, added) ↦ ground (arith, read, p.redis.zadd-score e.id at w.redis added e.id)
      ],
    )

give_up_lem :
    (p : Platform) (e : Event) (a : EventAttempt) (w : World p)
    → let w' = (give_up p e a w).1 in
      (w'.held ≡ some (record e { status = Status.dead_lettered }))
      × (w'.db.events ≡ (save_event p (record e { status = Status.dead_lettered }) w.db).events)
      × (w'.db.attempts ≡ (add_attempt p a w.db).attempts)
      × ((l : DeadLetter) × (l.event_id ≡ e.id)
          × (w'.db.dead_letters ≡ p.tables.add l w.db.dead_letters))
unfolding give_up publish_deadletter
give_up_lem p e a w = (
  ground arith,
  ground arith,
  ground arith,
  (
    record {
      id = p.uuid4 w.tick;
      event_id = e.id;
      reason = Reason.max_attempts_exceeded;
      last_error = e.last_error;
      created_at = p.clock (w.tick + 1);
      replayed_at = none;
      replay_status = none;
    },
    refl,
    ground arith,
  ),
)

module _ (p : Platform) (e : Event) (worker : Worker) (n t : ℕ) (error : Error) (w : World p) where
  -- The event and the attempt that `_handle_failure` makes first.
  abbrev pub counted_event : Event
  counted_event = record e {
    attempt_count = e.attempt_count + 1;
    last_error = some (error_text error);
    updated_at = p.clock (w.tick + 1);
  }

  abbrev pub failed_attempt : EventAttempt
  failed_attempt = record {
    id = p.uuid4 (w.tick + 1 + 1);
    event_id = e.id;
    attempt_number = n;
    worker_id = some worker.id;
    worker_name = some worker.worker_name;
    status = AttemptStatus.failed;
    error_message = some (error_text error);
    replay_of = none;
    started_at = t;
    finished_at = some (p.clock w.tick);
    duration_ms = some (elapsed_ms (p.clock w.tick) t);
  }

  abbrev pub ready : World p
  ready = record w { tick = w.tick + 1 + 1 + 1 }

  -- A failure counts one more attempt of the event, notes the error, and records a failed attempt.
  -- The event is dead-lettered, with a new dead letter, if the attempts have reached the limit, and
  -- else it waits for a retry, which stands in the sorted set at the row's time if Redis raised
  -- nothing. All of this holds of the tables also where Redis raised.
  pub handle_failure-Failed : Failed p e error w (handle_failure p e worker n t error w)
  unfolding handle_failure
  handle_failure-Failed =
      elim (Bool-cases (should_dead_letter (e.attempt_count + 1) e.max_attempts)) [
        | inl dead ↦
            let (held, events, attempts, (l, of, letters)) =
              give_up_lem p counted_event failed_attempt ready in
            let step : handle_failure p e worker n t error w
                ≡ give_up p counted_event failed_attempt ready =
              ground arith in
            record {
              after = record counted_event { status = Status.dead_lettered };
              attempt = failed_attempt;
              id = refl;
              counted = refl;
              limit = refl;
              noted = refl;
              status = ground arith;
              attempt_of = refl;
              attempt_failed = refl;
              held = ground arith;
              events = rw (step, events, p.tables.rows-update);
              dead_letters =
                  rw (step, letters, p.tables.rows-add, dead, count_by-append) (ground arith);
              attempts = rw (step, attempts, p.tables.rows-add);
              scheduled = λ done r. absurd (cc);
            }
        | inr alive ↦
            let (at, held, db, scored) = plan_retry_lem p counted_event failed_attempt ready in
            let step : handle_failure p e worker n t error w
                ≡ plan_retry p counted_event failed_attempt ready =
              ground arith in
            record {
              after = record counted_event { status = Status.retrying; next_retry_at = some at };
              attempt = failed_attempt;
              id = refl;
              counted = refl;
              limit = refl;
              noted = refl;
              status = ground arith;
              attempt_of = refl;
              attempt_failed = refl;
              held = ground arith;
              events = rw (step, db, p.tables.rows-update);
              dead_letters = rw (step, db, alive) (omega arith);
              attempts = rw (step, db, p.tables.rows-add);
              scheduled = λ done r. (at, refl, rw step (scored (rw step at done)));
            }
      ]

-- What `_handle_success` leaves behind.
pub record Succeeded (p : Platform) (e : Event) (w w' : World p) : Type 0 where
  pub after : Event
  pub attempt : EventAttempt
  pub id : after.id ≡ e.id
  pub counted : after.attempt_count ≡ e.attempt_count
  pub limit : after.max_attempts ≡ e.max_attempts
  pub status : after.status ≡ Status.succeeded
  pub attempt_of : attempt.event_id ≡ e.id
  pub attempt_succeeded : attempt.status ≡ AttemptStatus.succeeded
  pub held : w'.held ≡ some after
  pub events :
      p.tables.rows w'.db.events
      ≡ update_by (λ r. r.id == e.id) (λ _. after) (p.tables.rows w.db.events)
  pub attempts : p.tables.rows w'.db.attempts ≡ p.tables.rows w.db.attempts ++ attempt ∷ []
  pub dead_letters : w'.db.dead_letters ≡ w.db.dead_letters
  pub redis : w'.redis ≡ w.redis

module _ (p : Platform) (e : Event) (worker : Worker) (n t : ℕ) (w : World p) where
  abbrev succeeded_attempt : EventAttempt
  succeeded_attempt = record {
    id = p.uuid4 (w.tick + 1 + 1);
    event_id = e.id;
    attempt_number = n;
    worker_id = some worker.id;
    worker_name = some worker.worker_name;
    status = AttemptStatus.succeeded;
    error_message = none;
    replay_of = none;
    started_at = t;
    finished_at = some (p.clock w.tick);
    duration_ms = some (elapsed_ms (p.clock w.tick) t);
  }

  pub handle_success-Succeeded : Succeeded p e w (handle_success p e worker n t w).1
  unfolding handle_success
  handle_success-Succeeded = record {
    after = record e { status = Status.succeeded; updated_at = p.clock (w.tick + 1) };
    attempt = succeeded_attempt;
    id = refl;
    counted = refl;
    limit = refl;
    status = refl;
    attempt_of = refl;
    attempt_succeeded = refl;
    held = refl;
    events = p.tables.rows-update _ _ _;
    attempts = p.tables.rows-add _ _;
    dead_letters = refl;
    redis = refl;
  }

pub process_event_stub_reads :
    (p : Platform) (e : Event) (w : World p) → (process_event_stub p e w).1 ≡ w
unfolding process_event_stub
process_event_stub_reads p e w = ground arith
