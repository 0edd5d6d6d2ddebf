-- ===== src/Worker.antt =====
-- api/app/workers/worker.py: how one message of a stream is processed, step by step.
use replay_forge.Base.{
  ℕ, zero, suc, ◌+◌, ◌-◌, ◌*◌, ◌/◌, String, Bool, true, false, List, [], ◌∷◌, Option, none, some,
  leb, ◌==◌, if◌then◌else◌, head?,
}
pub mod Failure
pub mod Counting
pub mod Dispatch
pub mod Outcome
pub mod Settled
pub mod Drained
pub mod AckFailure
pub mod Refines
use Prim.Native.String.{◌++◌ as str_append}
use replay_forge.Models.{
  Status, AttemptStatus, Reason, Event, EventAttempt, DeadLetter, Worker, ℤ, pos, negsuc, truthy,
  get, is_event,
}
use replay_forge.Service.Tables.{Db}
use replay_forge.Service.Redis.{Stream}
use replay_forge.Service.World.{
  Platform, World, save_event, Step, Error, error_text, ◌>>=◌, ◌>>◌, pure, throw, catch, finally,
  skip, now, fresh_id, commit_event, load_event, call_redis, set_heartbeat,
}
use replay_forge.Demo.{should_crash, should_fail_event}
use replay_forge.Retry.{next_retry_delay, should_dead_letter}
use replay_forge.Streams.{publish_deadletter, schedule_retry}

-- -n / 1000, towards zero
abbrev neg_ms : ℕ → ℤ
neg_ms zero = pos zero
neg_ms (suc n) = negsuc n

-- `int((finished - started_at).total_seconds() * 1000)`
unfoldable pub elapsed_ms : ℕ → ℕ → ℤ
elapsed_ms finished started =
    if leb started finished
    then pos ((finished - started) / 1000)
    else neg_ms ((started - finished) / 1000)

-- A new row of `event_attempts`.
abbrev pub add_attempt : (p : Platform) → EventAttempt → Db p.tables → Db p.tables
add_attempt p a d = record d { attempts = p.tables.add a d.attempts }

abbrev pub add_dead_letter : (p : Platform) → DeadLetter → Db p.tables → Db p.tables
add_dead_letter p l d = record d { dead_letters = p.tables.add l d.dead_letters }

-- The statuses at which a message is acknowledged and not processed.
abbrev pub is_final : Status → Bool
is_final Status.succeeded = true
is_final Status.dead_lettered = true
is_final Status.cancelled = true
is_final _ = false

-- `process_event_stub`, less the sleep.
unfoldable pub process_event_stub : (p : Platform) → Event → Step p (Unit {0})
process_event_stub p e =
    if truthy (get "_force_fail" e.payload_json)
    then throw (Error.simulated_failure "forced failure via _force_fail flag")
    else if should_crash p e.id e.attempt_count
    then throw (Error.worker_crash "simulated worker crash")
    else if should_fail_event p e.id e.event_type e.attempt_count
    then throw (Error.simulated_failure (str_append e.event_type " failed (simulated)"))
    else skip

-- `_handle_success`
unfoldable pub handle_success : (p : Platform) → Event → Worker → ℕ → ℕ → Step p (Unit {0})
unfolding elapsed_ms
handle_success p e worker attempt_num started_at = do
  finished ← now p
  updated ← now p
  id ← fresh_id p
  commit_event p (record e { status = Status.succeeded; updated_at = updated })
      (add_attempt p (record {
        id = id;
        event_id = e.id;
        attempt_number = attempt_num;
        worker_id = some worker.id;
        worker_name = some worker.worker_name;
        status = AttemptStatus.succeeded;
        error_message = none;
        replay_of = none;
        started_at = started_at;
        finished_at = some finished;
        duration_ms = some (elapsed_ms finished started_at);
      }))

-- The first branch of `_handle_failure`. `e` and `a` are the event and the attempt so far.
unfoldable pub give_up : (p : Platform) → Event → EventAttempt → Step p (Unit {0})
give_up p e a = do
  id ← fresh_id p
  created ← now p
  commit_event p (record e { status = Status.dead_lettered })
      (λ d.
        add_dead_letter p
          (record {
            id = id;
            event_id = e.id;
            reason = Reason.max_attempts_exceeded;
            last_error = e.last_error;
            created_at = created;
            replayed_at = none;
            replay_status = none;
          })
          (add_attempt p a d))
  publish_deadletter p e.id Reason.max_attempts_exceeded

-- `delay or 0`
abbrev pub or_zero : Option ℕ → ℕ
or_zero none = 0
or_zero (some delay) = delay

-- The second branch: `retry_at` is `delay` seconds from now.
unfoldable pub plan_retry : (p : Platform) → Event → EventAttempt → Step p (Unit {0})
plan_retry p e a = do
  delay ← next_retry_delay p e.attempt_count true
  read ← now p
  let retry_at = read + 1000000 * or_zero delay
  commit_event p (record e { status = Status.retrying; next_retry_at = some retry_at })
      (add_attempt p a)
  schedule_retry p e.id retry_at

-- `_handle_failure`. Where it follows a success, that changed the object's status and update time
-- only, and both are written again here.
unfoldable pub handle_failure : (p : Platform) → Event → Worker → ℕ → ℕ → Error → Step p (Unit {0})
unfolding elapsed_ms
handle_failure p e worker attempt_num started_at error = do
  finished ← now p
  updated ← now p
  id ← fresh_id p
  let e1 = record e {
    attempt_count = e.attempt_count + 1;
    last_error = some (error_text error);
    updated_at = updated;
  }
  let attempt : EventAttempt = record {
    id = id;
    event_id = e.id;
    attempt_number = attempt_num;
    worker_id = some worker.id;
    worker_name = some worker.worker_name;
    status = AttemptStatus.failed;
    error_message = some (error_text error);
    replay_of = none;
    started_at = started_at;
    finished_at = some finished;
    duration_ms = some (elapsed_ms finished started_at);
  }
  if should_dead_letter e1.attempt_count e1.max_attempts
      then give_up p e1 attempt
      else plan_retry p e1 attempt

-- The `try` block with its handlers; both do the same, but for the log.
unfoldable pub try_block : (p : Platform) → Worker → Stream → ℕ → Event → ℕ → ℕ → Step p (Unit {0})
try_block p worker s msg_id e attempt_num started_at =
    catch
      (do
        process_event_stub p e
        handle_success p e worker attempt_num started_at
        call_redis p (p.redis.xack s msg_id))
      (λ error. do
        handle_failure p e worker attempt_num started_at error
        call_redis p (p.redis.xack s msg_id))

-- The event as it is marked before the attempt.
abbrev pub processing_event : Event → ℕ → Event
processing_event e updated = record e { status = Status.processing; updated_at = updated }

-- The world in which the `try` block starts.
abbrev pub marked : (p : Platform) → Event → World p → World p
marked p e w = record w {
  db = save_event p (processing_event e (p.clock (w.tick + 1))) w.db;
  tick = w.tick + 1 + 1;
  heartbeat_event = some e.id;
  held = some (processing_event e (p.clock (w.tick + 1)));
}

-- One attempt at an event that is not final, from the mark to the `finally`.
unfoldable pub attempt_event : (p : Platform) → Worker → Stream → ℕ → Event → Step p (Unit {0})
attempt_event p worker s msg_id e = do
  started_at ← now p
  updated ← now p
  commit_event p (processing_event e updated) (λ d. d)
  set_heartbeat p (some e.id)
  finally
      (try_block p worker s msg_id (processing_event e updated) (e.attempt_count + 1) started_at)
      (set_heartbeat p none)

-- The body of the inner loop, for the message `msg_id` of the stream `s` with its `event_id` field.
unfoldable pub handle_message : (p : Platform) → Worker → Stream → ℕ → Option ℕ → Step p (Unit {0})
handle_message p worker s msg_id none = call_redis p (p.redis.xack s msg_id)
handle_message p worker s msg_id (some event_id) = do
  found ← load_event p event_id
  elim found [
    | none ↦ call_redis p (p.redis.xack s msg_id)
    | some e ↦
        if is_final e.status
        then call_redis p (p.redis.xack s msg_id)
        else attempt_event p worker s msg_id e
  ]

-- The messages of one stream's batch, in order. A raise ends the loop.
unfoldable pub handle_messages :
    (p : Platform) → Worker → Stream → List (ℕ × Option ℕ) → Step p (Unit {0})
handle_messages p worker s [] = skip
handle_messages p worker s ((msg_id, event_id) ∷ rest) = do
  handle_message p worker s msg_id event_id
  handle_messages p worker s rest
