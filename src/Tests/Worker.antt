-- ===== src/Tests/Worker.antt =====
-- Runs of the worker, and its theorems at concrete inputs.
use replay_forge.Base.{ℕ, ◌≡◌, refl, true, false, inr, [], ◌∷◌, some, arith, find_by}
use replay_forge.Models.{Status, Event, is_event}
use replay_forge.Service.Redis.{Stream}
use replay_forge.Service.World.{World, Error, load_event}
use replay_forge.Retry.{base_delay, next_retry_delay, should_dead_letter}
use replay_forge.Streams.{publish_incoming, publish_deadletter, schedule_retry}
use replay_forge.Demo.{should_crash, should_fail_event}
use replay_forge.Accounting.{IsCounted}
use replay_forge.Worker.{
  process_event_stub, handle_success, give_up, plan_retry, handle_failure, try_block, attempt_event,
  handle_message, handle_messages,
}
use replay_forge.Worker.Counting.{handle_messages-IsCounted}
use replay_forge.Worker.Outcome.{IsAcked, handle_message-IsAcked}
use replay_forge.Worker.Settled.{IsSettled, handle_message-IsSettled}
use replay_forge.Worker.Drained.{deliveries, handle_messages-final}
use replay_forge.Worker.AckFailure.{IsCountedAsFailure, ack_failure_after_success}
use replay_forge.Worker.Failure.{Failed, handle_failure-Failed}
use replay_forge.Worker.{is_final}
use replay_forge.Worker.Refines.{handle_messages-Reach}
use replay_forge.Lifecycle.{life, Reach, IsOver}
use replay_forge.Tests.Services.{platform}
use replay_forge.Tests.Data.{fresh, doomed, server, worker, world}

-- All that a run of the worker computes with.
program : Unit {0}
unfolding base_delay next_retry_delay should_dead_letter publish_incoming publish_deadletter
    schedule_retry should_crash should_fail_event process_event_stub handle_success give_up
    plan_retry handle_failure try_block attempt_event handle_message handle_messages load_event
program = tt

-- A fresh event succeeds at the first delivery; one that always fails is tried three times and then
-- dead-lettered, and a fourth delivery changes nothing.
fresh_succeeds :
    find_by
      (is_event 7)
      (handle_messages platform worker Stream.incoming
        (deliveries 7 (1 ∷ []))
        (world fresh)).1.db.events
    ≡ some (record fresh { status = Status.succeeded; updated_at = 3000000 })
unfolding program
fresh_succeeds = refl

handle_messages-IsCounted_example :
    IsCounted
      (handle_messages platform worker Stream.incoming (deliveries 7 (1 ∷ 2 ∷ [])) (world doomed)).1
handle_messages-IsCounted_example =
    handle_messages-IsCounted platform worker Stream.incoming (deliveries 7 (1 ∷ 2 ∷ []))
      (world doomed) (record { each = (refl, tt); held = tt })

handle_message-IsAcked_example :
    IsAcked platform Stream.incoming 1
      (handle_message platform worker Stream.incoming 1 (some 7) (world doomed)).1
unfolding program
handle_message-IsAcked_example =
    handle_message-IsAcked platform Stream.incoming 1 worker (some 7) (world doomed) refl

handle_message-IsSettled_example :
    IsSettled 7 0 3 (handle_message platform worker Stream.incoming 1 (some 7) (world doomed)).1
unfolding program
handle_message-IsSettled_example =
    handle_message-IsSettled platform worker Stream.incoming 1 7 (world doomed) doomed refl refl
      refl

handle_messages-final_example :
    (after : Event) × (find_by
        (is_event 7)
        (handle_messages platform worker Stream.incoming
          (deliveries 7 (1 ∷ 2 ∷ 3 ∷ []))
          (world doomed)).1.db.events
      ≡ some after)
    × (is_final after.status ≡ true)
unfolding program
handle_messages-final_example =
    handle_messages-final platform worker Stream.incoming 7 (1 ∷ 2 ∷ 3 ∷ []) doomed (world doomed)
      (record { found = refl; fresh = refl }) (inr (omega arith, omega arith)) refl

-- The world whose Redis refuses acknowledgements.
abbrev unacking : World platform
unacking = record (world fresh) { redis = record server { acks = false } }

ack_failure_after_success_example :
    IsCountedAsFailure platform worker Stream.incoming 1 7 0 0
      (handle_message platform worker Stream.incoming 1 (some 7) unacking).1
unfolding program
ack_failure_after_success_example =
    ack_failure_after_success platform worker Stream.incoming 1 7 unacking fresh refl refl refl refl

handle_failure-Failed_example :
    Failed platform fresh
      (Error.worker_crash "crash")
      (world fresh)
      (handle_failure platform fresh worker 1 0 (Error.worker_crash "crash") (world fresh))
handle_failure-Failed_example =
    handle_failure-Failed platform fresh worker 1 0 (Error.worker_crash "crash") (world fresh)

-- An event that always fails is tried three times.
handle_messages-Reach_example :
    let w' =
      (handle_messages platform worker Stream.incoming
        (deliveries 7 (1 ∷ 2 ∷ 3 ∷ []))
        (world doomed)).1 in
    ((k : ℕ) (row : Event)
      → find_by (is_event k) (doomed ∷ []) ≡ some row
      → (now : Event) × (find_by (is_event k) w'.db.events ≡ some now)
        × Reach (life row) (life now)
        × (IsOver row.status → life now ≡ life row))
    × ((e : Event) → w'.held ≡ some e → find_by (is_event e.id) w'.db.events ≡ some e)
handle_messages-Reach_example =
    handle_messages-Reach platform worker Stream.incoming (deliveries 7 (1 ∷ 2 ∷ 3 ∷ []))
      (world doomed) (λ e h. cc)
