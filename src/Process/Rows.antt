-- ===== src/Process/Rows.antt =====
-- The messages leave the table of workers alone.
use replay_forge.Base.{
  ℕ, ◌+◌, ◌≡◌, Bool, true, false, List, [], ◌∷◌, Option, none, some, arith, Option-cases, inl, inr,
  find_by, Bool-cases,
}
use replay_forge.Models.{Event, EventAttempt, Worker, is_event}
use replay_forge.Service.Redis.{Stream}
use replay_forge.Service.World.{Platform, World, Step, Error, catch, skip, call_redis, held_or}
use replay_forge.Service.Hoare.{Preserves, Preserves-bind, Preserves-if, takes-catch}
use replay_forge.Retry.{should_dead_letter}
use replay_forge.Streams.{publish_deadletter}
use replay_forge.Worker.{
  process_event_stub, handle_success, give_up, plan_retry, handle_failure, try_block, attempt_event,
  handle_message, handle_messages, is_final,
}
use replay_forge.Worker.Failure.{process_event_stub_reads, plan_retry_lem}
use replay_forge.Worker.Dispatch.{handle_message_missing, handle_message_final, handle_message_open}
use replay_forge.Process.{
  Consumer, Turn, Batch, claim, read_group, reclaim_orphans, handle_batches, consume,
}

-- The table of workers is `t`.
pub record HasWorkers {p : Platform} (t : p.tables.Table Worker) (w : World p) : Type 0 where
  pub same : w.db.workers ≡ t

module _ (p : Platform) (t : p.tables.Table Worker) where
  abbrev pub Same : World p → Type 0
  Same = HasWorkers {p = p} t

  call_redis-HasWorkers :
      (f : p.redis.Server → Option p.redis.Server) → Preserves Same (call_redis p f)
  call_redis-HasWorkers f = record { run = λ w h. record { same = ground (arith, h.same) } }

  catch-HasWorkers :
      {A : Type 0} (m : Step p A) (h : Error → Step p A)
      → Preserves Same m
      → ((e : Error) → Preserves Same (h e))
      → Preserves Same (catch m h)
  catch-HasWorkers m h hm hh = record {
    run = takes-catch {Q = Same} m h (λ _ q. q) hm.run (λ e. (hh e).run);
  }

  process_event_stub-HasWorkers : (e : Event) → Preserves Same (process_event_stub p e)
  process_event_stub-HasWorkers e = record { run = λ w h. rw (process_event_stub_reads p e w) h }

  handle_success-HasWorkers :
      (e : Event) (worker : Worker) (n s : ℕ) → Preserves Same (handle_success p e worker n s)
  unfolding handle_success
  handle_success-HasWorkers e worker n s = record { run = λ w h. record { same = h.same } }

  give_up-HasWorkers : (e : Event) (a : EventAttempt) → Preserves Same (give_up p e a)
  unfolding give_up publish_deadletter
  give_up-HasWorkers e a = record { run = λ w h. record { same = ground (arith, h.same) } }

  plan_retry-HasWorkers : (e : Event) (a : EventAttempt) → Preserves Same (plan_retry p e a)
  plan_retry-HasWorkers e a = record {
    run = λ w h.
        let (at, held, tables, scored) = plan_retry_lem p e a w in
        record { same = rw tables h.same };
  }

  handle_failure-HasWorkers :
      (e : Event) (worker : Worker) (n s : ℕ) (error : Error)
      → Preserves Same (handle_failure p e worker n s error)
  unfolding handle_failure
  handle_failure-HasWorkers e worker n s error = record {
    run = λ w h.
        (Preserves-if (should_dead_letter (e.attempt_count + 1) e.max_attempts)
            (give_up-HasWorkers _ _) (plan_retry-HasWorkers _ _)).run
          _ (record { same = h.same });
  }

  try_block-HasWorkers :
      (worker : Worker) (s : Stream) (msg_id : ℕ) (e : Event) (n started : ℕ)
      → Preserves Same (try_block p worker s msg_id e n started)
  unfolding try_block
  try_block-HasWorkers worker s msg_id e n started =
      let ack = call_redis-HasWorkers (p.redis.xack s msg_id) in
      catch-HasWorkers _ _
        (Preserves-bind (process_event_stub-HasWorkers e)
          (λ _. Preserves-bind (handle_success-HasWorkers e worker n started) (λ _. ack)))
        (λ error. Preserves-bind (handle_failure-HasWorkers e worker n started error) (λ _. ack))

  attempt_event-HasWorkers :
      (worker : Worker) (s : Stream) (msg_id : ℕ) (e : Event)
      → Preserves Same (attempt_event p worker s msg_id e)
  unfolding attempt_event
  attempt_event-HasWorkers worker s msg_id e = record {
    run = λ w h.
        let after = (try_block-HasWorkers worker s msg_id _ _ _).run _ (record { same = h.same }) in
        record { same = after.same };
  }

  pub handle_message-HasWorkers :
      (worker : Worker) (s : Stream) (msg_id : ℕ) (event_id : Option ℕ)
      → Preserves Same (handle_message p worker s msg_id event_id)
  unfolding handle_message
  handle_message-HasWorkers worker s msg_id none = call_redis-HasWorkers (p.redis.xack s msg_id)
  handle_message-HasWorkers worker s msg_id (some id) = record {
    run = λ w h. elim (Option-cases (find_by (is_event id) (p.tables.rows w.db.events))) [
      | inl missing ↦ rw (handle_message_missing p worker s msg_id id w missing) (
          (call_redis-HasWorkers (p.redis.xack s msg_id)).run (record w { held = none })
            (record { same = h.same }))
      | inr (row, found) ↦
          let v = record w { held = some (held_or p w.held row) } in
          let kept : Same v = record { same = h.same } in
          elim (Bool-cases (is_final (held_or p w.held row).status)) [
            | inl final ↦
                rw (handle_message_final p worker s msg_id id w row found final)
                  ((call_redis-HasWorkers (p.redis.xack s msg_id)).run v kept)
            | inr open_event ↦
                rw (handle_message_open p worker s msg_id id w row found open_event)
                  ((attempt_event-HasWorkers worker s msg_id (held_or p w.held row)).run v kept)
          ]
    ];
  }

  skip-HasWorkers : Preserves Same skip
  skip-HasWorkers = record { run = λ w h. h }

  handle_messages-HasWorkers :
      (worker : Worker) (s : Stream) (msgs : List (ℕ × Option ℕ))
      → Preserves Same (handle_messages p worker s msgs)
  unfolding handle_messages
  handle_messages-HasWorkers worker s [] = skip-HasWorkers
  handle_messages-HasWorkers worker s ((msg_id, event_id) ∷ rest) =
      Preserves-bind (handle_message-HasWorkers worker s msg_id event_id)
        (λ _. handle_messages-HasWorkers worker s rest)

  handle_batches-HasWorkers :
      (worker : Worker) (batches : List Batch) → Preserves Same (handle_batches p worker batches)
  unfolding handle_batches
  handle_batches-HasWorkers worker [] = skip-HasWorkers
  handle_batches-HasWorkers worker (b ∷ rest) = stopping b.halted (
      Preserves-bind (handle_messages-HasWorkers worker b.stream b.messages)
        (λ _. handle_batches-HasWorkers worker rest))
    where
      stopping :
          (halted : Bool) {m : Step p (Unit {0})}
          → Preserves Same m
          → Preserves Same (elim halted as (λ _. Step p (Unit {0})) [ true ↦ skip | false ↦ m ])
      stopping true hm = skip-HasWorkers
      stopping false hm = hm

  read_group-HasWorkers : (turn : Turn p.redis) → Preserves Same (read_group p turn)
  read_group-HasWorkers turn = record { run = λ w h. record { same = ground (arith, h.same) } }

  -- However the turns go, and whether or not the loop ends with a raise.
  pub consume-HasWorkers :
      (worker : Worker) (turns : List (Turn p.redis)) → Preserves Same (consume p worker turns)
  unfolding consume
  consume-HasWorkers worker [] = skip-HasWorkers
  consume-HasWorkers worker (turn ∷ turns) =
      Preserves-bind
        (Preserves-bind (read_group-HasWorkers turn)
          (λ batches. handle_batches-HasWorkers worker batches))
        (λ _. consume-HasWorkers worker turns)

  claim-HasWorkers : (c : Consumer p.redis) (s : Stream) → Preserves Same (claim p c s)
  claim-HasWorkers c s = record { run = λ w h. record { same = ground (arith, h.same) } }

  pub reclaim_orphans-HasWorkers :
      (c : Consumer p.redis) (streams : List Stream) → Preserves Same (reclaim_orphans p c streams)
  unfolding reclaim_orphans
  reclaim_orphans-HasWorkers c [] = skip-HasWorkers
  reclaim_orphans-HasWorkers c (s ∷ streams) =
      Preserves-bind (claim-HasWorkers c s) (λ _. reclaim_orphans-HasWorkers c streams)
