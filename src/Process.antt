-- ===== src/Process.antt =====
-- api/app/workers/worker.py: the worker process, from its registration to its end.
pub mod Rows
pub mod Ended
pub mod Swept
use replay_forge.Base.{
  ℕ, ◌+◌, ◌*◌, String, Bool, true, false, ◌&&◌, List, [], ◌∷◌, Option, none, some, ltb, ◌==◌, head?,
  count_by,
}
use replay_forge.Models.{WorkerStatus, EventAttempt, Worker, is_worker, has_worker_name}
use replay_forge.Service.Tables.{Db}
use replay_forge.Service.Redis.{Redis, Stream}
use replay_forge.Service.World.{
  Platform, World, Step, Result, ok, raise, Error, ◌>>=◌, ◌>>◌, pure, throw, catch, finally, skip,
  now, fresh_id, get_db, commit,
}
use replay_forge.Heartbeat.{mark_worker_stopped}
use replay_forge.Worker.{handle_messages}

-- How `xgroup_create` ends: done, or with a `ResponseError` that names BUSYGROUP, or with another.
pub data GroupReply (r : Redis) : Type 0 where
  created : r.Server → GroupReply r
  busy_group failed : GroupReply r

-- One stream's part of what `xreadgroup` returns. `halted` is whether the shutdown flag is set when
-- the loop comes to it.
pub record Batch : Type 0 where
  pub halted : Bool
  pub stream : Stream
  pub messages : List (ℕ × Option ℕ)

-- The calls of a run that are not in Redis, `xautoclaim` with the number of entries that it claims.
pub record Consumer (r : Redis) : Type 0 where
  pub xgroup_create : Stream → r.Server → GroupReply r
  pub xautoclaim : Stream → r.Server → Option (ℕ × r.Server)

-- One turn of the outer loop: what its `xreadgroup` gives, `none` where it raises. The flag is set
-- after the last turn of a run.
abbrev pub Turn : Redis → Type 0
Turn r = r.Server → Option (List Batch × r.Server)

module _ (p : Platform) where
  -- `ensure_consumer_group` of api/app/core/redis_streams.py
  unfoldable pub ensure_consumer_group : Consumer p.redis → Stream → Step p (Unit {0})
  ensure_consumer_group consumer stream w = elim (consumer.xgroup_create stream w.redis) [
    | created r ↦ (ok tt, record w { redis = r })
    | busy_group ↦ (ok tt, w)
    | failed ↦ (raise (Error.redis_error p.redis_message), w)
  ]

  abbrev pub refreshed : ℕ → ℕ → Worker → Worker
  refreshed read updated existing = record existing {
    status = WorkerStatus.active;
    last_heartbeat_at = read;
    current_event_id = none;
    updated_at = updated;
  }

  unfoldable pub refresh_worker : Worker → Step p Worker
  refresh_worker existing = do
    read ← now p
    updated ← now p
    commit p (λ d. record d {
      workers = p.tables.update (is_worker existing.id) (refreshed read updated) d.workers;
    })
    pure (refreshed read updated existing)

  -- The commit of a new row, whose name has to be free.
  abbrev pub insert_worker : Worker → Step p Worker
  insert_worker new w =
      elim (p.tables.add_unique (has_worker_name new.worker_name) new w.db.workers) [
        | none ↦ (raise Error.integrity_error, w)
        | some t ↦ (ok new, record w { db = record w.db { workers = t } })
      ]

  unfoldable pub create_worker : String → Step p Worker
  create_worker worker_name = do
    id ← fresh_id p
    read ← now p
    made ← now p
    updated ← now p
    insert_worker (record {
      id = id;
      worker_name = worker_name;
      status = WorkerStatus.active;
      last_heartbeat_at = read;
      current_event_id = none;
      created_at = made;
      updated_at = updated;
    })

  -- `_register_worker`
  unfoldable pub register_worker : String → Step p Worker
  register_worker worker_name = do
    db ← get_db p
    elim (head? (p.tables.select (has_worker_name worker_name) db.workers)) [
      | some existing ↦ refresh_worker existing
      | none ↦ create_worker worker_name
    ]

  -- `Worker.last_heartbeat_at < cutoff`, where the cutoff is five minutes before `read`
  abbrev pub is_gone : ℕ → Worker → Bool
  is_gone read w = ltb (w.last_heartbeat_at + 1000000 * (60 * 5)) read

  -- `ondelete="SET NULL"` of `event_attempts.worker_id`: it falls to `none` where that worker goes.
  abbrev pub names_gone : ℕ → List Worker → Option ℕ → Bool
  names_gone read ws none = false
  names_gone read ws (some id) = ltb 0 (count_by (λ (w : Worker). is_gone read w && w.id == id) ws)

  abbrev pub clear_worker : EventAttempt → EventAttempt
  clear_worker a = record a { worker_id = none }

  -- `_gc_stale_workers`
  unfoldable pub gc_stale_workers : Step p ℕ
  gc_stale_workers = do
    read ← now p
    before ← get_db p
    commit p (λ d. record d {
      workers = p.tables.delete (is_gone read) d.workers;
      attempts =
          p.tables.update
            (λ (a : EventAttempt). names_gone read (p.tables.rows d.workers) a.worker_id)
            clear_worker d.attempts;
    })
    pure (count_by (is_gone read) (p.tables.rows before.workers))

  -- `_reclaim_orphans`: the claimed entries are counted for the log, and errors are passed over.
  abbrev pub claim : Consumer p.redis → Stream → Step p (Unit {0})
  claim consumer stream w = elim (consumer.xautoclaim stream w.redis) [
    | none ↦ (ok tt, w)
    | some (n, r) ↦ (ok tt, record w { redis = r })
  ]

  unfoldable pub reclaim_orphans : Consumer p.redis → List Stream → Step p (Unit {0})
  reclaim_orphans consumer [] = skip
  reclaim_orphans consumer (s ∷ streams) = claim consumer s >> reclaim_orphans consumer streams

  -- The loop over the streams of one read: it breaks off when the flag is set.
  unfoldable pub handle_batches : Worker → List Batch → Step p (Unit {0})
  handle_batches worker [] = skip
  handle_batches worker (b ∷ rest) = elim b.halted [
    | true ↦ skip
    | false ↦ handle_messages p worker b.stream b.messages >> handle_batches worker rest
  ]

  -- A read that raises is logged, and the loop goes on.
  abbrev pub read_group : Turn p.redis → Step p (List Batch)
  read_group turn w = elim (turn w.redis) [
    | none ↦ (ok [], w)
    | some (batches, r) ↦ (ok batches, record w { redis = r })
  ]

  unfoldable pub consume : Worker → List (Turn p.redis) → Step p (Unit {0})
  consume worker [] = skip
  consume worker (turn ∷ turns) =
      (read_group turn >>= handle_batches worker) >> consume worker turns

  -- The outer `finally`.
  abbrev pub stop_worker : Worker → Step p (Unit {0})
  stop_worker worker = catch (mark_worker_stopped p worker.id) (λ error. skip)

  -- What follows the registration: the reclaim, and the loop with its `finally`.
  unfoldable pub serve : Consumer p.redis → List (Turn p.redis) → Worker → Step p (Unit {0})
  serve consumer turns worker = do
    reclaim_orphans consumer (Stream.incoming ∷ Stream.retry ∷ [])
    finally (consume worker turns) (stop_worker worker)

  -- `run` from the session's opening on.
  unfoldable pub launch : Consumer p.redis → String → List (Turn p.redis) → Step p (Unit {0})
  launch consumer worker_name turns = do
    gone ← gc_stale_workers
    worker ← register_worker worker_name
    serve consumer turns worker

  -- The main thread of `run` in a process with this name, whose loop makes these turns before the flag
  -- is set. The threads of the heartbeat and of the retry scheduler, which it starts and tells to stop,
  -- are not in it.
  unfoldable pub run : Consumer p.redis → String → List (Turn p.redis) → Step p (Unit {0})
  run consumer worker_name turns = do
    ensure_consumer_group consumer Stream.incoming
    ensure_consumer_group consumer Stream.retry
    launch consumer worker_name turns
