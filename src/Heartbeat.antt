-- ===== src/Heartbeat.antt =====
-- api/app/workers/heartbeat.py, and the list of api/app/api/workers.py that calls it.
pub mod Stale
use replay_forge.Base.{
  ℕ, ◌+◌, ◌*◌, String, Bool, true, false, ◌&&◌, List, [], ◌∷◌, Option, none, some, ltb, count_by,
  map, if◌then◌else◌,
}
use replay_forge.Models.{WorkerStatus, Worker, is_worker, is_working}
use replay_forge.Service.Tables.{Db}
use replay_forge.Service.World.{
  Platform, World, Step, ok, ◌>>=◌, ◌>>◌, pure, now, get_db, commit, catch, skip,
}

-- The heartbeat is before `read` less `threshold` seconds.
abbrev pub is_late : ℕ → ℕ → Worker → Bool
is_late threshold read w = ltb (w.last_heartbeat_at + 1000000 * threshold) read

-- `"busy" if current_event_id else "active"`
abbrev pub status_at : Option ℕ → WorkerStatus
status_at none = WorkerStatus.active
status_at (some e) = WorkerStatus.busy

-- `WorkerOut`
pub record WorkerOut : Type 0 where
  pub id : ℕ
  pub worker_name : String
  pub status : WorkerStatus
  pub last_heartbeat_at : ℕ
  pub current_event_id : Option ℕ
  pub is_stale : Bool

abbrev pub stale_threshold : ℕ
stale_threshold = 30

abbrev pub worker_out : ℕ → Worker → WorkerOut
worker_out read w = record {
  id = w.id;
  worker_name = w.worker_name;
  status = w.status;
  last_heartbeat_at = w.last_heartbeat_at;
  current_event_id = w.current_event_id;
  is_stale = is_late stale_threshold read w;
}

module _ (p : Platform) where
  -- `db.execute(update(Worker).where(test).values(...))` and the commit
  abbrev pub update_workers : (Worker → Bool) → (Worker → Worker) → Step p (Unit {0})
  update_workers test f = commit p (λ d. record d { workers = p.tables.update test f d.workers })

  abbrev pub beat : Option ℕ → ℕ → ℕ → Worker → Worker
  beat current_event_id read updated w = record w {
    last_heartbeat_at = read;
    status = status_at current_event_id;
    current_event_id = current_event_id;
    updated_at = updated;
  }

  unfoldable pub mark_worker_active : ℕ → Option ℕ → Step p (Unit {0})
  mark_worker_active worker_id current_event_id = do
    read ← now p
    updated ← now p
    update_workers (is_worker worker_id) (beat current_event_id read updated)

  unfoldable pub mark_worker_stopped : ℕ → Step p (Unit {0})
  mark_worker_stopped worker_id = do
    updated ← now p
    update_workers (is_worker worker_id) (λ w. record w {
      status = WorkerStatus.stopped;
      current_event_id = none;
      updated_at = updated;
    })

  abbrev pub make_stale : ℕ → Worker → Worker
  make_stale updated w = record w { status = WorkerStatus.stale; updated_at = updated }

  -- The `where` of `mark_stale_workers`.
  abbrev pub goes_stale : ℕ → ℕ → Worker → Bool
  goes_stale threshold read w = is_late threshold read w && is_working w.status

  -- The `rowcount` is the number of rows that the `where` holds of.
  unfoldable pub mark_stale_workers : ℕ → Step p ℕ
  mark_stale_workers threshold_seconds = do
    read ← now p
    updated ← now p
    before ← get_db p
    update_workers (goes_stale threshold_seconds read) (make_stale updated)
    pure (count_by (goes_stale threshold_seconds read) (p.tables.rows before.workers))

  -- One turn of `HeartbeatThread.run`, which reads the event that the worker has set.
  unfoldable pub heartbeat_turn : ℕ → Step p (Unit {0})
  heartbeat_turn worker_id w = catch (mark_worker_active worker_id w.heartbeat_event) (λ e. skip) w

  -- `order_by(Worker.last_heartbeat_at.desc())` is the parameter `newest_first`.
  unfoldable pub list_workers : (List Worker → List Worker) → Step p (List WorkerOut)
  list_workers newest_first = do
    stale ← mark_stale_workers stale_threshold
    db ← get_db p
    read ← now p
    pure (map (worker_out read) (newest_first (p.tables.rows db.workers)))
