-- ===== src/Scheduler.antt =====
-- api/app/workers/retry_scheduler.py: what is due goes from the sorted set to the retry stream.
pub mod Moved
use replay_forge.Base.{ℕ, suc, Bool, true, false, List, [], ◌∷◌, Option, none, some, if◌then◌else◌}
use replay_forge.Service.World.{
  Platform, Step, Result, ok, raise, Error, ◌>>=◌, ◌>>◌, pure, catch, skip,
}
use replay_forge.Streams.{due_retry_event_ids, publish_retry_stream}

module _ (p : Platform) where
  -- `r.zrem(RETRY_ZSET, eid)`
  abbrev pub zrem : ℕ → Step p Bool
  zrem eid w = elim (p.redis.zrem eid w.redis) [
    | none ↦ (raise (Error.redis_error p.redis_message), w)
    | some (removed, r) ↦ (ok removed, record w { redis = r })
  ]

  -- One turn of the loop over the due ids, with what it adds to `flushed`.
  unfoldable pub flush_one : ℕ → ℕ → Step p ℕ
  flush_one eid flushed = do
    removed ← zrem eid
    if removed then (publish_retry_stream p eid >> pure (suc flushed)) else pure flushed

  abbrev pub flush_each : List ℕ → ℕ → Step p ℕ
  flush_each [] flushed = pure flushed
  flush_each (eid ∷ eids) flushed = flush_one eid flushed >>= flush_each eids

  -- `_flush_due_retries`
  unfoldable pub flush_due_retries : Step p ℕ
  flush_due_retries = do event_ids ← due_retry_event_ids p; flush_each event_ids 0

  -- One turn of `RetrySchedulerThread.run`.
  unfoldable pub scheduler_turn : Step p (Unit {0})
  scheduler_turn = catch (flush_due_retries >> skip) (λ e. skip)
