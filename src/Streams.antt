-- ===== src/Streams.antt =====
-- api/app/core/redis_streams.py: what is published and scheduled.
use replay_forge.Base.{ℕ, List, none, some}
use replay_forge.Models.{Reason}
use replay_forge.Service.Redis.{Stream}
use replay_forge.Service.World.{Platform, Step, call_redis, query_redis, now, ◌>>=◌}

module _ (p : Platform) where
  unfoldable pub publish_incoming : ℕ → Step p (Unit {0})
  publish_incoming event_id =
      call_redis p
        (p.redis.xadd Stream.incoming (record { event_id = some event_id; reason = none }))

  -- The score is `run_at` as a time stamp.
  unfoldable pub schedule_retry : ℕ → ℕ → Step p (Unit {0})
  schedule_retry event_id run_at = call_redis p (p.redis.zadd event_id run_at)

  unfoldable pub publish_deadletter : ℕ → Reason → Step p (Unit {0})
  publish_deadletter event_id reason =
      call_redis p
        (p.redis.xadd Stream.deadletter (record { event_id = some event_id; reason = some reason }))

  unfoldable pub publish_retry_stream : ℕ → Step p (Unit {0})
  publish_retry_stream event_id =
      call_redis p (p.redis.xadd Stream.retry (record { event_id = some event_id; reason = none }))

  -- `zrangebyscore(RETRY_ZSET, 0, time.time())`
  unfoldable pub due_retry_event_ids : Step p (List ℕ)
  due_retry_event_ids = do now_ts ← now p; query_redis p (p.redis.zrangebyscore now_ts)
