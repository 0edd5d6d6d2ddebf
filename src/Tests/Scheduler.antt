-- ===== src/Tests/Scheduler.antt =====
-- The theorems of Scheduler and Heartbeat at concrete inputs.
use replay_forge.Base.{
  ℕ, ◌+◌, ◌≡◌, refl, List, [], ◌∷◌, ◌++◌, none, some, ◌==◌, if◌then◌else◌, count_by,
}
use replay_forge.Models.{Worker, WorkerStatus, is_worker}
use replay_forge.Service.Redis.{Redis, Stream, Message}
use replay_forge.Service.World.{Platform, World, ok}
use replay_forge.Streams.{due_retry_event_ids, publish_retry_stream}
use replay_forge.Scheduler.{flush_one, flush_due_retries, scheduler_turn}
use replay_forge.Scheduler.Moved.{has, flush_due_retries-score}
use replay_forge.Heartbeat.{mark_worker_active, mark_stale_workers}
use replay_forge.Heartbeat.Stale.{is_overdue, has_gone_stale, mark_stale_workers_lem}
use replay_forge.Tests.Services.{platform, fake_redis, Fake}
use replay_forge.Tests.Data.{doomed, server, worker, world}

program : Unit {0}
unfolding due_retry_event_ids publish_retry_stream flush_one flush_due_retries scheduler_turn
    mark_worker_active mark_stale_workers
program = tt

-- Event 7 is due since the first second, event 8 much later.
abbrev waiting : Fake
waiting = record server {
  members = 7 ∷ 8 ∷ [];
  scores = λ k. if k == 7 then some 1000000 else if k == 8 then some 9000000 else none;
}

abbrev due_world : World platform
due_world = record (world doomed) { redis = waiting; tick = 2 }

flush_due_retries-score_example :
    (due : List ℕ) × (fake_redis.zrangebyscore 2000000 waiting ≡ some due)
    × ((k : ℕ)
        → fake_redis.score k (flush_due_retries platform due_world).1.redis
          ≡ (if has k due then none else fake_redis.score k waiting))
unfolding program
flush_due_retries-score_example =
    flush_due_retries-score platform due_world (flush_due_retries platform due_world).1 1 refl

-- A Redis that is out of memory takes no entries.
no_entry :
    (s : Stream) (m : Message) (r : Fake) {r' : Fake}
    → none ≡ some r'
    → (kept : List Message) × (r'.log s ≡ kept ++ m ∷ [])
no_entry s m r h = cc

no_score :
    (s : Stream) (m : Message) (r : Fake) {r' : Fake}
    → none ≡ some r'
    → (k : ℕ) → r'.scores k ≡ r.scores k
no_score s m r h = cc

no_pending :
    (s : Stream) (m : Message) (r : Fake) {r' : Fake}
    → none ≡ some r'
    → (t : Stream) (id : ℕ) → r'.waiting t id ≡ r.waiting t id
no_pending s m r h = cc

abbrev full_redis : Redis
full_redis = record fake_redis {
  xadd = λ s m r. none;
  xadd-entries = no_entry;
  xadd-score = no_score;
  xadd-is_pending = no_pending;
}

abbrev full_platform : Platform
full_platform = record platform { redis = full_redis }

abbrev full_world : World full_platform
full_world = record {
  db = due_world.db;
  redis = waiting;
  tick = 2;
  heartbeat_event = none;
  held = none;
}

-- A worker that works on event 7, and was last heard of 40 seconds ago.
abbrev silent : Worker
silent = record worker { status = WorkerStatus.busy; current_event_id = some 7 }

abbrev silent_world : World platform
silent_world = record (world doomed) {
  db = record (world doomed).db { workers = silent ∷ [] };
  tick = 40;
}

mark_stale_workers_lem_example :
    (n : ℕ) × (w' : World platform) × (mark_stale_workers platform 30 silent_world ≡ (ok n, w'))
    × (count_by (is_overdue 30 40000000) w'.db.workers ≡ 0)
    × (count_by (λ (r : Worker). has_gone_stale r.status) w'.db.workers ≡ n + 0)
    × ((id : ℕ) → count_by (is_worker id) w'.db.workers ≡ count_by (is_worker id) (silent ∷ []))
mark_stale_workers_lem_example = mark_stale_workers_lem platform silent_world 30
