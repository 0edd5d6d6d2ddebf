-- ===== src/Tests/Process.antt =====
-- The theorems of Process at concrete inputs.
use replay_forge.Base.{List, ℕ, ◌+◌, ◌≡◌, false, [], ◌∷◌, none, some, arith, length, count_by}
use replay_forge.Service.Redis.{Stream}
use replay_forge.Service.World.{World, ok}
use replay_forge.Process.{Consumer, GroupReply, Turn, is_gone, gc_stale_workers}
use replay_forge.Process.Swept.{AllNamed, gc_stale_workers_lem}
use replay_forge.Tests.Services.{platform, fake_redis}
use replay_forge.Tests.Data.{worker, dead_world}

-- The groups are there, and nothing is to be reclaimed.
abbrev consumer : Consumer fake_redis
consumer = record { xgroup_create = λ s r. GroupReply.busy_group; xautoclaim = λ s r. some (0, r) }

-- A read that raises, one message, and a read where the flag is set before the second stream.
abbrev turns : List (Turn fake_redis)
turns =
    (λ r. none)
    ∷ (λ r.
        some (
          record { halted = false; stream = Stream.incoming; messages = (1, some 7) ∷ [] } ∷ [],
          r,
        ))
    ∷ []

-- Ten minutes after the last heartbeat, with three attempts that name the worker.
abbrev late_world : World platform
late_world = record dead_world { tick = 600 }

gc_stale_workers_lem_example :
    (n : ℕ) × (w' : World platform) × (gc_stale_workers platform late_world ≡ (ok n, w'))
    × (1 ≡ n + length w'.db.workers)
    × (n ≡ count_by (is_gone platform 600000000) (worker ∷ []))
    × (count_by (is_gone platform 600000000) w'.db.workers ≡ 0)
    × AllNamed w'.db.workers w'.db.attempts
gc_stale_workers_lem_example = gc_stale_workers_lem platform late_world (omega arith)
