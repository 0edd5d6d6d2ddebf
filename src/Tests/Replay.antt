-- ===== src/Tests/Replay.antt =====
-- The theorems on replays at concrete inputs.
use replay_forge.Base.{◌≡◌, refl, false, some, find_by}
use replay_forge.Models.{Status, Event, is_event}
use replay_forge.Service.Redis.{Stream}
use replay_forge.Service.World.{World, ok, raise, Error}
use replay_forge.Accounting.{IsCounted}
use replay_forge.Streams.{publish_incoming}
use replay_forge.Replay.{requeue, replay_dead_letter}
use replay_forge.Replay.Once.{replay_dead_letter_twice}
use replay_forge.Replay.Accounts.{replay_dead_letter-IsCounted}
use replay_forge.Replay.Lost.{replay_is_lost}
use replay_forge.Worker.{handle_message}
use replay_forge.Worker.Outcome.{IsAcked}
use replay_forge.Tests.Services.{platform}
use replay_forge.Tests.Data.{dead, letter, server, worker, dead_world}

-- The world of a dead-lettered event while Redis is down.
abbrev down : World platform
down = record dead_world { redis = record server { up = false } }

replay_down_raises :
    (replay_dead_letter platform 21 down).0 ≡ raise (Error.redis_error "connection refused")
unfolding replay_dead_letter requeue publish_incoming
replay_down_raises = refl

replay_dead_letter_twice_example :
    let w' = (replay_dead_letter platform 21 down).1 in
    replay_dead_letter platform 21 w' ≡ (raise (Error.http 409 "already replayed"), w')
replay_dead_letter_twice_example =
    replay_dead_letter_twice platform 21 down letter dead refl refl refl

replay_dead_letter-IsCounted_example : IsCounted (replay_dead_letter platform 21 dead_world).1
replay_dead_letter-IsCounted_example =
    replay_dead_letter-IsCounted platform 21 dead_world letter dead refl refl refl
      (record { each = (refl, tt); held = refl })

replay_is_lost_example :
    let replayed = (replay_dead_letter platform 21 dead_world).1 in
    let (result, end) = handle_message platform worker Stream.incoming 5 (some 7) replayed in
    ((after : Event) × (find_by (is_event 7) end.db.events ≡ some after)
      × (after.status ≡ Status.queued))
    × (end.db.attempts ≡ replayed.db.attempts)
    × (result ≡ ok tt → IsAcked platform Stream.incoming 5 end)
replay_is_lost_example =
    replay_is_lost platform 21 dead_world letter dead dead worker Stream.incoming 5 refl refl refl
      refl refl refl
