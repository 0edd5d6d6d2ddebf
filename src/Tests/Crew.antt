-- ===== src/Tests/Crew.antt =====
-- The theorem of Crew at a concrete schedule, and what that schedule leaves.
use replay_forge.Base.{ℕ, ◌≡◌, refl, ◌+◌, List, [], ◌∷◌, map, none, some, arith}
use replay_forge.Models.{Event}
use replay_forge.Accounting.{failures}
use replay_forge.Crew.{
  Crew, Readings, CrewStep, load, mark, fail, restart, perform, load_row, mark_processing,
  commit_failure, run_crew,
}
use replay_forge.Crew.Sound.{IsSound}
use replay_forge.Crew.Kept.{run_crew-IsSound}
use replay_forge.Crew.Follows.{IsFollowed}
use replay_forge.Crew.Messages.{handle_message-IsFollowed}
use replay_forge.Service.Redis.{Stream}
use replay_forge.Retry.{should_dead_letter}
use replay_forge.Worker.{elapsed_ms, handle_message}
use replay_forge.Tests.Services.{platform}
use replay_forge.Tests.Data.{fresh, world, worker}

abbrev crew : Crew platform
crew = record { db = (world fresh).db; held = λ i. none }

abbrev readings : ℕ → Readings
readings k = record {
  worker = worker;
  attempt_num = 1;
  started_at = k;
  finished_at = k + 1000;
  updated_at = k + 1000;
  retry_at = k + 2000;
  attempt_id = k;
  letter_id = k + 1;
  letter_created_at = k;
}

-- Two workers have the event, and both fail; the first starts again.
abbrev schedule : List (ℕ × CrewStep)
schedule =
    (1, load 7)
    ∷ (2, load 7)
    ∷ (1, mark 10)
    ∷ (2, mark 20)
    ∷ (1, fail "timeout" (readings 30))
    ∷ (1, restart)
    ∷ (2, fail "timeout" (readings 40))
    ∷ []

run_crew-IsSound_example : IsSound (λ id. 3) (run_crew platform schedule crew)
run_crew-IsSound_example =
    run_crew-IsSound platform (λ id. 3) schedule crew
      (record {
        rows = (
          record {
            bounded = record { max = refl; count = omega arith; dead = λ d. absurd (ground arith) };
            some_count = λ h. h;
          },
          tt,
        );
        objects = λ i. tt;
        letters = tt;
      })

-- Two attempts have failed, and the event counts one.
lost_count :
    (map (λ (e : Event). e.attempt_count) (run_crew platform schedule crew).db.events ≡ 1 ∷ [])
    × (failures (run_crew platform schedule crew).db.attempts 7 ≡ 2)
unfolding run_crew perform load_row mark_processing commit_failure should_dead_letter elapsed_ms
lost_count = (refl, refl)

-- The first message of a new event.
handle_message-IsFollowed_example :
    IsFollowed platform 1 crew
      (handle_message platform worker Stream.incoming 5 (some 7) (world fresh)).1
handle_message-IsFollowed_example =
    handle_message-IsFollowed platform 1 worker Stream.incoming 5 (some 7) (world fresh) crew
      (record { events = refl; attempts = refl; dead_letters = refl; object = refl })
      ((λ _. refl, tt), tt) tt
