-- ===== src/Tests/Analysis.antt =====
-- The theorems of Anomalies and RootCause at concrete inputs.
use replay_forge.Base.{◌≡◌, refl, [], ◌∷◌, none, some, count_by, str_eq}
use replay_forge.Models.{pos}
use replay_forge.Service.World.{World}
use replay_forge.Anomalies.{in_baseline, in_recent}
use replay_forge.RootCause.{Analyst, root_cause_analysis}
use replay_forge.RootCause.Explained.{IsExplained, root_cause_analysis-IsExplained}
use replay_forge.Tests.Services.{platform}
use replay_forge.Tests.Data.{fresh, dead, failed_attempt, dead_world}
use replay_forge.Tests.Endpoints.{stable}

-- A clock at a hundred minutes, with a look at the last half hour.
abbrev at_work : World platform
at_work = record dead_world {
  tick = 6000;
  db = record dead_world.db {
    events =
        record dead { created_at = 5000000000 }
        ∷ record fresh { id = 8; created_at = 5500000000 }
        ∷ [];
    attempts =
        record (failed_attempt 1) { finished_at = some 4500000000; duration_ms = some (pos 30) }
        ∷ record (failed_attempt 2) { finished_at = some 5900000000; duration_ms = some (pos 900) }
        ∷ record (failed_attempt 3) { finished_at = some 100 }
        ∷ [];
  };
}

-- One attempt in each half, and the latency has gone up.
one_in_each :
    (count_by (in_baseline 6000000000 30) at_work.db.attempts ≡ 1)
    × (count_by (in_recent 6000000000 30) at_work.db.attempts ≡ 1)
one_in_each = (refl, refl)

abbrev analyst : Analyst
analyst = record {
  contains = λ word text. str_eq word text;
  lower = λ text. text;
  like_first_word = λ error text. str_eq error text;
  claude = λ failed errors recovered count. none;
  api_key = "";
}

root_cause_analysis-IsExplained_example :
    IsExplained at_work.db.events
      (root_cause_analysis analyst platform stable "checkout_1" at_work).0
root_cause_analysis-IsExplained_example =
    root_cause_analysis-IsExplained analyst platform stable "checkout_1" at_work
