-- ===== src/Tests/Incident.antt =====
-- The theorem of Incident at a concrete input.
use replay_forge.Base.{◌≡◌, refl, none, some}
use replay_forge.Incident.{Artifact, Action, recommend_recovery_action}

-- A measured run that left messages behind.
abbrev lagging : Artifact
lagging = record {
  status = some "measured";
  dead_letters = 0;
  events_failed = 0;
  redis_lag = 5;
  pending_entries = 0;
}

scaled : recommend_recovery_action lagging none ≡ Action.scale_workers
unfolding recommend_recovery_action
scaled = refl
