-- ===== src/Incident.antt =====
-- scripts/incident_recovery_agent.py: the rules on a benchmark artifact. A text with numbers in it is a
-- constructor with these numbers.
pub mod Verdict
pub mod Review
use replay_forge.Base.{
  ℕ, ◌≡◌, String, Bool, true, false, not, ◌&&◌, ◌||◌, Option, none, some, ltb, ◌==◌, str_eq,
  if◌then◌else◌,
}

-- What the rules read of the artifact: a missing or empty number is 0.
pub record Artifact : Type 0 where
  pub status : Option String
  pub dead_letters : ℕ
  pub events_failed : ℕ
  pub redis_lag : ℕ
  pub pending_entries : ℕ

abbrev pub is_measured : Artifact → Bool
is_measured artifact = elim artifact.status [ none ↦ false | some s ↦ str_eq s "measured" ]

pub data Summary : Type 0 where
  pending_run no_trouble : Summary
  with_dead_letters with_failures : ℕ → ℕ → Summary
  with_backlog : ℕ → Summary

unfoldable pub summarize_incident : Artifact → Summary
summarize_incident artifact =
    if not (is_measured artifact)
    then Summary.pending_run
    else if ltb 0 artifact.dead_letters
    then Summary.with_dead_letters artifact.dead_letters artifact.events_failed
    else if ltb 0 artifact.events_failed
    then Summary.with_failures artifact.events_failed artifact.redis_lag
    else if ltb 0 artifact.redis_lag
    then Summary.with_backlog artifact.redis_lag
    else Summary.no_trouble

-- `none` is "no meaningful stream backlog detected".
unfoldable pub analyze_stream_lag : Artifact → Option (ℕ × ℕ)
analyze_stream_lag artifact =
    if ltb 0 artifact.redis_lag || ltb 0 artifact.pending_entries
    then some (artifact.redis_lag, artifact.pending_entries)
    else none

pub data Letters : Type 0 where
  dead_letter_count failed_events : ℕ → Letters
  no_dead_letters : Letters

unfoldable pub inspect_dead_letters : Artifact → Letters
inspect_dead_letters artifact =
    if ltb 0 artifact.dead_letters
    then Letters.dead_letter_count artifact.dead_letters
    else if ltb 0 artifact.events_failed
    then Letters.failed_events artifact.events_failed
    else Letters.no_dead_letters

pub data Action : Type 0 where
  run_benchmark : Option String → Action
  replay_dead_letter check_workers scale_workers no_action : Action

-- `if base_url`: an empty text counts as none.
abbrev pub or_none : Option String → Option String
or_none none = none
or_none (some url) = if str_eq url "" then none else some url

-- The action; the second part of the pair, its evidence, names the same case.
unfoldable pub recommend_recovery_action : Artifact → Option String → Action
recommend_recovery_action artifact base_url =
    if not (is_measured artifact)
    then Action.run_benchmark (or_none base_url)
    else if ltb 0 artifact.dead_letters
    then Action.replay_dead_letter
    else if ltb 0 artifact.events_failed
    then Action.check_workers
    else if ltb 0 artifact.redis_lag
    then Action.scale_workers
    else Action.no_action

pub data Verification : Type 0 where
  pending verified needs_follow_up : Verification

unfoldable pub verify_recovery : Artifact → Verification
verify_recovery artifact =
    if not (is_measured artifact)
    then Verification.pending
    else if artifact.dead_letters == 0 && artifact.events_failed == 0
    then Verification.verified
    else Verification.needs_follow_up
