-- ===== src/Incident/Review.antt =====
-- scripts/incident_recovery_agent.py: analyze_incident, the rules one after the other with a trace. A text
-- with numbers in it is what it is made of; the numbers are those that the rules read, 0 for a missing one.
use Prim.Native.String.{◌++◌ as str_append}
use replay_forge.Base.{
  ℕ, ◌+◌, ◌-◌, String, not, List, [], ◌∷◌, ◌++◌, Option, none, some, ltb, str_eq, if◌then◌else◌,
}
use replay_forge.Incident.{
  Artifact, is_measured, Summary, summarize_incident, analyze_stream_lag, Letters,
  inspect_dead_letters, Action, recommend_recovery_action, Verification, verify_recovery,
}

-- The second part of `recommend_recovery_action`.
pub data Cause : Type 0 where
  pending_artifact dead_letters_present failed_events_present redis_lag_present no_evidence : Cause

unfoldable pub cause_of : Artifact → Cause
cause_of artifact =
    if not (is_measured artifact)
    then Cause.pending_artifact
    else if ltb 0 artifact.dead_letters
    then Cause.dead_letters_present
    else if ltb 0 artifact.events_failed
    then Cause.failed_events_present
    else if ltb 0 artifact.redis_lag
    then Cause.redis_lag_present
    else Cause.no_evidence

-- `input_summary`, `output_summary` and `tool_args_summary`, by what they show.
pub data Input : Type 0 where
  status_is : Option String → Input
  redis_lag_is dead_letters_are : ℕ → Input
  evidence_is : Cause → Input

pub data Output : Type 0 where
  summary : Summary → Output
  lag : Option (ℕ × ℕ) → Output
  letters : Letters → Output
  action : Action → Output
  verification : Verification → Output

-- `TraceStep`; the latency is the difference of two readings of the clock.
pub record TraceStep : Type 0 where
  pub step_name : String
  pub input_summary : Input
  pub tool_name : String
  pub tool_args_summary : Option String
  pub output_summary : Output
  pub latency : ℕ
  pub status : String
  pub error : Option String

-- `_record_step`
abbrev pub record_step : List TraceStep → TraceStep → List TraceStep
record_step trace step = trace ++ step ∷ []

-- Of the evidence, what the rules read.
pub record Review : Type 0 where
  pub run_id : String
  pub incident_summary : Summary
  pub suspected_cause : Cause
  pub evidence : Artifact
  pub base_url : Option String
  pub recommended_recovery_action : Action
  pub verification_status : Verification
  pub trace : List TraceStep

-- `base_url or 'none'`
abbrev pub url_or_none : Option String → String
url_or_none none = "none"
url_or_none (some url) = if str_eq url "" then "none" else url

-- `analyze_incident`: `clock` has the readings of `perf_counter`, two for each step.
unfoldable pub analyze_incident :
    (clock : ℕ → ℕ) → (run_id : String) → Artifact → Option String → Review
analyze_incident clock run_id artifact base_url =
    let spent : ℕ → ℕ = λ k. clock (k + 1) - clock k in
    let t0 = record_step [] (record {
      step_name = "Incident Summarizer Agent";
      input_summary = status_is artifact.status;
      tool_name = "summarize_incident";
      tool_args_summary = some (str_append "run_id=" run_id);
      output_summary = summary (summarize_incident artifact);
      latency = spent 0;
      status = "ok";
      error = none;
    }) in
    let t1 = record_step t0 (record {
      step_name = "Stream Lag Analyzer";
      input_summary = redis_lag_is artifact.redis_lag;
      tool_name = "analyze_stream_lag";
      tool_args_summary = none;
      output_summary = lag (analyze_stream_lag artifact);
      latency = spent 2;
      status = "ok";
      error = none;
    }) in
    let t2 = record_step t1 (record {
      step_name = "Dead Letter Inspector";
      input_summary = dead_letters_are artifact.dead_letters;
      tool_name = "inspect_dead_letters";
      tool_args_summary = none;
      output_summary = letters (inspect_dead_letters artifact);
      latency = spent 4;
      status = "ok";
      error = none;
    }) in
    let t3 = record_step t2 (record {
      step_name = "Runbook Recommendation Agent";
      input_summary = evidence_is (cause_of artifact);
      tool_name = "recommend_recovery_action";
      tool_args_summary = some (str_append "base_url=" (url_or_none base_url));
      output_summary = action (recommend_recovery_action artifact base_url);
      latency = spent 6;
      status = "ok";
      error = none;
    }) in
    let t4 = record_step t3 (record {
      step_name = "Recovery Verification Agent";
      input_summary = status_is artifact.status;
      tool_name = "verify_recovery";
      tool_args_summary = none;
      output_summary = verification (verify_recovery artifact);
      latency = spent 8;
      status = "ok";
      error = none;
    }) in
    record {
      run_id = run_id;
      incident_summary = summarize_incident artifact;
      suspected_cause = cause_of artifact;
      evidence = artifact;
      base_url = base_url;
      recommended_recovery_action = recommend_recovery_action artifact base_url;
      verification_status = verify_recovery artifact;
      trace = t4;
    }
