-- ===== src/RootCause.antt =====
-- api/app/core/ai_insights.py: root_cause_analysis. What it calls of Python and of the model is a
-- parameter.
pub mod Explained
use replay_forge.Base.{
  ℕ, ◌+◌, ◌-◌, String, Bool, true, false, not, ◌&&◌, ◌||◌, List, [], ◌∷◌, Option, none, some, map,
  keep, count_by, length, leb, str_eq, sorted, into_group, if◌then◌else◌, Ratio,
}
use replay_forge.Models.{Status, Event}
use replay_forge.Service.Ordering.{Sort, ascending, descending, take}
use replay_forge.Service.World.{Platform, Step, ◌>>=◌, pure, get_db}
use replay_forge.Convergence.Rows.{has_status}
use replay_forge.Metrics.{rate}
use replay_forge.Workflows.{in_workflow}
use replay_forge.Queries.{ordered}

-- `status in ("failed", "dead_lettered", "retrying")`
abbrev pub is_failing : Event → Bool
is_failing e =
    has_status Status.failed e || has_status Status.dead_lettered e || has_status Status.retrying e

pub data Category : Type 0 where
  timeout process_crash connectivity auth resource_missing simulated_failure unknown : Category

-- A text with how often it occurs.
abbrev pub ErrorCount : Type 0
ErrorCount = String × ℕ

-- `part in text`, `text.lower()`, and `column.like(f"%{word}%")` for the first word of a text, empty
-- where it has none; the answer of the model for the failed events, the errors and the counts, `none`
-- where the call raises; the key, empty where there is none.
pub record Analyst : Type 0 where
  pub contains : String → String → Bool
  pub lower : String → String
  pub like_first_word : String → String → Bool
  pub claude : List Event → List ErrorCount → (recovered count : ℕ) → Option String
  pub api_key : String

-- `primary.last_error or "unknown error"`
abbrev pub error_or_default : Option String → String
error_or_default none = "unknown error"
error_or_default (some e) = if str_eq e "" then "unknown error" else e

-- The errors that are not empty.
abbrev pub errors_of : List Event → List String
errors_of [] = []
errors_of (e ∷ es) = elim e.last_error [
  | none ↦ errors_of es
  | some error ↦ if str_eq error "" then errors_of es else error ∷ errors_of es
]

-- `Counter(...)`, with the errors in the order in which they are first seen.
abbrev pub seen : List String → List (String × List String) → List (String × List String)
seen [] groups = groups
seen (error ∷ errors) groups = seen errors (into_group error error groups)

abbrev pub error_count : String × List String → ErrorCount
error_count (error, found) = (error, length found)

abbrev pub more_errors : ErrorCount → ErrorCount → Bool
more_errors a b = leb b.1 a.1

-- `error_freq.most_common(5)`
unfoldable pub most_common : List String → List ErrorCount
most_common errors = take 5 (sorted more_errors (map error_count (seen errors [])))

pub record CauseReport : Type 0 where
  pub primary : Event
  pub error : String
  pub category : Category
  pub ai_summary : Option String
  pub model : Option String
  pub similar : ℕ
  pub recovered : ℕ
  pub dead_lettered : ℕ
  pub recovery_rate : Ratio
  pub top_errors : List ErrorCount
  pub events_total : ℕ
  pub events_failed : ℕ

pub data Analysis : Type 0 where
  workflow_not_found : Analysis
  no_failures : (events_total : ℕ) → Analysis
  report : CauseReport → Analysis

module _ (analyst : Analyst) where
  -- The words are looked for in this order.
  unfoldable pub categorize : String → Category
  categorize error =
      let has : String → Bool = λ word. analyst.contains word (analyst.lower error) in
      if has "timeout" || has "timed out"
      then Category.timeout
      else if has "crash" || has "killed"
      then Category.process_crash
      else if has "connection" || has "refused"
      then Category.connectivity
      else if has "auth" || has "permission" || has "forbidden"
      then Category.auth
      else if has "not found" || has "404"
      then Category.resource_missing
      else if has "simulated"
      then Category.simulated_failure
      else Category.unknown

  -- The `where` of the search for similar failures.
  abbrev pub is_similar : String → Event → String → Event → Bool
  is_similar workflow_id primary error e =
      str_eq e.event_type primary.event_type
      && has_error e.last_error
      && not (str_eq e.workflow_id workflow_id)
    where
      has_error : Option String → Bool
      has_error none = false
      has_error (some text) = analyst.like_first_word error text

  -- The text and the name of the model.
  abbrev pub enrich : List Event → List ErrorCount → ℕ → ℕ → Option String × Option String
  enrich failed errors recovered count =
      if str_eq analyst.api_key ""
      then (none, none)
      else elim (analyst.claude failed errors recovered count) [
        | none ↦ (none, none)
        | some text ↦ (some text, some "claude-haiku-4-5")
      ]

  -- What is made of the failed events and of the similar ones.
  unfoldable pub make_report : Event → List Event → (events_total : ℕ) → List Event → CauseReport
  make_report primary failed events_total similar =
      let dead = count_by (has_status Status.dead_lettered) similar in
      let errors = most_common (errors_of similar) in
      let written =
        enrich (take 5 failed) (take 3 errors) (length similar - dead) (length similar) in
      record {
        primary = primary;
        error = error_or_default primary.last_error;
        category = categorize (error_or_default primary.last_error);
        ai_summary = written.0;
        model = written.1;
        similar = length similar;
        recovered = length similar - dead;
        dead_lettered = dead;
        recovery_rate = rate (length similar - dead) (length similar);
        top_errors = errors;
        events_total = events_total;
        events_failed = length failed;
      }

  module _ (p : Platform) (sort : Sort) (workflow_id : String) where
    -- From the search for similar failures on.
    unfoldable pub explain : (events_total : ℕ) → List Event → Step p Analysis
    explain events_total [] = pure (no_failures events_total)
    explain events_total (primary ∷ rest) = do
      db ← get_db p
      similar ← ordered p sort (descending (λ (e : Event). e.updated_at)) (
          p.tables.select (is_similar workflow_id primary (error_or_default primary.last_error))
            db.events)
      pure (report (make_report primary (primary ∷ rest) events_total (take 20 similar)))

    abbrev pub analyze : List Event → Step p Analysis
    analyze [] = pure workflow_not_found
    analyze (e ∷ es) = explain (length (e ∷ es)) (keep is_failing (e ∷ es))

    -- `root_cause_analysis`
    unfoldable pub root_cause_analysis : Step p Analysis
    root_cause_analysis = do
      db ← get_db p
      events ←
          ordered p sort (ascending (λ (e : Event). e.created_at))
            (p.tables.select (in_workflow workflow_id) db.events)
      analyze events
