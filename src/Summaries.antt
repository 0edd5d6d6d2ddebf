-- ===== src/Summaries.antt =====
-- api/app/core/incident_summary.py: a text on a workflow, kept in the database and given again for a
-- minute.
pub mod Cached
use replay_forge.Base.{
  ℕ, ◌+◌, ◌*◌, String, Bool, true, false, ◌&&◌, List, [], ◌∷◌, Option, none, some, if◌then◌else◌,
  ltb, leb, str_eq, keep, head?, length, sorted,
}
use replay_forge.Models.{Status, Event, IncidentSummary}
use replay_forge.Service.Tables.{Db}
use replay_forge.Service.World.{Platform, Step, ◌>>=◌, ◌>>◌, pure, now, fresh_id, get_db, commit}
use replay_forge.Convergence.Rows.{has_status}

-- The three texts of `_template_summarize`, with what is filled in. The last has the number of
-- events, of dead-lettered and of retried ones, and the first that is dead-lettered.
pub data Template : Type 0 where
  no_events : Template
  completed : (workflow_id : String) → ℕ → Template
  failed :
      (workflow_id : String)
      → (events dead retried : ℕ) → (event_type : String) → (attempts : ℕ) → (last_error : String)
      → Template

-- `f.last_error or 'unknown'`
abbrev pub error_or_unknown : Option String → String
error_or_unknown none = "unknown"
error_or_unknown (some e) = if str_eq e "" then "unknown" else e

abbrev pub was_retried : Event → Bool
was_retried e = ltb 1 e.attempt_count

-- With the dead-lettered ones among the events.
abbrev pub fill : String → (events retried : ℕ) → List Event → Template
fill workflow_id events retried [] = completed workflow_id events
fill workflow_id events retried (f ∷ rest) =
    failed workflow_id events (length (f ∷ rest)) retried f.event_type f.attempt_count
      (error_or_unknown f.last_error)

-- `_template_summarize`
unfoldable pub template_summarize : List Event → Template
template_summarize [] = no_events
template_summarize (e ∷ es) =
    fill e.workflow_id (length (e ∷ es)) (length (keep was_retried (e ∷ es)))
      (keep (has_status Status.dead_lettered) (e ∷ es))

-- What the summaries need: how Python writes a template out, the model's answer for some events,
-- `none` where the call raises, and the key, empty where there is none.
pub record Writer : Type 0 where
  pub render : Template → String
  pub claude : List Event → Option String
  pub api_key : String

-- A text and the name of the model.
abbrev pub Written : Type 0
Written = String × Option String

-- `_claude_summarize`: with no events the prompt raises, in the same `try`.
unfoldable pub claude_summarize : Writer → List Event → Written
claude_summarize writer [] = (writer.render (template_summarize []), none)
claude_summarize writer (e ∷ es) = elim (writer.claude (e ∷ es)) [
  | none ↦ (writer.render (template_summarize (e ∷ es)), none)
  | some text ↦ (text, some "claude-haiku-4-5")
]

unfoldable pub write_summary : Writer → List Event → Written
write_summary writer events =
    if str_eq writer.api_key ""
    then (writer.render (template_summarize events), none)
    else claude_summarize writer events

-- Of the workflow, and made less than a minute before `read`.
abbrev pub is_cached : String → ℕ → IncidentSummary → Bool
is_cached workflow_id read s =
    str_eq s.workflow_id workflow_id && ltb read (s.created_at + 1000000 * 60)

-- `order_by(IncidentSummary.created_at.desc())` and `order_by(Event.created_at)`
abbrev pub newest_first : IncidentSummary → IncidentSummary → Bool
newest_first a b = leb b.created_at a.created_at

abbrev pub oldest_first : Event → Event → Bool
oldest_first a b = leb a.created_at b.created_at

abbrev pub of_workflow : String → Event → Bool
of_workflow workflow_id e = str_eq e.workflow_id workflow_id

module _ (p : Platform) (writer : Writer) (workflow_id : String) where
  unfoldable pub summarize_anew : Step p IncidentSummary
  summarize_anew = do
    db ← get_db p
    let events = sorted oldest_first (p.tables.select (of_workflow workflow_id) db.events)
    let written = write_summary writer events
    id ← fresh_id p
    created ← now p
    let summary : IncidentSummary = record {
      id = id;
      workflow_id = workflow_id;
      summary_text = written.0;
      model_name = written.1;
      created_at = created;
    }
    commit p (λ d. record d { incident_summaries = p.tables.add summary d.incident_summaries })
    pure summary

  abbrev pub recent_or_new : Option IncidentSummary → Step p IncidentSummary
  recent_or_new (some cached) = pure cached
  recent_or_new none = summarize_anew

  -- `summarize_workflow`
  unfoldable pub summarize_workflow : Step p IncidentSummary
  summarize_workflow = do
    read ← now p
    db ← get_db p
    recent_or_new (
        head? (
          sorted newest_first (p.tables.select (is_cached workflow_id read) db.incident_summaries)))
