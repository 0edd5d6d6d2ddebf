-- ===== src/Insights/Recent.antt =====
-- api/app/api/insights.py: top_errors and throughput_per_minute. Times are numbers of microseconds.
use replay_forge.Base.{
  ℕ, ◌+◌, ◌*◌, ◌/◌, String, Bool, true, false, ◌&&◌, List, [], ◌∷◌, ◌++◌, none, some, map, count_by,
  length, leb, ltb, ◌==◌, group_by, if◌then◌else◌,
}
use replay_forge.Models.{Event, EventAttempt}
use replay_forge.Accounting.{is_failed}
use replay_forge.Convergence.Rows.{is_succeeded}
use replay_forge.Service.Ordering.{Sort, descending, take}
use replay_forge.Service.World.{Platform, Step, ◌>>=◌, pure, now, get_db}
use replay_forge.Insights.{type_of}
use replay_forge.Queries.{ordered}

-- A row of `top_errors`.
pub record ErrorRow : Type 0 where
  pub error : String
  pub event_type : String
  pub count : ℕ

-- `Event.last_error.isnot(None)`, and the text
abbrev pub has_error : Event → Bool
has_error e = elim e.last_error [ none ↦ false | some text ↦ true ]

abbrev pub error_of : Event → String
error_of e = elim e.last_error [ none ↦ "" | some text ↦ text ]

-- `group_by(Event.last_error, Event.event_type)`: the groups of the error, each by the event types.
abbrev pub type_rows : String → List (String × List Event) → List ErrorRow
type_rows error [] = []
type_rows error ((event_type, events) ∷ groups) =
    record { error = error; event_type = event_type; count = length events }
    ∷ type_rows error groups

abbrev pub error_rows : List (String × List Event) → List ErrorRow
error_rows [] = []
error_rows ((error, events) ∷ groups) =
    type_rows error (group_by type_of events) ++ error_rows groups

-- `top_errors`
unfoldable pub top_errors : (p : Platform) → Sort → ℕ → Step p (List ErrorRow)
top_errors p sort limit = do
  db ← get_db p
  rows ←
      ordered p sort (descending (λ (r : ErrorRow). r.count))
        (error_rows (group_by error_of (p.tables.select has_error db.events)))
  pure (take limit rows)

-- A row of `throughput_per_minute`; a moment is shown by its minute.
pub record MinuteRow : Type 0 where
  pub minute : ℕ
  pub count : ℕ
  pub succeeded : ℕ
  pub failed : ℕ

abbrev pub minute_of : ℕ → ℕ
minute_of t = t / 60000000

-- The attempts that were finished in a minute.
abbrev pub in_minute : ℕ → EventAttempt → Bool
in_minute m a = elim a.finished_at [ none ↦ false | some t ↦ minute_of t == m ]

abbrev pub succeeded_in : ℕ → EventAttempt → Bool
succeeded_in m a = in_minute m a && is_succeeded a.status

abbrev pub failed_in : ℕ → EventAttempt → Bool
failed_in m a = in_minute m a && is_failed a.status

-- `group_by(bucket)` with `order_by(bucket)`: each minute once, from the first on.
abbrev pub add_minute : ℕ → List ℕ → List ℕ
add_minute m [] = m ∷ []
add_minute m (n ∷ ns) =
    if m == n then n ∷ ns else if ltb m n then m ∷ n ∷ ns else n ∷ add_minute m ns

abbrev pub minutes_of : List EventAttempt → List ℕ
minutes_of [] = []
minutes_of (a ∷ rest) = elim a.finished_at [
  | none ↦ minutes_of rest
  | some t ↦ add_minute (minute_of t) (minutes_of rest)
]

abbrev pub minute_row : List EventAttempt → ℕ → MinuteRow
minute_row attempts m = record {
  minute = m;
  count = count_by (in_minute m) attempts;
  succeeded = count_by (succeeded_in m) attempts;
  failed = count_by (failed_in m) attempts;
}

-- `EventAttempt.finished_at >= cutoff`
abbrev pub finished_after : (read minutes : ℕ) → EventAttempt → Bool
finished_after read minutes a = elim a.finished_at [
  | none ↦ false
  | some t ↦ leb read (t + 60000000 * minutes)
]

abbrev pub minute_rows : List EventAttempt → List MinuteRow
minute_rows attempts = map (minute_row attempts) (minutes_of attempts)

-- `throughput_per_minute`
unfoldable pub throughput_per_minute : (p : Platform) → ℕ → Step p (List MinuteRow)
throughput_per_minute p minutes = do
  read ← now p
  db ← get_db p
  pure (minute_rows (p.tables.select (finished_after read minutes) db.attempts))
