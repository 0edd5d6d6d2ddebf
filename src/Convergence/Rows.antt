-- ===== src/Convergence/Rows.antt =====
-- api/app/core/convergence.py: its statements and loops over the rows.
use replay_forge.Base.{
  ℕ, suc, ◌+◌, ◌-◌, ◌*◌, Bool, true, false, ◌&&◌, List, [], ◌∷◌, Option, none, some, ltb, leb, ◌==◌,
  if◌then◌else◌, keep, count_by, map,
}
use replay_forge.Models.{
  Status, AttemptStatus, Event, EventAttempt, Worker, is_event, status_eq, ℤ, pos, negsuc,
}

-- `event.status == status` on a row
abbrev pub has_status : Status → Event → Bool
has_status s e = status_eq e.status s

abbrev pub is_succeeded : AttemptStatus → Bool
is_succeeded AttemptStatus.succeeded = true
is_succeeded _ = false

abbrev pub is_failed : AttemptStatus → Bool
is_failed AttemptStatus.failed = true
is_failed _ = false

-- `select(Event.status, func.count(Event.id)).group_by(Event.status)`
abbrev pub bump : Status → List (Status × ℕ) → List (Status × ℕ)
bump s [] = (s, 1) ∷ []
bump s ((t, n) ∷ c) = if status_eq t s then (t, suc n) ∷ c else (t, n) ∷ bump s c

abbrev pub status_counts : List Event → List (Status × ℕ)
status_counts [] = []
status_counts (e ∷ es) = bump e.status (status_counts es)

-- `counts.get(status, 0)` and `sum(counts.values())`
abbrev pub count_of : Status → List (Status × ℕ) → ℕ
count_of s [] = 0
count_of s ((t, n) ∷ c) = if status_eq t s then n else count_of s c

abbrev pub sum_counts : List (Status × ℕ) → ℕ
sum_counts [] = 0
sum_counts ((t, n) ∷ c) = n + sum_counts c

-- `distinct`
abbrev pub distinct : List ℕ → List ℕ
distinct [] = []
distinct (x ∷ xs) =
    let rest = distinct xs in if count_by (λ y. x == y) rest == 0 then x ∷ rest else rest

abbrev pub attempt_event_ids : List EventAttempt → List ℕ
attempt_event_ids = map (λ (a : EventAttempt). a.event_id)

-- A failed attempt that finished after `now` less 15 minutes.
abbrev pub at_or_after : ℕ → Option ℕ → Bool
at_or_after now none = false
at_or_after now (some t) = leb now (t + 1000000 * (15 * 60))

abbrev pub is_recent_failure : ℕ → EventAttempt → Bool
is_recent_failure now a = is_failed a.status && at_or_after now a.finished_at

-- A heartbeat more than 30 seconds ago.
abbrev pub is_stale : ℕ → Worker → Bool
is_stale now w = ltb (w.last_heartbeat_at + 1000000 * 30) now

-- `now - hb`, and the larger of two ages
abbrev pub age : ℕ → ℕ → ℤ
age now hb = if leb hb now then pos (now - hb) else negsuc (hb - now - 1)

abbrev pub max_age : ℤ → ℤ → ℤ
max_age (pos a) (pos b) = if leb b a then pos a else pos b
max_age (pos a) (negsuc b) = pos a
max_age (negsuc a) (pos b) = pos b
max_age (negsuc a) (negsuc b) = if leb a b then negsuc a else negsuc b

-- `_worker_heartbeat_age_seconds`, in microseconds, before it is rounded to a tenth of a second.
abbrev pub worker_heartbeat_age : ℕ → List Worker → Option ℤ
worker_heartbeat_age now [] = none
worker_heartbeat_age now (w ∷ ws) = elim (worker_heartbeat_age now ws) [
  | none ↦ some (age now w.last_heartbeat_at)
  | some m ↦ some (max_age (age now w.last_heartbeat_at) m)
]

-- The outer join of `workers` with `events` has no event for the worker's claim.
abbrev pub is_orphan : List Event → Option ℕ → Bool
is_orphan events none = false
is_orphan events (some id) = count_by (is_event id) events == 0

-- `sum(greatest(attempt_count - 1, 0))`
abbrev pub extra_attempts : List Event → ℕ
extra_attempts [] = 0
extra_attempts (e ∷ es) = (e.attempt_count - 1) + extra_attempts es

abbrev pub succeeded_of : ℕ → EventAttempt → Bool
succeeded_of id a = is_succeeded a.status && a.event_id == id

-- The events with more than one succeeded attempt.
abbrev pub count_duplicates : List EventAttempt → ℕ
count_duplicates attempts =
    count_by (λ id. ltb 1 (count_by (succeeded_of id) attempts))
      (distinct (attempt_event_ids (keep (λ a. is_succeeded a.status) attempts)))
