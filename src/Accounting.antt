-- ===== src/Accounting.antt =====
-- How the tables account for the attempts of an event: the invariant that relates
-- `events.attempt_count` to the rows of `event_attempts`.
use replay_forge.Base.{
  ℕ, ◌+◌, ◌≡◌, ◌++◌, sym, ◌∙◌, Bool, true, false, ◌&&◌, List, [], ◌∷◌, Option, none, some, arith,
  update_by, All, count_by, count_by-append, ◌==◌, if◌then◌else◌,
}
use replay_forge.Models.{AttemptStatus, Event, EventAttempt, is_attempt_of}
use replay_forge.Service.World.{Platform, World}

abbrev pub is_failed : AttemptStatus → Bool
is_failed AttemptStatus.failed = true
is_failed AttemptStatus.succeeded = false
is_failed AttemptStatus.pending = false

-- The failed attempts of an event among the rows.
abbrev pub failures : List EventAttempt → ℕ → ℕ
failures rows id = count_by (λ a. is_attempt_of id a && is_failed a.status) rows

-- The event counts the failed attempts of its id.
abbrev pub Counts : List EventAttempt → Event → Type 0
Counts rows e = e.attempt_count ≡ failures rows e.id

abbrev pub HeldCounts : List EventAttempt → Option Event → Type 0
HeldCounts rows none = Unit
HeldCounts rows (some e) = Counts rows e

-- Each event counts its failed attempts, and so does the object that the session holds.
pub record IsCounted {p : Platform} (w : World p) : Type 0 where
  pub each : All (Counts (p.tables.rows w.db.attempts)) (p.tables.rows w.db.events)
  pub held : HeldCounts (p.tables.rows w.db.attempts) w.held

-- A new attempt counts for its event, if it failed.
pub failures-add :
    (rows : List EventAttempt) (a : EventAttempt) (id : ℕ)
    → failures (rows ++ a ∷ []) id
      ≡ failures rows id + (if is_attempt_of id a && is_failed a.status then 1 else 0)
failures-add rows a id = ground (
  arith,
  count_by-append (λ (b : EventAttempt). is_attempt_of id b && is_failed b.status) rows (a ∷ []),
)

-- An attempt that has not failed counts for no event.
pub Counts-pending :
    (rows : List EventAttempt) (a : EventAttempt) (e : Event)
    → is_failed a.status ≡ false
    → Counts rows e
    → Counts (rows ++ a ∷ []) e
Counts-pending rows a e calm h = ground (arith, failures-add rows a e.id)

pub HeldCounts-pending :
    (rows : List EventAttempt) (a : EventAttempt)
    → is_failed a.status ≡ false
    → (held : Option Event) → HeldCounts rows held
    → HeldCounts (rows ++ a ∷ []) held
HeldCounts-pending rows a calm none h = tt
HeldCounts-pending rows a calm (some e) h = Counts-pending rows a e calm h

-- Every other event keeps its count when one event and its attempt are written.
pub Counts-update :
    (rows : List EventAttempt) (a : EventAttempt) (after : Event) (es : List Event)
    → a.event_id ≡ after.id
    → Counts (rows ++ a ∷ []) after
    → All (Counts rows) es
    → All (Counts (rows ++ a ∷ [])) (update_by (λ r. r.id == after.id) (λ _. after) es)
Counts-update rows a after [] own now_counted h = tt
Counts-update rows a after (e ∷ es) own now_counted h =
    ground (arith, failures-add rows a e.id, Counts-update rows a after es own now_counted h.1)

Counts-rewrite :
    (rows : List EventAttempt) (after : Event) (es : List Event)
    → Counts rows after
    → All (Counts rows) es
    → All (Counts rows) (update_by (λ r. r.id == after.id) (λ _. after) es)
Counts-rewrite rows after [] c h = tt
Counts-rewrite rows after (e ∷ es) c h = ground (arith, Counts-rewrite rows after es c h.1)

module _ {p : Platform} {w w' : World p} where
  -- Writing an event with a new attempt of its own keeps the invariant, if the count goes with the
  -- attempt.
  pub IsCounted-add :
      (e after : Event) (a : EventAttempt)
      → after.id ≡ e.id
      → a.event_id ≡ e.id
      → after.attempt_count ≡ e.attempt_count + (if is_failed a.status then 1 else 0)
      → w'.held ≡ some after
      → p.tables.rows w'.db.events
        ≡ update_by (λ r. r.id == e.id) (λ _. after) (p.tables.rows w.db.events)
      → p.tables.rows w'.db.attempts ≡ p.tables.rows w.db.attempts ++ a ∷ []
      → Counts (p.tables.rows w.db.attempts) e
      → IsCounted w
      → IsCounted w'
  IsCounted-add e after a id of count held events attempts own h =
      let rows = p.tables.rows w.db.attempts in
      let own' : Counts (rows ++ a ∷ []) after = ground (arith, failures-add rows a after.id) in
      record {
        each =
            rw (events, attempts, ← id)
              (Counts-update rows a after (p.tables.rows w.db.events) (of ∙ sym id) own' h.each);
        held = rw (held, attempts) own';
      }

  -- Writing an event with the same id and count, and no attempt, keeps it too.
  pub IsCounted-rewrite :
      (e after : Event)
      → after.id ≡ e.id
      → after.attempt_count ≡ e.attempt_count
      → w'.held ≡ some after
      → p.tables.rows w'.db.events
        ≡ update_by (λ r. r.id == e.id) (λ _. after) (p.tables.rows w.db.events)
      → p.tables.rows w'.db.attempts ≡ p.tables.rows w.db.attempts
      → Counts (p.tables.rows w.db.attempts) e
      → IsCounted w
      → IsCounted w'
  IsCounted-rewrite e after id count held events attempts own h =
      let rows = p.tables.rows w.db.attempts in
      let own' : Counts rows after = rw (id, count) own in
      record {
        each =
            rw (events, attempts, ← id)
              (Counts-rewrite rows after (p.tables.rows w.db.events) own' h.each);
        held = rw (held, attempts) own';
      }

  -- What does not touch the database or the held object keeps the invariant.
  pub IsCounted-same : w'.db ≡ w.db → w'.held ≡ w.held → IsCounted w → IsCounted w'
  IsCounted-same db held h = record { each = rw db h.each; held = rw (db, held) h.held }
