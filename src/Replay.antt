-- ===== src/Replay.antt =====
-- api/app/core/replay.py: a dead letter is put back into the incoming stream.
pub mod Once
pub mod Accounts
pub mod Lost
use replay_forge.Base.{ℕ, ◌+◌, Option, none, some, head?, ◌==◌}
use replay_forge.Models.{
  Status, AttemptStatus, ReplayStatus, Event, EventAttempt, DeadLetter, is_event, is_dead_letter,
}
use replay_forge.Service.Tables.{Db}
use replay_forge.Service.World.{
  Platform, Step, Error, ◌>>=◌, ◌>>◌, pure, throw, catch, now, fresh_id, get_db, commit, save_event,
}
use replay_forge.Streams.{publish_incoming}

module _ (p : Platform) where
  -- `db.get(DeadLetter, id)` and `db.get(Event, id)`, in the session of the request
  abbrev pub get_dead_letter : ℕ → Db p.tables → Option DeadLetter
  get_dead_letter id d = head? (p.tables.select (is_dead_letter id) d.dead_letters)

  abbrev pub get_event : ℕ → Db p.tables → Option Event
  get_event id d = head? (p.tables.select (is_event id) d.events)

  abbrev pub save_dead_letter : DeadLetter → Db p.tables → Db p.tables
  save_dead_letter l d = record d {
    dead_letters = p.tables.update (λ r. r.id == l.id) (λ _. l) d.dead_letters;
  }

  -- What the commit of a replay writes.
  abbrev pub write_replay : DeadLetter → Event → EventAttempt → Db p.tables → Db p.tables
  write_replay l e a d =
      save_dead_letter l (save_event p e (record d { attempts = p.tables.add a d.attempts }))

  -- From the linked attempt to the end, once both rows are found.
  unfoldable pub requeue : DeadLetter → Event → Step p Event
  requeue dl event = do
    started ← now p
    updated ← now p
    replayed ← now p
    id ← fresh_id p
    let e = record event { status = Status.queued; next_retry_at = none; updated_at = updated }
    let l = record dl { replayed_at = some replayed; replay_status = some ReplayStatus.requeued }
    let attempt : EventAttempt = record {
      id = id;
      event_id = event.id;
      attempt_number = event.attempt_count + 1;
      worker_id = none;
      worker_name = none;
      status = AttemptStatus.pending;
      error_message = none;
      replay_of = some dl.id;
      started_at = started;
      finished_at = none;
      duration_ms = none;
    }
    commit p (write_replay l e attempt)
    catch (publish_incoming p event.id) (λ error. do
      commit p (save_dead_letter (record l { replay_status = some ReplayStatus.publish_failed }))
      throw error)
    pure e

  -- `replay_dead_letter`
  unfoldable pub replay_dead_letter : ℕ → Step p Event
  replay_dead_letter dead_letter_id = do
    d ← get_db p
    elim (get_dead_letter dead_letter_id d) [
      | none ↦ throw (Error.http 404 "dead letter not found")
      | some dl ↦ elim dl.replayed_at [
        | some _ ↦ throw (Error.http 409 "already replayed")
        | none ↦ elim (get_event dl.event_id d) [
          | none ↦ throw (Error.http 404 "original event not found")
          | some event ↦ requeue dl event
        ]
      ]
    ]
