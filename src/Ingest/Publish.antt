-- ===== src/Ingest/Publish.antt =====
-- api/app/api/events.py and api/app/core/event_backends.py: an event that comes in is stored, queued
-- and handed to the backend.
use replay_forge.Base.{ℕ, Bool, true, false, not, ◌&&◌, ◌||◌, none, some, ◌==◌, if◌then◌else◌}
use replay_forge.Models.{Status, Event, status_eq}
use replay_forge.Service.Tables.{Db}
use replay_forge.Service.Redis.{Stream}
use replay_forge.Service.World.{Platform, ok, raise, Error, ◌>>=◌, ◌>>◌, pure, throw, catch, skip}
use replay_forge.Ingest.{
  EventCreate, Statement, meanwhile, reading, commit_view, refresh, get_or_create_event,
}

-- `settings.normalized_event_backend`. What ForgeLog does with an event is known only as whether the
-- request succeeds.
pub data Backend : Type 0 where
  redis : Backend
  forgelog : (Event → EventCreate → Bool) → Backend

-- `EventOut`, less the attempts, with the other columns as the event.
pub record EventOut : Type 0 where
  pub event : Event
  pub duplicate : Bool

-- `event.status in {"received", "queued", "retrying"}`
abbrev pub is_open : Status → Bool
is_open Status.received = true
is_open Status.queued = true
is_open Status.retrying = true
is_open _ = false

abbrev pub should_publish : Event → Bool → Bool
should_publish event duplicate = not duplicate || (duplicate && is_open event.status)

module _ (p : Platform) (others : ℕ → Db p.tables → Db p.tables) (backend : Backend) where
  abbrev publish : ℕ → Statement p others (Unit {0})
  publish event_id s =
      elim (p.redis.xadd Stream.incoming (record { event_id = some event_id; reason = none })
        s.redis) [
          | none ↦ (raise (Error.redis_error p.redis_message), s)
          | some r ↦ (ok tt, record s { redis = r })
        ]

  unfoldable pub append_event_to_backend : Event → EventCreate → Statement p others (Unit {0})
  append_event_to_backend event payload = elim backend [
    | redis ↦ publish event.id
    | forgelog accepts ↦ if accepts event payload then skip else throw Error.http_error
  ]

  -- The columns that the flush of the changed object writes.
  abbrev pub queue : ℕ → Event → Event
  queue updated e = record e { status = Status.queued; updated_at = updated }

  abbrev pub write_queued : ℕ → ℕ → Statement p others (Unit {0})
  write_queued id updated s = (
    ok tt,
    record s {
      view = record s.view {
        events = p.tables.update (λ r. r.id == id) (queue updated) s.view.events;
      };
    },
  )

  -- `event.status = "queued"` with the commit: nothing is written where the status was that already.
  unfoldable pub write_status : Event → Statement p others (Unit {0})
  write_status event = if status_eq event.status Status.queued then skip else (do
    updated ← reading p others p.clock
    meanwhile p others
    write_queued event.id updated
    commit_view p others)

  -- The same with the refresh.
  unfoldable pub set_queued : Event → Statement p others Event
  set_queued event = do write_status event; refresh p others event.id

  unfoldable pub publish_event : Event → EventCreate → Statement p others Event
  publish_event event payload = do
    queued ← set_queued event
    catch (append_event_to_backend queued payload) (λ error. skip)
    pure queued

  unfoldable pub settle_event : Event → Bool → EventCreate → Statement p others Event
  settle_event event duplicate payload =
      if should_publish event duplicate
      then publish_event event payload
      else if status_eq event.status Status.received
      then set_queued event
      else pure event

  -- `ingest_event`
  unfoldable pub ingest_event : EventCreate → Statement p others EventOut
  ingest_event payload = do
    (event, duplicate) ← get_or_create_event p others payload
    settled ← settle_event event duplicate payload
    pure (record { event = settled; duplicate = duplicate })
