-- ===== src/Ingest.antt =====
-- api/app/core/idempotency.py: an event is found by its key or created, while other sessions commit
-- rows of their own between the statements.
pub mod Unique
pub mod Again
pub mod Publish
pub mod Queued
pub mod Kept
use replay_forge.Base.{ℕ, ◌+◌, String, Bool, true, false, Option, none, some, head?, if◌then◌else◌}
use replay_forge.Models.{Status, Application, Event, Fields, has_key, has_name, is_event}
use replay_forge.Service.Tables.{Db}
use replay_forge.Service.World.{Platform, M, Result, ok, raise, Error, ◌>>=◌, ◌>>◌, pure, throw}

-- `EventCreate` of api/app/schemas.py
pub record EventCreate : Type 0 where
  pub application_name : String
  pub workflow_id : String
  pub event_type : String
  pub service_name : String
  pub idempotency_key : String
  pub payload : Fields
  pub metadata : Fields
  pub max_attempts : ℕ

-- A session: the committed rows, and those that it sees, with what it has flushed itself.
pub record Session (p : Platform) : Type 0 where
  pub committed : Db p.tables
  pub view : Db p.tables
  pub tick : ℕ
  pub redis : p.redis.Server

-- `others k` is what the other sessions commit before the `k`-th step; this session sees it from then
-- on (READ COMMITTED).
module _ (p : Platform) (others : ℕ → Db p.tables → Db p.tables) where
  abbrev pub Statement : Type 0 → Type 0
  Statement A = M (Session p) A

  -- What happens elsewhere before a statement.
  unfoldable pub meanwhile : Statement (Unit {0})
  meanwhile s = (
    ok tt,
    record s {
      committed = others s.tick s.committed;
      view = others s.tick s.view;
      tick = s.tick + 1;
    },
  )

  abbrev pub reading : (ℕ → ℕ) → Statement ℕ
  reading f s = (ok (f s.tick), record s { tick = s.tick + 1 })

  abbrev pub rollback : Statement (Unit {0})
  rollback s = (ok tt, record s { view = s.committed })

  abbrev pub commit_view : Statement (Unit {0})
  commit_view s = (ok tt, record s { committed = s.view })

  -- `select(Application).where(Application.name == name)`, `scalar_one_or_none()`
  unfoldable pub select_application : String → Statement (Option Application)
  select_application name s = (ok (head? (p.tables.select (has_name name) s.view.applications)), s)

  unfoldable pub select_event : ℕ → String → Statement (Option Event)
  select_event app key s = (ok (head? (p.tables.select (has_key app key) s.view.events)), s)

  -- `scalar_one()`
  abbrev pub one : {A : Type 0} → Option A → Statement A
  one none = throw Error.no_result_found
  one (some a) = pure a

  -- `db.add(app)` and `db.flush()`: `false` is the `IntegrityError`.
  unfoldable pub flush_application : Application → Statement Bool
  flush_application a s = elim (p.tables.add_unique (has_name a.name) a s.view.applications) [
    | none ↦ (ok false, s)
    | some t ↦ (ok true, record s { view = record s.view { applications = t } })
  ]

  unfoldable pub flush_event : Event → Statement Bool
  flush_event e s =
      elim (p.tables.add_unique (has_key e.application_id e.idempotency_key) e s.view.events) [
        | none ↦ (ok false, s)
        | some t ↦ (ok true, record s { view = record s.view { events = t } })
      ]

  -- `db.refresh(event)`: its row is read again, by its id, after what the others have committed.
  unfoldable pub select_row : ℕ → Statement (Option Event)
  select_row id s = (ok (head? (p.tables.select (is_event id) s.view.events)), s)

  abbrev pub row_or_raise : Option Event → Statement Event
  row_or_raise none = throw Error.not_refreshed
  row_or_raise (some event) = pure event

  unfoldable pub refresh : ℕ → Statement Event
  refresh id = do meanwhile; found ← select_row id; row_or_raise found

  -- What follows an `IntegrityError`: the row of another session is read.
  unfoldable pub reread_application : String → Statement Application
  reread_application name = do rollback; meanwhile; again ← select_application name; one again

  -- The creation of an application that was not found.
  unfoldable pub create_application : String → Statement Application
  create_application name = do
    id ← reading p.uuid4
    created ← reading p.clock
    meanwhile
    flushed ← flush_application (record { id = id; name = name; created_at = created })
    if flushed
        then pure (record { id = id; name = name; created_at = created })
        else reread_application name

  -- `_get_or_create_application`
  unfoldable pub get_or_create_application : String → Statement Application
  get_or_create_application name = do
    meanwhile
    found ← select_application name
    elim found [ some app ↦ pure app | none ↦ create_application name ]

  -- The row that a payload makes.
  abbrev pub new_event : Application → EventCreate → ℕ → ℕ → Event
  new_event app payload id created = record {
    id = id;
    application_id = app.id;
    workflow_id = payload.workflow_id;
    event_type = payload.event_type;
    service_name = payload.service_name;
    idempotency_key = payload.idempotency_key;
    status = Status.received;
    payload_json = payload.payload;
    metadata_json = payload.metadata;
    attempt_count = 0;
    max_attempts = payload.max_attempts;
    next_retry_at = none;
    last_error = none;
    created_at = created;
    updated_at = created;
  }

  unfoldable pub reread_event : ℕ → String → Statement (Event × Bool)
  reread_event app key = do
    rollback
    meanwhile
    again ← select_event app key
    existing ← one again
    pure (existing, true)

  abbrev pub commit_new : ℕ → Statement (Event × Bool)
  commit_new id = do commit_view; event ← refresh id; pure (event, false)

  -- From the creation of the row to the refresh.
  unfoldable pub create_event : Application → EventCreate → Statement (Event × Bool)
  create_event app payload = do
    id ← reading p.uuid4
    created ← reading p.clock
    meanwhile
    flushed ← flush_event (new_event app payload id created)
    if flushed then commit_new id else reread_event app.id payload.idempotency_key

  -- The search for the key and what follows it.
  unfoldable pub find_or_create_event : Application → EventCreate → Statement (Event × Bool)
  find_or_create_event app payload = do
    meanwhile
    found ← select_event app.id payload.idempotency_key
    elim found [ some existing ↦ pure (existing, true) | none ↦ create_event app payload ]

  -- `get_or_create_event`
  unfoldable pub get_or_create_event : EventCreate → Statement (Event × Bool)
  get_or_create_event payload = do
    app ← get_or_create_application payload.application_name
    find_or_create_event app payload
