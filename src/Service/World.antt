-- ===== src/Service/World.antt =====
-- The state that a request or a worker runs over, and the monad of its steps: exceptions and state.
-- What was written before a raise stays written.
use replay_forge.Base.{ℕ, ◌+◌, ◌≤◌, Option, none, some, String, if◌then◌else◌, ◌==◌, head?}
use replay_forge.Models.{Event, is_event}
use replay_forge.Service.Tables.{Tables, Db}
use replay_forge.Service.Redis.{Redis}

-- What `random.Random` is seeded with in api/app/demo/checkout_simulator.py: the texts
-- "crash:{event_id}:{attempt}" and "{event_id}:{attempt}".
pub data Seed : Type 0 where
  crash fault : ℕ → ℕ → Seed

-- Everything outside the program. The clock, the UUIDs and the random numbers are read in order: the
-- `k`-th reading is at `k`.
pub record Platform : Type 1 where
  pub tables : Tables
  pub redis : Redis
  -- `datetime.now(timezone.utc)` and `time.time()`, in microseconds
  pub clock : ℕ → ℕ
  -- `uuid.uuid4()`
  pub uuid4 : ℕ → ℕ
  -- `random.uniform(low, high)`, in the unit of the two
  pub uniform : ℕ → (low high : ℕ) → ℕ
  -- the first `random()` of a generator with this seed, in units of 2 ^ -53
  pub first_random : Seed → ℕ
  -- `str(exc)` of an exception that the Redis client raises
  pub redis_message : String
  pub uniform_bounds :
      (k low high : ℕ) → low ≤ high → (low ≤ uniform k low high) × (uniform k low high ≤ high)

-- `http` is an `HTTPException` with its status code and its detail, `no_result_found` SQLAlchemy's
-- `NoResultFound`, and `not_refreshed` what a refresh raises that finds no row.
pub data Error : Type 0 where
  simulated_failure worker_crash redis_error : String → Error
  http : ℕ → String → Error
  no_result_found http_error integrity_error not_refreshed : Error

-- `str(error)`
abbrev pub error_text : Error → String
error_text (Error.simulated_failure s) = s
error_text (Error.worker_crash s) = s
error_text (Error.redis_error s) = s
error_text (Error.http code s) = s
error_text Error.no_result_found = "No row was found when one was required"
error_text Error.http_error = "ForgeLog request failed"
error_text Error.integrity_error = "a unique key is taken"
error_text Error.not_refreshed = "Could not refresh instance"

-- `heartbeat_event` is `HeartbeatThread.current_event_id`, `tick` the number of readings so far.
-- `held` is the event object that the session's identity map still holds: api/app/database.py sets
-- `expire_on_commit=False`, so that a later `select` of its row gives this object as it is.
pub record World (p : Platform) : Type 0 where
  pub db : Db p.tables
  pub redis : p.redis.Server
  pub tick : ℕ
  pub heartbeat_event : Option ℕ
  pub held : Option Event

pub data Result (A : Type 0) : Type 0 where
  ok : A → Result A
  raise : Error → Result A

abbrev pub M : Type 0 → Type 0 → Type 0
M W A = W → Result A × W

infixl 5 ◌>>=◌ ◌>>◌
abbrev pub ◌>>=◌ : {W A B : Type 0} → M W A → (A → M W B) → M W B
◌>>=◌ m f w = let (r, w') = m w in elim r [ ok a ↦ f a w' | raise e ↦ (raise e, w') ]

abbrev pub ◌>>◌ : {W A B : Type 0} → M W A → M W B → M W B
m >> k = m >>= λ _. k

abbrev pub pure : {W A : Type 0} → A → M W A
pure a w = (ok a, w)

abbrev pub throw : {W A : Type 0} → Error → M W A
throw e w = (raise e, w)

-- `try: m` with `except Exception as e: h(e)`
abbrev pub catch : {W A : Type 0} → M W A → (Error → M W A) → M W A
catch m h w = let (r, w') = m w in elim r [ ok a ↦ (ok a, w') | raise e ↦ h e w' ]

-- `try: m` with `finally: f`, where `f` does not raise
abbrev pub finally : {W A : Type 0} → M W A → M W (Unit {0}) → M W A
finally m f w = let (r, w') = m w in (r, (f w').1)

abbrev pub skip : {W : Type 0} → M W (Unit {0})
skip w = (ok tt, w)

module _ (p : Platform) where
  abbrev pub Step : Type 0 → Type 0
  Step A = M (World p) A

  -- `_now()`, which is also the default of the time columns
  abbrev pub now : Step ℕ
  now w = (ok (p.clock w.tick), record w { tick = w.tick + 1 })

  -- `_uuid()`
  abbrev pub fresh_id : Step ℕ
  fresh_id w = (ok (p.uuid4 w.tick), record w { tick = w.tick + 1 })

  abbrev pub get_db : Step (Db p.tables)
  get_db w = (ok w.db, w)

  -- What is added or changed, and the commit. A statement of the database does not raise here.
  abbrev pub commit : (Db p.tables → Db p.tables) → Step (Unit {0})
  commit f w = (ok tt, record w { db = f w.db })

  -- A call of the Redis client.
  abbrev pub call_redis : (p.redis.Server → Option p.redis.Server) → Step (Unit {0})
  call_redis f w = elim (f w.redis) [
    | none ↦ (raise (Error.redis_error p.redis_message), w)
    | some r ↦ (ok tt, record w { redis = r })
  ]

  abbrev pub set_heartbeat : Option ℕ → Step (Unit {0})
  set_heartbeat e w = (ok tt, record w { heartbeat_event = e })

  -- The flush of a changed event: its row is found by its id.
  abbrev pub save_event : Event → Db p.tables → Db p.tables
  save_event e d = record d { events = p.tables.update (λ r. r.id == e.id) (λ _. e) d.events }

  -- A call that reads.
  abbrev pub query_redis : {A : Type 0} → (p.redis.Server → Option A) → Step A
  query_redis f w = elim (f w.redis) [
    | none ↦ (raise (Error.redis_error p.redis_message), w)
    | some a ↦ (ok a, w)
  ]

  -- `db.commit()` after changes of the event object and other rows.
  abbrev pub commit_event : Event → (Db p.tables → Db p.tables) → Step (Unit {0})
  commit_event e f w = (ok tt, record w { db = save_event e (f w.db); held = some e })

  -- The object that a select of one row gives: the held one, if it is of that row.
  abbrev pub held_or : Option Event → Event → Event
  held_or none row = row
  held_or (some e) row = if e.id == row.id then e else row

  -- `event = db.execute(select(Event).where(Event.id == id)).scalar_one_or_none()`: where there is no
  -- row, nothing refers to the old object any more.
  unfoldable pub load_event : ℕ → Step (Option Event)
  load_event id w = elim (head? (p.tables.select (is_event id) w.db.events)) [
    | none ↦ (ok none, record w { held = none })
    | some row ↦ (ok (some (held_or w.held row)), record w { held = some (held_or w.held row) })
  ]
