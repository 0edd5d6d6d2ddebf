-- ===== src/Queries/Stored.antt =====
-- What the endpoint for one event reads of an event that has come in.
use replay_forge.Base.{
  ℕ, ◌+◌, ◌≡◌, refl, String, false, none, some, arith, head?-keep, find_by, count_by,
  find_by-update, ==_iff, ◌==◌, Option-cases, Bool-cases, inl, inr,
}
use replay_forge.Models.{Application, Event, Status, has_key, has_name, is_event}
use replay_forge.Service.Redis.{Stream}
use replay_forge.Service.World.{Platform, World, Result, ok, raise, catch, skip}
use replay_forge.Ingest.{
  EventCreate, Session, Statement, meanwhile, refresh, get_or_create_event,
  get_or_create_application,
}
use replay_forge.Ingest.Publish.{
  Backend, EventOut, queue, write_status, set_queued, append_event_to_backend, publish_event,
  settle_event, ingest_event,
}
use replay_forge.Ingest.Again.{
  quiet, later, made_application, made_event, with_application, with_event, known_application,
  known_event, new_application, new_event_lem, IsUnused, refresh_lem, added_row,
}
use replay_forge.Queries.{details, get_event_details}

-- The payload that an event shows, for the name of its application.
abbrev pub payload_of : String → Event → EventCreate
payload_of name e = record {
  application_name = name;
  workflow_id = e.workflow_id;
  event_type = e.event_type;
  service_name = e.service_name;
  idempotency_key = e.idempotency_key;
  payload = e.payload_json;
  metadata = e.metadata_json;
  max_attempts = e.max_attempts;
}

module _ (p : Platform) where
  -- The search for the application leaves the events.
  application_events :
      (name : String) (s : Session p)
      → (a : Application) × (s' : Session p) × (get_or_create_application p (quiet p) name s
          ≡ (ok a, s'))
        × (s'.view.events ≡ s.view.events)
  application_events name s =
      elim (Option-cases (find_by (has_name name) (p.tables.rows s.view.applications))) [
        | inl missing ↦ (
          made_application p name s,
          with_application p (made_application p name s) s,
          new_application p name s missing,
          refl,
        )
        | inr (a, found) ↦ (a, later p s, known_application p name a s found, refl)
      ]

  -- A payload whose event is not a duplicate has made a row.
  event_is_new :
      (payload : EventCreate) (s s' : Session p) (e : Event)
      → IsUnused p s
      → get_or_create_event p (quiet p) payload s ≡ (ok (e, false), s')
      → (a : Application) × (s1 : Session p) × (e ≡ made_event p a payload s1)
        × (s' ≡ with_event p e s1)
        × (s1.view.events ≡ s.view.events)
  unfolding get_or_create_event
  event_is_new payload s s' e unused stored =
      let (a, s1, app, same) = application_events payload.application_name s in
      let unused' : IsUnused p s1 = λ k. rw same (unused k) in
      elim (Option-cases
        (find_by (has_key a.id payload.idempotency_key) (p.tables.rows s1.view.events))) [
          | inl missing ↦
              let made = new_event_lem p a payload s1 unused' missing in
              (a, s1, ground (arith, app, made, stored), ground (arith, app, made, stored), same)
          | inr (old, found) ↦
              let known = known_event p a payload old s1 found in
              absurd (ground (arith, app, known, stored))
        ]

  -- The session after the event is written as queued.
  abbrev queued_session : Backend → ℕ → Event → Session p → Session p
  queued_session backend updated e s = record s {
    committed = record s.view {
      events =
          p.tables.update (λ r. r.id == e.id) (queue p (quiet p) backend updated) s.view.events;
    };
    view = record s.view {
      events =
          p.tables.update (λ r. r.id == e.id) (queue p (quiet p) backend updated) s.view.events;
    };
    tick = s.tick + 1 + 1 + 1;
  }

  -- The row of an event that is then queued is found by its id.
  queued_row :
      (backend : Backend) (updated : ℕ) (e : Event) (s : Session p)
      → find_by (is_event e.id) (p.tables.rows s.view.events) ≡ some e
      → find_by
          (is_event e.id)
          (p.tables.rows (queued_session backend updated e s).committed.events)
        ≡ some (queue p (quiet p) backend updated e)
  queued_row backend updated e s there =
      let q = queue p (quiet p) backend updated in
      let moved =
        find_by-update (is_event e.id) (is_event e.id) q (λ r. refl) (p.tables.rows s.view.events)
          there in
      rw (p.tables.rows-update (is_event e.id) q s.view.events)
        (ground (arith, (==_iff e.id e.id).1 refl, moved))

  set_queued_new :
      (backend : Backend) (e : Event) (s : Session p)
      → e.status ≡ Status.received
      → find_by (is_event e.id) (p.tables.rows s.view.events) ≡ some e
      → set_queued p (quiet p) backend e s ≡ (
        ok (queue p (quiet p) backend (p.clock s.tick) e),
        queued_session backend (p.clock s.tick) e s,
      )
  unfolding set_queued write_status meanwhile
  set_queued_new backend e s h found =
      let q = queue p (quiet p) backend (p.clock s.tick) e in
      let after = queued_session backend (p.clock s.tick) e s in
      let read : refresh p (quiet p) e.id (record after { tick = s.tick + 1 + 1 }) ≡ (ok q, after) =
        refresh_lem p e.id q (record after { tick = s.tick + 1 + 1 })
          (queued_row backend (p.clock s.tick) e s found) in
      ground (arith, h, read)

  -- The backend, whether or not it takes the event, leaves the rows.
  append_rows :
      (backend : Backend) (e : Event) (payload : EventCreate) (s : Session p)
      → (append_event_to_backend p (quiet p) backend e payload s).1.committed ≡ s.committed
  unfolding append_event_to_backend
  append_rows Backend.redis e payload s =
      elim (Option-cases
        (p.redis.xadd Stream.incoming (record { event_id = some e.id; reason = none }) s.redis)) [
          | inl down ↦ ground arith
          | inr (r, added) ↦ ground arith
        ]
  append_rows (Backend.forgelog accepts) e payload s = elim (Bool-cases (accepts e payload)) [
    | inl fine ↦ rw fine refl
    | inr refused ↦ rw refused refl
  ]

  get_event_lem :
      (w : World p) (id : ℕ) (e : Event)
      → find_by (is_event id) (p.tables.rows w.db.events) ≡ some e
      → (get_event_details p id w).0 ≡ ok (details p w.db e)
  unfolding get_event_details
  get_event_lem w id e found = ground (
    arith,
    found,
    p.tables.select-rows (is_event id) w.db.events,
    head?-keep (is_event id) (p.tables.rows w.db.events),
  )

  ended :
      (r : Result (Unit {0})) (t : Session p)
      → catch {W = Session p} (λ _. (r, t)) (λ error. skip) t ≡ (ok tt, t)
  ended (ok a) t = refl
  ended (raise e) t = refl

  -- A call whose errors are logged goes on from where the call ended.
  catch-skip :
      (m : Statement p (quiet p) (Unit {0})) (s : Session p)
      → catch m (λ error. skip) s ≡ (ok tt, (m s).1)
  catch-skip m s = ended (m s).0 (m s).1

  -- An event that is new comes in while no other session writes, and no identifier still to be drawn is
  -- that of an event: whatever the backend does with it, the endpoint answers, the event that is then
  -- read back under its id is the one that it answered with, queued, and shows exactly the payload that
  -- was sent.
  pub ingest_event-get_event :
      (backend : Backend) (payload : EventCreate) (s s' : Session p) (e : Event) (w : World p)
      → IsUnused p s
      → get_or_create_event p (quiet p) payload s ≡ (ok (e, false), s')
      → (out : EventOut) × (s'' : Session p) × (ingest_event p (quiet p) backend payload s
          ≡ (ok out, s''))
        × ((get_event_details p out.event.id (record w { db = s''.committed })).0
            ≡ ok (details p s''.committed out.event))
        × (payload_of payload.application_name out.event ≡ payload)
        × (out.event.status ≡ Status.queued)
  unfolding ingest_event settle_event publish_event
  ingest_event-get_event backend payload s s' e w unused stored =
      let (a, s1, made, after, rows) = event_is_new payload s s' e unused stored in
      let updated = p.clock s'.tick in
      let q = queue p (quiet p) backend updated e in
      let s2 = queued_session backend updated e s' in
      let free : count_by (is_event e.id) (p.tables.rows s1.view.events) ≡ 0 =
        rw (made, rows) (unused (s1.tick + 1)) in
      let there : find_by (is_event e.id) (p.tables.rows s'.view.events) ≡ some e =
        rw after (added_row p e s1 free) in
      let row = queued_row backend updated e s' there in
      let queued = set_queued_new backend e s' (rw made refl) there in
      let same : (append_event_to_backend p (quiet p) backend q payload s2).1.committed
          ≡ s2.committed =
        append_rows backend q payload s2 in
      (
        record { event = q; duplicate = false },
        (append_event_to_backend p (quiet p) backend q payload s2).1,
        ground (
          arith,
          stored,
          queued,
          catch-skip (append_event_to_backend p (quiet p) backend q payload) s2,
        ),
        rw same (get_event_lem (record w { db = s2.committed }) e.id q row),
        rw made refl,
        refl,
      )
