-- ===== src/Ingest/Again.antt =====
-- A payload that is sent again, while no other session writes: the same event comes back, and nothing
-- is written.
use replay_forge.Base.{
  ℕ, ◌+◌, ◌≡◌, refl, String, Bool, true, false, none, some, arith, head?-keep, find_by,
  find_by-none, none-find_by, find_by-append, count_by, ==_iff, eq_iff, Option-cases, inl, inr,
}
use replay_forge.Models.{Application, Event, has_key, has_name, is_event}
use replay_forge.Service.Tables.{Db}
use replay_forge.Service.World.{Platform, ok}
use replay_forge.Ingest.{
  EventCreate, Session, meanwhile, select_application, select_event, select_row, refresh,
  flush_application, flush_event, create_application, get_or_create_application, new_event,
  create_event, find_or_create_event, get_or_create_event,
}

-- No other session writes anything.
abbrev pub quiet : (p : Platform) → ℕ → Db p.tables → Db p.tables
quiet p k d = d

module _ (p : Platform) where
  -- What the session sees is committed.
  abbrev pub IsCommitted : Session p → Type 0
  IsCommitted s = s.committed ≡ s.view

  select_application_lem :
      (name : String) (s : Session p)
      → select_application p (quiet p) name s
        ≡ (ok (find_by (has_name name) (p.tables.rows s.view.applications)), s)
  unfolding select_application
  select_application_lem name s = rw (
    p.tables.select-rows (has_name name) s.view.applications,
    head?-keep (has_name name) (p.tables.rows s.view.applications),
  )

  select_event_lem :
      (app : ℕ) (key : String) (s : Session p)
      → select_event p (quiet p) app key s
        ≡ (ok (find_by (has_key app key) (p.tables.rows s.view.events)), s)
  unfolding select_event
  select_event_lem app key s = rw (
    p.tables.select-rows (has_key app key) s.view.events,
    head?-keep (has_key app key) (p.tables.rows s.view.events),
  )

  -- A step takes a tick, and nothing else happens.
  abbrev pub later : Session p → Session p
  later s = record s { tick = s.tick + 1 }

  pub known_application :
      (name : String) (a : Application) (s : Session p)
      → find_by (has_name name) (p.tables.rows s.view.applications) ≡ some a
      → get_or_create_application p (quiet p) name s ≡ (ok a, later s)
  unfolding get_or_create_application meanwhile
  known_application name a s found = ground (arith, select_application_lem name (later s))

  pub known_event :
      (app : Application) (payload : EventCreate) (e : Event) (s : Session p)
      → find_by (has_key app.id payload.idempotency_key) (p.tables.rows s.view.events) ≡ some e
      → find_or_create_event p (quiet p) app payload s ≡ (ok (e, true), later s)
  unfolding find_or_create_event meanwhile
  known_event app payload e s found =
      ground (arith, select_event_lem app.id payload.idempotency_key (later s))

  -- The rows that are made for what is not known.
  abbrev pub made_application : String → Session p → Application
  made_application name s = record {
    id = p.uuid4 (s.tick + 1);
    name = name;
    created_at = p.clock (s.tick + 1 + 1);
  }

  abbrev pub made_event : Application → EventCreate → Session p → Event
  made_event app payload s =
      new_event p (quiet p) app payload (p.uuid4 (s.tick + 1)) (p.clock (s.tick + 1 + 1))

  -- The session with a row flushed.
  abbrev pub with_application : Application → Session p → Session p
  with_application a s = record s {
    view = record s.view { applications = p.tables.add a s.view.applications };
    tick = s.tick + 1 + 1 + 1 + 1;
  }

  abbrev pub with_event : Event → Session p → Session p
  with_event e s = record s {
    committed = record s.view { events = p.tables.add e s.view.events };
    view = record s.view { events = p.tables.add e s.view.events };
    tick = s.tick + 1 + 1 + 1 + 1 + 1;
  }

  -- A refresh reads the row with the id.
  pub refresh_lem :
      (id : ℕ) (e : Event) (s : Session p)
      → find_by (is_event id) (p.tables.rows s.view.events) ≡ some e
      → refresh p (quiet p) id s ≡ (ok e, later s)
  unfolding refresh select_row meanwhile
  refresh_lem id e s found = ground (
    arith,
    p.tables.select-rows (is_event id) s.view.events,
    head?-keep (is_event id) (p.tables.rows s.view.events),
  )

  -- No identifier that may be drawn is that of an event.
  abbrev pub IsUnused : Session p → Type 0
  IsUnused s = (k : ℕ) → count_by (is_event (p.uuid4 k)) (p.tables.rows s.view.events) ≡ 0

  -- The row that is added last is found by its id.
  pub added_row :
      (e : Event) (s : Session p)
      → count_by (is_event e.id) (p.tables.rows s.view.events) ≡ 0
      → find_by (is_event e.id) (p.tables.rows (p.tables.add e s.view.events)) ≡ some e
  added_row e s free = rw (p.tables.rows-add e s.view.events) (
      find_by-append (is_event e.id) (p.tables.rows s.view.events) e
        (none-find_by (is_event e.id) (p.tables.rows s.view.events) free)
        ((==_iff e.id e.id).1 refl))

  pub new_application :
      (name : String) (s : Session p)
      → find_by (has_name name) (p.tables.rows s.view.applications) ≡ none
      → get_or_create_application p (quiet p) name s
        ≡ (ok (made_application name s), with_application (made_application name s) s)
  unfolding get_or_create_application create_application meanwhile flush_application
  new_application name s missing =
      let a = made_application name s in
      let free = find_by-none (has_name name) (p.tables.rows s.view.applications) missing in
      ground (
        arith,
        select_application_lem name (later s),
        p.tables.add_unique-free (has_name name) a s.view.applications ((==_iff _ _).1 free),
      )

  pub new_event_lem :
      (app : Application) (payload : EventCreate) (s : Session p)
      → IsUnused s
      → find_by (has_key app.id payload.idempotency_key) (p.tables.rows s.view.events) ≡ none
      → find_or_create_event p (quiet p) app payload s
        ≡ (ok (made_event app payload s, false), with_event (made_event app payload s) s)
  unfolding find_or_create_event create_event meanwhile flush_event
  new_event_lem app payload s unused missing =
      let e = made_event app payload s in
      let key = has_key app.id payload.idempotency_key in
      let free = find_by-none key (p.tables.rows s.view.events) missing in
      ground (
        arith,
        select_event_lem app.id payload.idempotency_key (later s),
        p.tables.add_unique-free key e s.view.events ((==_iff _ _).1 free),
        refresh_lem e.id e
            (record s {
              committed = record s.view { events = p.tables.add e s.view.events };
              view = record s.view { events = p.tables.add e s.view.events };
              tick = s.tick + 1 + 1 + 1 + 1;
            })
            (added_row e s (unused (s.tick + 1))),
      )

  -- The session sees the application and the event of the payload.
  pub record IsFound (payload : EventCreate) (a : Application) (e : Event) (s : Session p)
      : Type 0 where
    pub application :
        find_by (has_name payload.application_name) (p.tables.rows s.view.applications) ≡ some a
    pub event :
        find_by (has_key a.id payload.idempotency_key) (p.tables.rows s.view.events) ≡ some e

  application_found :
      (name : String) (s : Session p)
      → (a : Application) × (s' : Session p) × (get_or_create_application p (quiet p) name s
          ≡ (ok a, s'))
        × (find_by (has_name name) (p.tables.rows s'.view.applications) ≡ some a)
        × (s'.view.events ≡ s.view.events)
  application_found name s =
      elim (Option-cases (find_by (has_name name) (p.tables.rows s.view.applications))) [
        | inl missing ↦
            let a = made_application name s in
            (
              a,
              with_application a s,
              new_application name s missing,
              rw (p.tables.rows-add a s.view.applications) (
                  find_by-append (has_name name) (p.tables.rows s.view.applications) a missing
                    ((eq_iff name name).1 refl)),
              refl,
            )
        | inr (a, found) ↦ (a, later s, known_application name a s found, found, refl)
      ]

  event-IsFound :
      (app : Application) (payload : EventCreate) (s : Session p)
      → IsUnused s
      → find_by (has_name payload.application_name) (p.tables.rows s.view.applications) ≡ some app
      → (e : Event) × (dup : Bool) × (s' : Session p) × (find_or_create_event p
            (quiet p)
            app
            payload
            s
          ≡ (ok (e, dup), s'))
        × IsFound payload app e s'
  event-IsFound app payload s unused here =
      let key = has_key app.id payload.idempotency_key in
      elim (Option-cases (find_by key (p.tables.rows s.view.events))) [
        | inl missing ↦
            let e = made_event app payload s in
            (
              e,
              false,
              with_event e s,
              new_event_lem app payload s unused missing,
              record {
                application = here;
                event = rw (p.tables.rows-add e s.view.events) (
                    find_by-append key (p.tables.rows s.view.events) e missing (
                      ground (
                        arith,
                        (==_iff app.id app.id).1 refl,
                        (eq_iff payload.idempotency_key payload.idempotency_key).1 refl,
                      )));
              },
            )
        | inr (e, found) ↦ (
          e,
          true,
          later s,
          known_event app payload e s found,
          record { application = here; event = found },
        )
      ]

  -- A payload whose event is there gives that event, as a duplicate, and writes nothing.
  found_again :
      (payload : EventCreate) (a : Application) (e : Event) (s : Session p)
      → IsFound payload a e s
      → get_or_create_event p (quiet p) payload s ≡ (ok (e, true), later (later s))
  unfolding get_or_create_event
  found_again payload a e s h = ground (
    arith,
    known_application payload.application_name a s h.application,
    known_event a payload e (later s) h.event,
  )

  -- While no other session writes, and no identifier still to be drawn is that of an event, a payload
  -- always gives an event; sent again, it gives the same
  -- event, marked as a duplicate, and neither the committed rows nor those that the session sees change.
  pub get_or_create_event_twice :
      (payload : EventCreate) (s : Session p)
      → IsUnused s
      → (e : Event) × (dup : Bool) × (let (first, s') = get_or_create_event p (quiet p) payload s in
          let (second, s'') = get_or_create_event p (quiet p) payload s' in
          (first ≡ ok (e, dup))
          × (second ≡ ok (e, true))
          × (s''.committed ≡ s'.committed)
          × (s''.view ≡ s'.view))
  unfolding get_or_create_event
  get_or_create_event_twice payload s unused =
      let (a, s1, app, here, rows) = application_found payload.application_name s in
      let unused' : IsUnused s1 = λ k. rw rows (unused k) in
      let (e, dup, s2, event, found) = event-IsFound a payload s1 unused' here in
      let first : get_or_create_event p (quiet p) payload s ≡ (ok (e, dup), s2) =
        ground (arith, app, event) in
      let second = found_again payload a e s2 found in
      (
        e,
        dup,
        (
          ground (arith, first),
          ground (arith, first, second),
          ground (arith, first, second),
          ground (arith, first, second),
        ),
      )
