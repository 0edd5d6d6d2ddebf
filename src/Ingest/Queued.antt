-- ===== src/Ingest/Queued.antt =====
-- What the endpoint for events answers and publishes.
use replay_forge.Base.{
  ℕ, ◌≡◌, refl, Bool, true, none, some, arith, ==_iff, find_by, find_by-update, head?-keep, ◌∙◌,
  ◌+◌, Option-cases, Bool-cases, inl, inr,
}
use replay_forge.Models.{Status, Event, is_event, status_eq, status_eq_sound}
use replay_forge.Service.Tables.{Db}
use replay_forge.Service.Redis.{Stream, Message}
use replay_forge.Service.World.{Platform, ok}
use replay_forge.Ingest.{
  EventCreate, Session, meanwhile, commit_view, select_row, refresh, get_or_create_event,
}
use replay_forge.Ingest.Publish.{
  Backend, should_publish, append_event_to_backend, queue, write_queued, write_status, set_queued,
  publish_event, settle_event, ingest_event,
}

abbrev pub incoming_message : ℕ → Message
incoming_message id = record { event_id = some id; reason = none }

-- What the incoming stream is after the attempt to publish.
abbrev pub after_publish : (p : Platform) → ℕ → p.redis.Server → p.redis.Server
after_publish p id r = elim (p.redis.xadd Stream.incoming (incoming_message id) r) [
  | none ↦ r
  | some r' ↦ r'
]

module _ (p : Platform) (others : ℕ → Db p.tables → Db p.tables) where
  -- What the other sessions commit leaves the row of this event.
  abbrev pub LeavesRow : ℕ → Type 0
  LeavesRow id =
      (k : ℕ) (d : Db p.tables)
      → find_by (is_event id) (p.tables.rows (others k d).events)
        ≡ find_by (is_event id) (p.tables.rows d.events)

  refresh_row :
      (e : Event) (s : Session p)
      → LeavesRow e.id
      → find_by (is_event e.id) (p.tables.rows s.view.events) ≡ some e
      → (s' : Session p) × (refresh p others e.id s ≡ (ok e, s')) × (s'.redis ≡ s.redis)
  unfolding refresh select_row meanwhile
  refresh_row e s leaves found = (
    (meanwhile p others s).1,
    ground (
      arith,
      p.tables.select-rows (is_event e.id) (others s.tick s.view).events,
      head?-keep (is_event e.id) (p.tables.rows (others s.tick s.view).events),
      leaves s.tick s.view,
    ),
    refl,
  )

  -- The row of an event that is written as queued.
  queued_row :
      (updated : ℕ) (e : Event) (s : Session p)
      → find_by (is_event e.id) (p.tables.rows s.view.events) ≡ some e
      → find_by
          (is_event e.id)
          (p.tables.rows (write_queued p others Backend.redis e.id updated s).1.view.events)
        ≡ some (queue p others Backend.redis updated e)
  queued_row updated e s found =
      let q = queue p others Backend.redis updated in
      let moved =
        find_by-update (is_event e.id) (is_event e.id) q (λ r. refl) (p.tables.rows s.view.events)
          found in
      rw (p.tables.rows-update (is_event e.id) q s.view.events)
        (ground (arith, (==_iff e.id e.id).1 refl, moved))

  -- The session once the status is written.
  abbrev written : Event → Session p → Session p
  written e s =
      (commit_view p others
        (write_queued p others Backend.redis e.id (p.clock s.tick)
          (meanwhile p others (record s { tick = s.tick + 1 })).1).1).1

  set_queued_lem :
      (e : Event) (s : Session p)
      → LeavesRow e.id
      → find_by (is_event e.id) (p.tables.rows s.view.events) ≡ some e
      → (q : Event) × (s' : Session p) × (set_queued p others Backend.redis e s ≡ (ok q, s'))
        × (q.id ≡ e.id)
        × (q.status ≡ Status.queued)
        × (s'.redis ≡ s.redis)
  unfolding set_queued write_status meanwhile
  set_queued_lem e s leaves found = elim (Bool-cases (status_eq e.status Status.queued)) [
    | inl already ↦
        let (s', read, redis) = refresh_row e s leaves found in
        (e, s', ground (arith, read), refl, status_eq_sound e.status Status.queued already, redis)
    | inr other ↦
        let s1 = (meanwhile p others (record s { tick = s.tick + 1 })).1 in
        let q = queue p others Backend.redis (p.clock s.tick) e in
        let row = queued_row (p.clock s.tick) e s1 (leaves (s.tick + 1) s.view ∙ found) in
        let (s', read, redis) = refresh_row q (written e s) leaves row in
        (q, s', ground (arith, read), refl, refl, redis ∙ refl)
  ]

  -- With the backend Redis: an event that is new, or comes again while it is still open, and whose row,
  -- found by its id, no other session changes meanwhile, is answered as queued, and one message for it
  -- is handed to the incoming stream; if Redis refuses it, the answer is the same.
  pub ingest_event-queued :
      (payload : EventCreate) (s s' : Session p) (e : Event) (duplicate : Bool)
      → get_or_create_event p others payload s ≡ (ok (e, duplicate), s')
      → LeavesRow e.id
      → find_by (is_event e.id) (p.tables.rows s'.view.events) ≡ some e
      → should_publish e duplicate ≡ true
      → (q : Event) × (s'' : Session p) × (ingest_event p others Backend.redis payload s
          ≡ (ok (record { event = q; duplicate = duplicate }), s''))
        × (q.id ≡ e.id)
        × (q.status ≡ Status.queued)
        × (s''.redis ≡ after_publish p e.id s'.redis)
  unfolding ingest_event settle_event publish_event append_event_to_backend
  ingest_event-queued payload s s' e duplicate stored leaves found pending =
      let (q, s2, queued, same, status, redis) = set_queued_lem e s' leaves found in
      elim (Option-cases (p.redis.xadd Stream.incoming (incoming_message q.id) s2.redis)) [
        | inl down ↦ (q, s2, ground arith, same, status, ground arith)
        | inr (r, added) ↦ (q, record s2 { redis = r }, ground arith, same, status, ground arith)
      ]
