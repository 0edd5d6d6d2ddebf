-- ===== src/Ingest/Kept.antt =====
-- The endpoint for events keeps the keys of the rows apart.
use replay_forge.Base.{
  ℕ, ◌≡◌, refl, Bool, arith, count_by-update_by, ◌==◌, Option-cases, Bool-cases, inl, inr,
}
use replay_forge.Models.{Status, Event, has_key, status_eq}
use replay_forge.Service.Tables.{Db}
use replay_forge.Service.Redis.{Stream}
use replay_forge.Service.World.{Platform, Error, catch, skip}
use replay_forge.Service.Hoare.{Preserves, Preserves-bind, Preserves-if, takes-catch}
use replay_forge.Ingest.{EventCreate, Session, Statement}
use replay_forge.Ingest.Queued.{incoming_message}
use replay_forge.Ingest.Unique.{
  UniqueKeys, IsUnique, meanwhile-IsUnique, reading-IsUnique, commit_view-IsUnique, pure-IsUnique,
  refresh-IsUnique, get_or_create_event-IsUnique,
}
use replay_forge.Ingest.Publish.{
  Backend, should_publish, append_event_to_backend, queue, write_queued, write_status, set_queued,
  publish_event, settle_event, ingest_event,
}

-- The rows are not the backend's.
append-IsUnique :
    (p : Platform) (others : ℕ → Db p.tables → Db p.tables) (b : Backend) (e : Event)
    (payload : EventCreate)
    → Preserves IsUnique (append_event_to_backend p others b e payload)
unfolding append_event_to_backend
append-IsUnique p others Backend.redis e payload = record {
  run = λ s h. elim (Option-cases (p.redis.xadd Stream.incoming (incoming_message e.id) s.redis)) [
    | inl down ↦
        let same : (append_event_to_backend p others Backend.redis e payload s).1 ≡ s =
          ground arith in
        rw same h
    | inr (r, added) ↦
        let moved : (append_event_to_backend p others Backend.redis e payload s).1
            ≡ record s { redis = r } =
          ground arith in
        rw moved (record { committed = h.committed; view = h.view })
  ];
}
append-IsUnique p others (Backend.forgelog accepts) e payload = record {
  run = λ s h. elim (Bool-cases (accepts e payload)) [
    | inl fine ↦ rw fine h
    | inr refused ↦ rw refused h
  ];
}

module _ (p : Platform) (others : ℕ → Db p.tables → Db p.tables)
    (others_unique : (k : ℕ) (d : Db p.tables) → UniqueKeys p d → UniqueKeys p (others k d))
    (backend : Backend) where
  write_queued-IsUnique :
      (id updated : ℕ) → Preserves IsUnique (write_queued p others backend id updated)
  write_queued-IsUnique id updated = record {
    run = λ s h. record {
      committed = h.committed;
      view = λ app key.
          rw
            (p.tables.rows-update (λ (r : Event). r.id == id) (queue p others backend updated)
              s.view.events)
            (rw
              (count_by-update_by (has_key app key) (λ r. r.id == id)
                (queue p others backend updated) (λ r. refl) (p.tables.rows s.view.events))
              (h.view app key));
    };
  }

  write_status-IsUnique : (e : Event) → Preserves IsUnique (write_status p others backend e)
  unfolding write_status
  write_status-IsUnique e =
      Preserves-if (status_eq e.status Status.queued) (pure-IsUnique p others others_unique tt) (
        Preserves-bind (reading-IsUnique p others others_unique p.clock) (λ updated.
          Preserves-bind (meanwhile-IsUnique p others others_unique) (λ _.
            Preserves-bind (write_queued-IsUnique e.id updated)
              (λ _. commit_view-IsUnique p others others_unique))))

  set_queued-IsUnique : (e : Event) → Preserves IsUnique (set_queued p others backend e)
  unfolding set_queued
  set_queued-IsUnique e =
      Preserves-bind (write_status-IsUnique e) (λ _. refresh-IsUnique p others others_unique e.id)

  catch-IsUnique :
      {A : Type 0} (m : Statement p others A) (h : Error → Statement p others A)
      → Preserves IsUnique m
      → ((e : Error) → Preserves IsUnique (h e))
      → Preserves IsUnique (catch m h)
  catch-IsUnique m h hm hh = record {
    run = takes-catch {Q = IsUnique} m h (λ _ q. q) hm.run (λ e. (hh e).run);
  }

  publish_event-IsUnique :
      (e : Event) (payload : EventCreate)
      → Preserves IsUnique (publish_event p others backend e payload)
  unfolding publish_event
  publish_event-IsUnique e payload = Preserves-bind (set_queued-IsUnique e) (λ queued.
      Preserves-bind
        (catch-IsUnique (append_event_to_backend p others backend queued payload) (λ error. skip)
          (append-IsUnique p others backend queued payload)
          (λ error. pure-IsUnique p others others_unique tt))
        (λ _. pure-IsUnique p others others_unique queued))

  settle_event-IsUnique :
      (e : Event) (duplicate : Bool) (payload : EventCreate)
      → Preserves IsUnique (settle_event p others backend e duplicate payload)
  unfolding settle_event
  settle_event-IsUnique e duplicate payload =
      Preserves-if (should_publish e duplicate) (publish_event-IsUnique e payload) (
        Preserves-if (status_eq e.status Status.received) (set_queued-IsUnique e)
          (pure-IsUnique p others others_unique e))

  ingest_event-Preserves :
      (payload : EventCreate) → Preserves IsUnique (ingest_event p others backend payload)
  unfolding ingest_event
  ingest_event-Preserves payload =
      Preserves-bind (record { run = get_or_create_event-IsUnique p others others_unique payload })
        (λ found. Preserves-bind (settle_event-IsUnique found.0 found.1 payload) (λ settled.
          pure-IsUnique p others others_unique (record { event = settled; duplicate = found.1 })))

  -- The endpoint never leaves two events with one key for an application, whatever the other sessions
  -- commit between the statements, if they keep to the same rule, and whether or not the backend takes
  -- the event.
  pub ingest_event-IsUnique :
      (payload : EventCreate) (s : Session p)
      → IsUnique s
      → IsUnique (ingest_event p others backend payload s).1
  ingest_event-IsUnique payload = (ingest_event-Preserves payload).run
