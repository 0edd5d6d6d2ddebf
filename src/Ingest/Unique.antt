-- ===== src/Ingest/Unique.antt =====
-- No application has two events with one key, whatever the sessions do between the statements.
use replay_forge.Base.{
  ℕ, ◌≤◌, ◌≡◌, subst, String, true, false, Option, none, some, arith, List, [], ◌∷◌, ◌++◌, count_by,
  count_by-append, ◌==◌, eq_iff, Option-cases, Bool-cases, inl, inr,
}
use replay_forge.Models.{Application, Event, has_key, has_name}
use replay_forge.Service.Tables.{Db}
use replay_forge.Service.World.{Platform, M, pure}
use replay_forge.Service.Hoare.{Preserves, Preserves-bind, Preserves-if}
use replay_forge.Ingest.{
  EventCreate, Session, meanwhile, reading, commit_view, reread_application, create_application,
  reread_event, rollback, select_application, select_event, select_row, row_or_raise, refresh, one,
  flush_application, flush_event, get_or_create_application, new_event, create_event,
  find_or_create_event, get_or_create_event,
}

-- No key of an application has two rows.
abbrev pub UniqueKeys : (p : Platform) → Db p.tables → Type 0
UniqueKeys p d = (app : ℕ) (key : String) → count_by (has_key app key) (p.tables.rows d.events) ≤ 1

pub record IsUnique {p : Platform} (s : Session p) : Type 0 where
  pub committed : UniqueKeys p s.committed
  pub view : UniqueKeys p s.view

has_key-true :
    (e : Event) (app : ℕ) (key : String)
    → has_key app key e ≡ true
    → (e.application_id ≡ app) × (e.idempotency_key ≡ key)
has_key-true e app key h = ground (arith, eq_iff e.idempotency_key key)

-- A row that is added where its key is free leaves every key at most once.
count_by-add_free :
    (rows : List Event) (e : Event) (app : ℕ) (key : String)
    → count_by (has_key app key) rows ≤ 1
    → (count_by (has_key e.application_id e.idempotency_key) rows == 0) ≡ true
    → count_by (has_key app key) (rows ++ e ∷ []) ≤ 1
count_by-add_free rows e app key h free = elim (Bool-cases (has_key app key e)) [
  | inl same ↦
      let (a, k) = has_key-true e app key same in
      let free' : (count_by (has_key app key) rows == 0) ≡ true =
        subst (λ t. (count_by (has_key app t) rows == 0) ≡ true) k
          (subst (λ n. (count_by (has_key n e.idempotency_key) rows == 0) ≡ true) a free) in
      ground (arith, count_by-append (has_key app key) rows (e ∷ []))
  | inr other ↦ ground (arith, count_by-append (has_key app key) rows (e ∷ []))
]

module _ (p : Platform) (others : ℕ → Db p.tables → Db p.tables)
    (others_unique : (k : ℕ) (d : Db p.tables) → UniqueKeys p d → UniqueKeys p (others k d)) where
  pub meanwhile-IsUnique : Preserves IsUnique (meanwhile p others)
  unfolding meanwhile
  meanwhile-IsUnique = record {
    run = λ s h. record {
      committed = others_unique s.tick s.committed h.committed;
      view = others_unique s.tick s.view h.view;
    };
  }

  flush_event-IsUnique : (e : Event) → Preserves IsUnique (flush_event p others e)
  unfolding flush_event
  flush_event-IsUnique e = record {
    run = λ s h.
        let free = has_key e.application_id e.idempotency_key in
        elim (Bool-cases (count_by free (p.tables.rows s.view.events) == 0)) [
          | inl yes_free ↦
              rw (p.tables.add_unique-free free e s.view.events yes_free, flush_event)
                (record {
                  committed = h.committed;
                  view = λ app key. rw (p.tables.rows-add e s.view.events) (
                      count_by-add_free (p.tables.rows s.view.events) e app key (h.view app key)
                        yes_free);
                })
          | inr taken ↦ rw (p.tables.add_unique-taken free e s.view.events taken, flush_event) h
        ];
  }

  flush_application-IsUnique : (a : Application) → Preserves IsUnique (flush_application p others a)
  unfolding flush_application
  flush_application-IsUnique a = record {
    run = λ s h. elim (Option-cases (p.tables.add_unique (has_name a.name) a s.view.applications)) [
      | inl taken ↦ rw (taken, flush_application) h
      | inr (t, added) ↦
          rw (added, flush_application) (record { committed = h.committed; view = h.view })
    ];
  }

  one-IsUnique : {A : Type 0} (o : Option A) → Preserves IsUnique (one p others o)
  one-IsUnique none = record { run = λ s h. h }
  one-IsUnique (some a) = record { run = λ s h. h }

  rollback-IsUnique : Preserves IsUnique (rollback p others)
  rollback-IsUnique = record { run = λ s h. record { committed = h.committed; view = h.committed } }

  select_event-IsUnique :
      (app : ℕ) (key : String) → Preserves IsUnique (select_event p others app key)
  unfolding select_event
  select_event-IsUnique app key = record { run = λ s h. h }

  select_row-IsUnique : (id : ℕ) → Preserves IsUnique (select_row p others id)
  unfolding select_row
  select_row-IsUnique id = record { run = λ s h. h }

  select_application-IsUnique :
      (name : String) → Preserves IsUnique (select_application p others name)
  unfolding select_application
  select_application-IsUnique name = record { run = λ s h. h }

  found_or :
      {A B : Type 0} {m : M (Session p) B} {f : A → M (Session p) B} (o : Option A)
      → Preserves IsUnique m
      → ((a : A) → Preserves IsUnique (f a))
      → Preserves IsUnique (elim o [ some a ↦ f a | none ↦ m ])
  found_or none hm hf = hm
  found_or (some a) hm hf = hf a

  pub reading-IsUnique : (f : ℕ → ℕ) → Preserves IsUnique (reading p others f)
  reading-IsUnique f = record { run = λ s h. record { committed = h.committed; view = h.view } }

  pub commit_view-IsUnique : Preserves IsUnique (commit_view p others)
  commit_view-IsUnique = record { run = λ s h. record { committed = h.view; view = h.view } }

  pub pure-IsUnique : {A : Type 0} (a : A) → Preserves IsUnique (pure {W = Session p} a)
  pure-IsUnique a = record { run = λ s h. h }

  row-IsUnique : (o : Option Event) → Preserves IsUnique (row_or_raise p others o)
  row-IsUnique none = record { run = λ s h. h }
  row-IsUnique (some e) = record { run = λ s h. h }

  reread_application-IsUnique :
      (name : String) → Preserves IsUnique (reread_application p others name)
  unfolding reread_application
  reread_application-IsUnique name = Preserves-bind rollback-IsUnique (λ _.
      Preserves-bind meanwhile-IsUnique
        (λ _. Preserves-bind (select_application-IsUnique name) one-IsUnique))

  create_application-IsUnique :
      (name : String) → Preserves IsUnique (create_application p others name)
  unfolding create_application
  create_application-IsUnique name = Preserves-bind (reading-IsUnique p.uuid4) (λ id.
      Preserves-bind (reading-IsUnique p.clock) (λ created. Preserves-bind meanwhile-IsUnique (λ _.
        let app : Application = record { id = id; name = name; created_at = created } in
        Preserves-bind (flush_application-IsUnique app) (λ flushed.
          Preserves-if flushed (pure-IsUnique app) (reread_application-IsUnique name)))))

  get_or_create_application-IsUnique :
      (name : String) → Preserves IsUnique (get_or_create_application p others name)
  unfolding get_or_create_application
  get_or_create_application-IsUnique name = Preserves-bind meanwhile-IsUnique (λ _.
      Preserves-bind (select_application-IsUnique name)
        (λ found. found_or found (create_application-IsUnique name) (λ app. pure-IsUnique app)))

  pub refresh-IsUnique : (id : ℕ) → Preserves IsUnique (refresh p others id)
  unfolding refresh
  refresh-IsUnique id =
      Preserves-bind meanwhile-IsUnique (λ _. Preserves-bind (select_row-IsUnique id) row-IsUnique)

  reread_event-IsUnique :
      (app : ℕ) (key : String) → Preserves IsUnique (reread_event p others app key)
  unfolding reread_event
  reread_event-IsUnique app key = Preserves-bind rollback-IsUnique (λ _.
      Preserves-bind meanwhile-IsUnique (λ _.
        Preserves-bind (select_event-IsUnique app key) (λ again.
          Preserves-bind (one-IsUnique again) (λ existing. pure-IsUnique (existing, true)))))

  create_event-IsUnique :
      (app : Application) (payload : EventCreate)
      → Preserves IsUnique (create_event p others app payload)
  unfolding create_event
  create_event-IsUnique app payload = Preserves-bind (reading-IsUnique p.uuid4) (λ id.
      Preserves-bind (reading-IsUnique p.clock) (λ created. Preserves-bind meanwhile-IsUnique (λ _.
        let e = new_event p others app payload id created in
        Preserves-bind (flush_event-IsUnique e) (λ flushed.
          Preserves-if flushed
            (Preserves-bind commit_view-IsUnique
              (λ _. Preserves-bind (refresh-IsUnique id) (λ event. pure-IsUnique (event, false))))
            (reread_event-IsUnique app.id payload.idempotency_key)))))

  get_or_create_event-Preserves :
      (payload : EventCreate) → Preserves IsUnique (get_or_create_event p others payload)
  unfolding get_or_create_event find_or_create_event
  get_or_create_event-Preserves payload =
      Preserves-bind (get_or_create_application-IsUnique payload.application_name) (λ app.
        Preserves-bind meanwhile-IsUnique (λ _.
          Preserves-bind (select_event-IsUnique app.id payload.idempotency_key) (λ found.
            found_or found (create_event-IsUnique app payload)
              (λ existing. pure-IsUnique (existing, true)))))

  -- No application ever has two events with one key: neither among the committed rows nor among those
  -- that the session sees, if the other sessions keep to the same rule, whatever they commit between
  -- the statements and however the call ends.
  pub get_or_create_event-IsUnique :
      (payload : EventCreate) (s : Session p)
      → IsUnique s
      → IsUnique (get_or_create_event p others payload s).1
  get_or_create_event-IsUnique payload = (get_or_create_event-Preserves payload).run
