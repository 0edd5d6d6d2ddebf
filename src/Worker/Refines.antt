-- ===== src/Worker/Refines.antt =====
-- The worker's steps on the rows, against the state machine of Lifecycle.
use replay_forge.Base.{
  ℕ, ◌+◌, ◌≡◌, refl, sym, subst, ◌∙◌, inl, inr, false, List, [], ◌∷◌, Option, none, some, arith,
  find_by, find_by-update_by, find_by_sound, update_by, ◌==◌, ==_iff, leb, Bool-cases, Option-cases,
}
use replay_forge.Models.{Status, Event, Worker, is_event}
use replay_forge.Service.Redis.{Stream}
use replay_forge.Service.World.{Platform, World, Error, held_or, call_redis, ◌>>◌}
use replay_forge.Service.Hoare.{Takes, Keeps, takes-bind, takes-catch}
use replay_forge.Retry.{should_dead_letter}
use replay_forge.Lifecycle.{
  life, Step, begin, succeed, retry, bury, Reach, here, next, IsTried, IsOver, Reach-IsOver,
}
use replay_forge.Worker.Failure.{
  handle_failure-Failed, handle_success-Succeeded, process_event_stub_reads,
}
use replay_forge.Worker.Dispatch.{handle_message_missing, handle_message_final, handle_message_open}
use replay_forge.Worker.{
  is_final, marked, processing_event, process_event_stub, handle_success, handle_failure, try_block,
  attempt_event, handle_message, handle_messages,
}

some_inj : {a b : Event} → Path (Option Event) (some a) (some b) → a ≡ b
some_inj h = cc

find_by-other :
    (k id : ℕ) (after : Event) (rows : List Event)
    → after.id ≡ id
    → (id == k) ≡ false
    → find_by (is_event k) (update_by (λ r. r.id == id) (λ _. after) rows)
      ≡ find_by (is_event k) rows
find_by-other k id after [] same other = refl
find_by-other k id after (r ∷ rows) same other =
    ground (arith, ==_iff r.id id, find_by-other k id after rows same other)

module _ (p : Platform) (start : List Event) where
  abbrev row_of : ℕ → World p → Option Event
  row_of k w = find_by (is_event k) (p.tables.rows w.db.events)

  -- Every event that was there at the start is there, and has come to its state by steps.
  abbrev AllReach : World p → Type 0
  AllReach w =
      (k : ℕ) (row : Event)
      → find_by (is_event k) start ≡ some row
      → (now : Event) × (row_of k w ≡ some now) × Reach (life row) (life now)

  -- The object that the session holds is its row.
  abbrev HeldIsRow : World p → Type 0
  HeldIsRow w = (e : Event) → w.held ≡ some e → row_of e.id w ≡ some e

  abbrev Good : World p → Type 0
  Good w = AllReach w × HeldIsRow w

  -- The row of the event at hand is held, with its count and limit and an attempt under way.
  abbrev IsAtHand : Event → World p → Type 0
  IsAtHand e w =
      (r : Event) × (row_of e.id w ≡ some r)
      × (w.held ≡ some r)
      × (r.id ≡ e.id)
      × (r.attempt_count ≡ e.attempt_count)
      × (r.max_attempts ≡ e.max_attempts)
      × IsTried r.status

  abbrev AtHand : Event → World p → Type 0
  AtHand e w = AllReach w × IsAtHand e w

  -- A new version of one row, by a step.
  replaced-Good :
      (w w' : World p) (e r after : Event)
      → AllReach w
      → row_of e.id w ≡ some r
      → after.id ≡ e.id
      → Step (life r) (life after)
      → p.tables.rows w'.db.events
        ≡ update_by (λ x. x.id == e.id) (λ _. after) (p.tables.rows w.db.events)
      → w'.held ≡ some after
      → Good w' × (row_of e.id w' ≡ some after)
  replaced-Good w w' e r after all found same step rows held =
      let there : row_of e.id w' ≡ some after = rw rows (
        find_by-update_by (is_event e.id) after (p.tables.rows w.db.events) {x = r}
          ((==_iff _ _).1 same) found) in
      (
        (
          (λ k row first.
              let (now, at, r1) = all k row first in
              elim (Bool-cases (e.id == k)) [
                | inl mine ↦
                    let k' : e.id ≡ k = (==_iff _ _).0 mine in
                    let was : r ≡ now =
                      some_inj (sym found ∙ subst (λ n. row_of n w ≡ some now) (sym k') at) in
                    (
                      after,
                      rw (← k') there,
                      next r1 (subst (λ x. Step (life x) (life after)) was step),
                    )
                | inr other ↦ (
                  now,
                  rw (rows, find_by-other k e.id after (p.tables.rows w.db.events) same other) at,
                  r1,
                )
              ]),
          λ x hx.
              subst (λ y. row_of y.id w' ≡ some y) (some_inj (sym held ∙ hx))
                (subst (λ n. row_of n w' ≡ some after) (sym same) there),
        ),
        there,
      )

  handle_success-Takes :
      (e : Event) (worker : Worker) (n t : ℕ)
      → e.status ≡ Status.processing
      → Takes
          (λ w. AtHand e w × (row_of e.id w ≡ some e))
          (handle_success p e worker n t)
          (AtHand e)
  handle_success-Takes e worker n t processing w ((all, r), now_row) =
      let s = handle_success-Succeeded p e worker n t w in
      let (good, there) =
        replaced-Good w (handle_success p e worker n t w).1 e e s.after all now_row s.id
          (succeed processing s.status (s.counted, s.limit)) s.events s.held in
      (good.0, (s.after, there, s.held, s.id, s.counted, s.limit, inr s.status))

  handle_failure-Takes :
      (e : Event) (worker : Worker) (n t : ℕ) (error : Error)
      → Takes (AtHand e) (handle_failure p e worker n t error) Good
  unfolding should_dead_letter
  handle_failure-Takes e worker n t error w (all, (r, found, held, same, count, limit, tried)) =
      let f = handle_failure-Failed p e worker n t error w in
      let counted : f.after.attempt_count ≡ r.attempt_count + 1 = rw count f.counted in
      let limited : f.after.max_attempts ≡ r.max_attempts = rw limit f.limit in
      let step : Step (life r) (life f.after) =
        elim (Bool-cases (leb e.max_attempts (e.attempt_count + 1))) [
          | inl dead ↦
              bury tried (rw (count, limit) (ground arith)) (rw dead at f.status) (counted, limited)
          | inr alive ↦
              retry tried (rw (count, limit) (ground arith)) (rw alive at f.status)
                (counted, limited)
        ] in
      (replaced-Good w (handle_failure p e worker n t error w).1 e r f.after all found f.id step
        f.events f.held).0

  call_redis-Keeps :
      (f : p.redis.Server → Option p.redis.Server) (e : Event) → Keeps (AtHand e) (call_redis p f)
  call_redis-Keeps f e w (all, hand) =
      let db : (call_redis p f w).1.db ≡ w.db = ground arith in
      let held : (call_redis p f w).1.held ≡ w.held = ground arith in rw (db, held) (all, hand)

  call_redis-Good : (f : p.redis.Server → Option p.redis.Server) → Keeps Good (call_redis p f)
  call_redis-Good f w (all, hand) =
      let db : (call_redis p f w).1.db ≡ w.db = ground arith in
      let held : (call_redis p f w).1.held ≡ w.held = ground arith in rw (db, held) (all, hand)

  AtHand-Good : (e : Event) (w : World p) → AtHand e w → Good w
  AtHand-Good e w (all, (r, found, held, same, count, limit, tried)) = (
    all,
    λ x hx.
        subst (λ y. row_of y.id w ≡ some y) (some_inj (sym held ∙ hx))
          (subst (λ n. row_of n w ≡ some r) (sym same) found),
  )

  try_block-Takes :
      (worker : Worker) (s : Stream) (msg_id : ℕ) (e : Event) (n t : ℕ)
      → e.status ≡ Status.processing
      → Takes (λ w. AtHand e w × (row_of e.id w ≡ some e)) (try_block p worker s msg_id e n t) Good
  unfolding try_block
  try_block-Takes worker s msg_id e n t processing =
      let ack = p.redis.xack s msg_id in
      let Begun = λ (w : World p). AtHand e w × (row_of e.id w ≡ some e) in
      takes-catch {Q = AtHand e}
        (do process_event_stub p e; handle_success p e worker n t; call_redis p ack)
        (λ error. do handle_failure p e worker n t error; call_redis p ack) (AtHand-Good e)
        (takes-bind {Q = Begun} (process_event_stub p e)
          (λ _. do handle_success p e worker n t; call_redis p ack) (λ w h. h.0)
          (λ w h. rw (process_event_stub_reads p e w) h)
          (λ _.
            takes-bind {Q = AtHand e} (handle_success p e worker n t) (λ _. call_redis p ack)
              (λ w h. h) (handle_success-Takes e worker n t processing)
              (λ _. call_redis-Keeps ack e)))
        (λ error.
          takes-bind {Q = Good} (handle_failure p e worker n t error) (λ _. call_redis p ack)
            (λ w h. h) (handle_failure-Takes e worker n t error) (λ _. call_redis-Good ack))

  attempt_event-Takes :
      (worker : Worker) (s : Stream) (msg_id : ℕ) (e : Event)
      → is_final e.status ≡ false
      → Takes (λ w. AllReach w × (row_of e.id w ≡ some e)) (attempt_event p worker s msg_id e) Good
  unfolding attempt_event
  attempt_event-Takes worker s msg_id e open_event w (all, found) =
      let e' = processing_event e (p.clock (w.tick + 1)) in
      let (good, there) =
        replaced-Good w (marked p e w) e e e' all found refl (begin open_event refl (refl, refl))
          (p.tables.rows-update _ _ _) refl in
      try_block-Takes worker s msg_id e' (e.attempt_count + 1) (p.clock w.tick) refl (marked p e w)
        ((good.0, (e', there, refl, refl, refl, refl, inl refl)), there)

  -- The held object is the row, so that the object that is loaded is.
  held_or-row :
      (id : ℕ) (w : World p) (row : Event)
      → HeldIsRow w
      → row_of id w ≡ some row
      → held_or p w.held row ≡ row
  held_or-row id w row hand found = elim (Option-cases w.held) [
    | inl nothing ↦ rw nothing refl
    | inr (e, held) ↦ elim (Bool-cases (e.id == row.id)) [
      | inr other ↦ rw (held, other) refl
      | inl mine ↦
          let row_id : row.id ≡ id = (==_iff _ _).0 (find_by_sound (is_event id) _ found) in
          let e_id : e.id ≡ id = (==_iff _ _).0 mine ∙ row_id in
          rw (held, mine)
            (some_inj (sym (hand e held) ∙ subst (λ n. row_of n w ≡ some row) (sym e_id) found))
    ]
  ]

  handle_message-Good :
      (worker : Worker) (s : Stream) (msg_id : ℕ) (event_id : Option ℕ)
      → Keeps Good (handle_message p worker s msg_id event_id)
  unfolding handle_message
  handle_message-Good worker s msg_id none w h = call_redis-Good (p.redis.xack s msg_id) w h
  handle_message-Good worker s msg_id (some id) w h = elim (Option-cases (row_of id w)) [
    | inl missing ↦
        rw (handle_message_missing p worker s msg_id id w missing)
          (call_redis-Good (p.redis.xack s msg_id) (record w { held = none }) (h.0, λ x hx. cc))
    | inr (row, found) ↦
        let e = held_or p w.held row in
        let same : e ≡ row = held_or-row id w row h.1 found in
        let v = record w { held = some e } in
        let id_of : id ≡ row.id = sym ((==_iff _ _).0 (find_by_sound (is_event id) _ found)) in
        let own : row_of e.id w ≡ some e =
          rw same (subst (λ n. row_of n w ≡ some row) id_of found) in
        elim (Bool-cases (is_final e.status)) [
          | inl final ↦ rw (handle_message_final p worker s msg_id id w row found final) (
              call_redis-Good (p.redis.xack s msg_id) v
                (h.0, λ x hx. subst (λ y. row_of y.id w ≡ some y) (some_inj hx) own))
          | inr open_event ↦
              rw (handle_message_open p worker s msg_id id w row found open_event)
                (attempt_event-Takes worker s msg_id e open_event v (h.0, own))
        ]
  ]

  handle_messages-Good :
      (worker : Worker) (s : Stream) (msgs : List (ℕ × Option ℕ))
      → Keeps Good (handle_messages p worker s msgs)
  unfolding handle_messages
  handle_messages-Good worker s [] w h = h
  handle_messages-Good worker s ((msg_id, event_id) ∷ rest) w h =
      takes-bind {Q = Good} (handle_message p worker s msg_id event_id)
        (λ _. handle_messages p worker s rest) (λ v k. k)
        (handle_message-Good worker s msg_id event_id) (λ _. handle_messages-Good worker s rest) w h

-- The worker implements the state machine: when a batch of messages has been handled, however that
-- ended, every event that was there is there, and its status, failed attempts and limit come from
-- those before by steps of Lifecycle; an event that was dead-lettered or cancelled has the same
-- ones as before. The object that the session holds is the row of its event, before and after.
pub handle_messages-Reach :
    (p : Platform) (worker : Worker) (s : Stream) (msgs : List (ℕ × Option ℕ)) (w : World p)
    → ((e : Event) → w.held ≡ some e → find_by (is_event e.id) (p.tables.rows w.db.events) ≡ some e)
    → let w' = (handle_messages p worker s msgs w).1 in
      ((k : ℕ) (row : Event)
        → find_by (is_event k) (p.tables.rows w.db.events) ≡ some row
        → (now : Event) × (find_by (is_event k) (p.tables.rows w'.db.events) ≡ some now)
          × Reach (life row) (life now)
          × (IsOver row.status → life now ≡ life row))
      × ((e : Event)
          → w'.held ≡ some e
          → find_by (is_event e.id) (p.tables.rows w'.db.events) ≡ some e)
handle_messages-Reach p worker s msgs w hand =
    let good =
      handle_messages-Good p (p.tables.rows w.db.events) worker s msgs w
        ((λ k row found. (row, found, here)), hand) in
    (
      (λ k row found.
          let (now, at, r) = good.0 k row found in
          (now, at, r, λ over. Reach-IsOver {a = life row} {b = life now} r over)),
      good.1,
    )
