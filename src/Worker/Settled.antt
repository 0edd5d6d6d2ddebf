-- ===== src/Worker/Settled.antt =====
-- The state in which a handled message leaves its event.
use replay_forge.Base.{
  ℕ, ◌+◌, ◌≤◌, ◌<◌, ◌≡◌, refl, ◌⊎◌, inl, inr, false, Option, some, arith, find_by,
  find_by-update_by, ◌==◌, ==_iff, leb, Bool-cases, Option-cases,
}
use replay_forge.Models.{Status, Event, Worker, is_event}
use replay_forge.Service.Redis.{Stream}
use replay_forge.Service.World.{Platform, World, Error, ok, held_or, call_redis, ◌>>◌}
use replay_forge.Service.Loading.{held_or-id}
use replay_forge.Service.Hoare.{Keeps, Ensures, takes-bind, ensures-bind, ensures-catch}
use replay_forge.Retry.{should_dead_letter}
use replay_forge.Worker.Failure.{
  handle_failure-Failed, handle_success-Succeeded, process_event_stub_reads,
}
use replay_forge.Worker.Dispatch.{handle_message_open}
use replay_forge.Worker.{
  is_final, marked, processing_event, process_event_stub, handle_success, handle_failure, try_block,
  attempt_event, handle_message,
}

-- The table has a row of the id.
abbrev pub HasRow : {p : Platform} → ℕ → World p → Type 0
HasRow {p} id w = (row : Event) × (find_by (is_event id) (p.tables.rows w.db.events) ≡ some row)

-- What has become of an event that had `c` failed attempts, of `m` at most: it has succeeded, or
-- has one more and is out of attempts, or has one more and waits in the sorted set for the time that
-- its row names.
abbrev pub HasOutcome : ℕ → ℕ → Option ℕ → Event → Type 0
HasOutcome c m score e =
    ((e.status ≡ Status.succeeded) × (e.attempt_count ≡ c))
    ⊎ ((e.status ≡ Status.dead_lettered) × (e.attempt_count ≡ c + 1) × (m ≤ c + 1))
    ⊎ ((e.status ≡ Status.retrying)
        × (e.attempt_count ≡ c + 1)
        × (c + 1 < m)
        × ((at : ℕ) × (e.next_retry_at ≡ some at) × (score ≡ some at)))

-- The row of the id has such an outcome, and is the object that the session holds.
abbrev pub IsSettled : {p : Platform} → ℕ → ℕ → ℕ → World p → Type 0
IsSettled {p} id c m w =
    (e : Event) × (find_by (is_event id) (p.tables.rows w.db.events) ≡ some e)
    × (w.held ≡ some e)
    × (e.max_attempts ≡ m)
    × HasOutcome c m (p.redis.score id w.redis) e

module _ (p : Platform) (worker : Worker) (e : Event) where
  handle_success-IsSettled :
      (n t : ℕ) (w : World p)
      → HasRow e.id w
      → IsSettled e.id e.attempt_count e.max_attempts (handle_success p e worker n t w).1
  handle_success-IsSettled n t w (row, found) =
      let s = handle_success-Succeeded p e worker n t w in
      (
        s.after,
        rw s.events (
            find_by-update_by (is_event e.id) s.after (p.tables.rows w.db.events)
              ((==_iff _ _).1 s.id) found),
        s.held,
        s.limit,
        inl (s.status, s.counted),
      )

  handle_failure-HasRow :
      (n t : ℕ) (error : Error) (w : World p)
      → HasRow e.id w
      → HasRow e.id (handle_failure p e worker n t error w).1
  handle_failure-HasRow n t error w (row, found) =
      let f = handle_failure-Failed p e worker n t error w in
      (
        f.after,
        rw f.events (
            find_by-update_by (is_event e.id) f.after (p.tables.rows w.db.events)
              ((==_iff _ _).1 f.id) found),
      )

  handle_failure-IsSettled :
      (n t : ℕ) (error : Error)
      → Ensures
          (HasRow {p = p} e.id)
          (handle_failure p e worker n t error)
          (IsSettled e.id e.attempt_count e.max_attempts)
  unfolding should_dead_letter
  handle_failure-IsSettled n t error w (row, found) a done =
      let f = handle_failure-Failed p e worker n t error w in
      (
        f.after,
        rw f.events (
            find_by-update_by (is_event e.id) f.after (p.tables.rows w.db.events)
              ((==_iff _ _).1 f.id) found),
        f.held,
        f.limit,
        elim (Bool-cases (leb e.max_attempts (e.attempt_count + 1))) [
          | inl dead ↦ inr (inl (rw dead at f.status, f.counted, ground arith))
          | inr alive ↦
              let retrying : f.after.status ≡ Status.retrying = rw alive at f.status in
              inr (inr (retrying, f.counted, ground arith, f.scheduled done retrying))
        ],
      )

  module _ (s : Stream) (msg_id : ℕ) where
    ack-score :
        (k : ℕ) (w : World p)
        → p.redis.score k (call_redis p (p.redis.xack s msg_id) w).1.redis ≡ p.redis.score k w.redis
    ack-score k w = elim (Option-cases (p.redis.xack s msg_id w.redis)) [
      | inl failed ↦ ground arith
      | inr (r, done) ↦ ground (arith, p.redis.xack-score s msg_id w.redis done k)
    ]

    ack-IsSettled :
        (c m : ℕ) → Keeps (IsSettled {p = p} e.id c m) (call_redis p (p.redis.xack s msg_id))
    ack-IsSettled c m w (after, found, held, limit, outcome) =
        let same : (call_redis p (p.redis.xack s msg_id) w).1.db ≡ w.db = ground arith in
        (after, rw same found, ground arith, limit, rw (ack-score e.id w) outcome)

    try_block-IsSettled :
        (n t : ℕ)
        → Ensures
            (HasRow {p = p} e.id)
            (try_block p worker s msg_id e n t)
            (IsSettled e.id e.attempt_count e.max_attempts)
    unfolding try_block
    try_block-IsSettled n t =
        let ack = p.redis.xack s msg_id in
        let Row = HasRow {p = p} e.id in
        let Settled = IsSettled {p = p} e.id e.attempt_count e.max_attempts in
        let acked =
          λ (v : World p) (h : Settled v) (a : Unit {0}) (_ : (call_redis p ack v).0 ≡ ok a).
            ack-IsSettled e.attempt_count e.max_attempts v h in
        ensures-catch Row Settled
          (do process_event_stub p e; handle_success p e worker n t; call_redis p ack)
          (λ error. do handle_failure p e worker n t error; call_redis p ack)
          (ensures-bind Row Settled (process_event_stub p e)
            (λ _. do handle_success p e worker n t; call_redis p ack)
            (λ v h _ _. rw (process_event_stub_reads p e v) h)
            (λ _.
              ensures-bind Settled Settled (handle_success p e worker n t) (λ _. call_redis p ack)
                (λ v h _ _. handle_success-IsSettled n t v h) (λ _. acked)))
          (takes-bind {Q = Row} (process_event_stub p e)
            (λ _. do handle_success p e worker n t; call_redis p ack) (λ _ h. h)
            (λ v h. rw (process_event_stub_reads p e v) h)
            (λ _.
              takes-bind {Q = Row} (handle_success p e worker n t) (λ _. call_redis p ack)
                (λ _ h. h)
                (λ v h.
                  let (after, found, _, _, _) = handle_success-IsSettled n t v h in (after, found))
                (λ _ v h.
                  let same : (call_redis p ack v).1.db ≡ v.db = ground arith in
                  (h.0, rw same h.1))))
          (λ error.
            ensures-bind Settled Settled (handle_failure p e worker n t error)
              (λ _. call_redis p ack) (handle_failure-IsSettled n t error) (λ _. acked))

-- The mark before an attempt keeps the row.
pub marked-HasRow :
    (p : Platform) (e : Event) (v : World p) → HasRow e.id v → HasRow e.id (marked p e v)
marked-HasRow p e v (row, found) =
    let e' = processing_event e (p.clock (v.tick + 1)) in
    (
      e',
      rw (p.tables.rows-update (λ r. r.id == e'.id) (λ _. e') v.db.events) (
          find_by-update_by (is_event e.id) e' (p.tables.rows v.db.events) {x = row}
            ((==_iff e.id e.id).1 refl) found),
    )

-- An event that is not final has been tried when its message has been handled with no exception: it
-- has succeeded, or has one more failed attempt and is dead-lettered if that was the last one, and
-- waits for its retry if not.
pub handle_message-IsSettled :
    (p : Platform) (worker : Worker) (s : Stream) (msg_id id : ℕ) (w : World p) (row : Event)
    → find_by (is_event id) (p.tables.rows w.db.events) ≡ some row
    → is_final (held_or p w.held row).status ≡ false
    → (handle_message p worker s msg_id (some id) w).0 ≡ ok tt
    → IsSettled id
        (held_or p w.held row).attempt_count
        (held_or p w.held row).max_attempts
        (handle_message p worker s msg_id (some id) w).1
unfolding attempt_event
handle_message-IsSettled p worker s msg_id id w row found open_event done =
    let e = held_or p w.held row in
    let same = handle_message_open p worker s msg_id id w row found open_event in
    let v = record w { held = some e } in
    let e' = processing_event e (p.clock (w.tick + 1)) in
    let same_id : e.id ≡ id = held_or-id p id w.held row (p.tables.rows w.db.events) found in
    let start = marked-HasRow p e v (row, rw same_id found) in
    rw (same, ← same_id)
      (try_block-IsSettled p worker e' s msg_id (e.attempt_count + 1) (p.clock w.tick)
        (marked p e v) start tt (rw same at done))
