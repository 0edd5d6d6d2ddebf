-- ===== src/Worker/AckFailure.antt =====
-- What a failed acknowledgement does after a success: the call of xack stands in the `try` block.
use replay_forge.Base.{
  ℕ, ◌+◌, ◌≡◌, ◌∙◌, sym, subst, ◌≢◌, ◌++◌, refl, true, false, Bool, none, some, arith, find_by,
  find_by-update_by, count_by, count_by-append, List, [], ◌∷◌, ==_iff, ◌&&◌, if◌then◌else◌,
}
use replay_forge.Models.{
  Status, AttemptStatus, Event, EventAttempt, Worker, is_event, is_attempt_of,
}
use replay_forge.Service.Redis.{Stream}
use replay_forge.Service.World.{Platform, World, Error, ok, held_or}
use replay_forge.Worker.Failure.{
  handle_failure-Failed, handle_success-Succeeded, process_event_stub_reads,
}
use replay_forge.Worker.Dispatch.{handle_message_open}
use replay_forge.Worker.Settled.{HasRow, marked-HasRow}
use replay_forge.Service.Loading.{held_or-id}
use replay_forge.Worker.{
  is_final, marked, processing_event, process_event_stub, handle_success, handle_failure, try_block,
  attempt_event, handle_message,
}

abbrev pub is_success : AttemptStatus → Bool
is_success AttemptStatus.succeeded = true
is_success AttemptStatus.failed = false
is_success AttemptStatus.pending = false

-- The succeeded attempts of an event among the rows.
abbrev pub successes : List EventAttempt → ℕ → ℕ
successes rows id = count_by (λ a. is_attempt_of id a && is_success a.status) rows

successes-add :
    (rows : List EventAttempt) (a : EventAttempt) (id : ℕ)
    → successes (rows ++ a ∷ []) id
      ≡ successes rows id + (if is_attempt_of id a && is_success a.status then 1 else 0)
successes-add rows a id = ground (
  arith,
  count_by-append (λ (b : EventAttempt). is_attempt_of id b && is_success b.status) rows (a ∷ []),
)

module _ (p : Platform) (worker : Worker) (s : Stream) (msg_id : ℕ) where
  handle_success-ok :
      (e : Event) (n t : ℕ) (w : World p) → (handle_success p e worker n t w).0 ≡ ok tt
  unfolding handle_success
  handle_success-ok e n t w = refl

  -- The block succeeds, its acknowledgement raises, and the handler runs on what it left.
  try_block_handled :
      (e : Event) (n t : ℕ) (w : World p)
      → (process_event_stub p e w).0 ≡ ok tt
      → p.redis.xack s msg_id w.redis ≡ none
      → (try_block p worker s msg_id e n t w).1.db
        ≡ (handle_failure p e worker n t
            (Error.redis_error p.redis_message)
            (handle_success p e worker n t w).1).1.db
  unfolding try_block
  try_block_handled e n t w fine broken = ground (
    arith,
    process_event_stub_reads p e w,
    handle_success-ok e n t w,
    (handle_success-Succeeded p e worker n t w).redis,
  )

  -- The outcome of the work depends on neither the mark nor the state.
  process_event_stub-processing :
      (e : Event) (t : ℕ) (v w : World p)
      → (process_event_stub p (processing_event e t) v).0 ≡ (process_event_stub p e w).0
  unfolding process_event_stub
  process_event_stub-processing e t v w = ground arith

  process_event_stub_same :
      (e : Event) (v w : World p) → (process_event_stub p e v).0 ≡ (process_event_stub p e w).0
  unfolding process_event_stub
  process_event_stub_same e v w = ground arith

  -- The row of the id is not succeeded and counts one more than `c` failed attempts, and one more
  -- success than `n` is recorded.
  abbrev pub IsCountedAsFailure : ℕ → ℕ → ℕ → World p → Type 0
  IsCountedAsFailure id c n w =
      (after : Event) × (find_by (is_event id) (p.tables.rows w.db.events) ≡ some after)
      × (after.status ≢ Status.succeeded)
      × (after.attempt_count ≡ c + 1)
      × (successes (p.tables.rows w.db.attempts) id ≡ n + 1)

  attempt_event_unacked :
      (e : Event) (v : World p)
      → HasRow e.id v
      → (process_event_stub p e v).0 ≡ ok tt
      → p.redis.xack s msg_id v.redis ≡ none
      → IsCountedAsFailure e.id e.attempt_count
          (successes (p.tables.rows v.db.attempts) e.id)
          (attempt_event p worker s msg_id e v).1
  unfolding attempt_event
  attempt_event_unacked e v here fine broken =
      let e' = processing_event e (p.clock (v.tick + 1)) in
      let n = e.attempt_count + 1 in
      let t = p.clock v.tick in
      let m = marked p e v in
      let db =
        try_block_handled e' n t m
          (process_event_stub-processing e (p.clock (v.tick + 1)) m v ∙ fine) broken in
      let done = handle_success-Succeeded p e' worker n t m in
      let rows = p.tables.rows v.db.attempts in
      let u = (handle_success p e' worker n t m).1 in
      let failed = handle_failure-Failed p e' worker n t (Error.redis_error p.redis_message) u in
      let (marked_row, start) = marked-HasRow p e v here in
      let stored : find_by (is_event e.id) (p.tables.rows u.db.events) ≡ some done.after =
        rw done.events (
          find_by-update_by (is_event e.id) done.after (p.tables.rows m.db.events) {x = marked_row}
            ((==_iff _ _).1 done.id) start) in
      (
        failed.after,
        rw (db, failed.events)
            (find_by-update_by (is_event e.id) failed.after (p.tables.rows u.db.events)
              {x = done.after} ((==_iff _ _).1 failed.id) stored),
        ground (arith, failed.status),
        failed.counted,
        rw (db, failed.attempts, done.attempts)
            (ground (
              arith,
              successes-add rows done.attempt e.id,
              successes-add (rows ++ done.attempt ∷ []) failed.attempt e.id,
              done.attempt_of,
              done.attempt_succeeded,
              failed.attempt_of,
              failed.attempt_failed,
            )),
      )

  -- If the work of an event is done and recorded and the acknowledgement then raises, the event is
  -- not left as succeeded: a failed attempt is counted on top of the recorded success.
  pub ack_failure_after_success :
      (id : ℕ) (w : World p) (row : Event)
      → find_by (is_event id) (p.tables.rows w.db.events) ≡ some row
      → is_final (held_or p w.held row).status ≡ false
      → (process_event_stub p (held_or p w.held row) w).0 ≡ ok tt
      → p.redis.xack s msg_id w.redis ≡ none
      → IsCountedAsFailure id
          (held_or p w.held row).attempt_count
          (successes (p.tables.rows w.db.attempts) id)
          (handle_message p worker s msg_id (some id) w).1
  ack_failure_after_success id w row found open_event fine broken =
      let e = held_or p w.held row in
      let v = record w { held = some e } in
      let same_id : e.id ≡ id = held_or-id p id w.held row (p.tables.rows w.db.events) found in
      let here =
        subst (λ k. find_by (is_event k) (p.tables.rows w.db.events) ≡ some row) (sym same_id)
          found in
      rw (handle_message_open p worker s msg_id id w row found open_event) (
        subst
          (λ k.
            IsCountedAsFailure k e.attempt_count (successes (p.tables.rows w.db.attempts) k)
              (attempt_event p worker s msg_id e v).1)
          same_id
          (attempt_event_unacked e v (row, here) (process_event_stub_same e v w ∙ fine) broken))
