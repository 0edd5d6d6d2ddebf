-- ===== src/Worker/Outcome.antt =====
-- What has become of an event and of its message when a message has been handled.
use replay_forge.Base.{
  ℕ, ◌+◌, ◌≡◌, inl, inr, false, Option, none, some, arith, find_by, Bool-cases, Option-cases,
}
use replay_forge.Models.{Event, Worker, is_event}
use replay_forge.Service.Redis.{Stream}
use replay_forge.Service.World.{Platform, World, ok, held_or, call_redis, ◌>>◌}
use replay_forge.Service.Hoare.{Ensures, ensures-bind, ensures-catch}
use replay_forge.Worker.Dispatch.{handle_message_missing, handle_message_final, handle_message_open}
use replay_forge.Worker.{
  is_final, marked, processing_event, process_event_stub, handle_success, handle_failure, try_block,
  attempt_event, handle_message,
}

abbrev True : {p : Platform} → World p → Type 0
True w = Unit

-- The group has no pending entry for the message.
abbrev pub IsAcked : (p : Platform) → Stream → ℕ → World p → Type 0
IsAcked p s msg_id w = p.redis.is_pending s msg_id w.redis ≡ false

module _ (p : Platform) (s : Stream) (msg_id : ℕ) where
  ack-IsAcked : Ensures True (call_redis p (p.redis.xack s msg_id)) (IsAcked p s msg_id)
  ack-IsAcked w h a e = elim (Option-cases (p.redis.xack s msg_id w.redis)) [
    | inl failed ↦ absurd (ground arith)
    | inr (r, done) ↦ ground (arith, p.redis.xack-is_pending s msg_id w.redis done)
  ]

  try_block-IsAcked :
      (worker : Worker) (e : Event) (n t : ℕ)
      → Ensures True (try_block p worker s msg_id e n t) (IsAcked p s msg_id)
  unfolding try_block
  try_block-IsAcked worker e n t =
      let ack = p.redis.xack s msg_id in
      ensures-catch True (IsAcked p s msg_id)
        (do process_event_stub p e; handle_success p e worker n t; call_redis p ack)
        (λ error. do handle_failure p e worker n t error; call_redis p ack)
        (ensures-bind True (IsAcked p s msg_id) (process_event_stub p e)
          (λ _. do handle_success p e worker n t; call_redis p ack) (λ _ _ _ _. tt)
          (λ _.
            ensures-bind True (IsAcked p s msg_id) (handle_success p e worker n t)
              (λ _. call_redis p ack) (λ _ _ _ _. tt) (λ _. ack-IsAcked)))
        (λ _ _. tt)
        (λ error.
          ensures-bind True (IsAcked p s msg_id) (handle_failure p e worker n t error)
            (λ _. call_redis p ack) (λ _ _ _ _. tt) (λ _. ack-IsAcked))

  attempt_event-IsAcked :
      (worker : Worker) (e : Event)
      → Ensures True (attempt_event p worker s msg_id e) (IsAcked p s msg_id)
  unfolding attempt_event
  attempt_event-IsAcked worker e w h a done =
      try_block-IsAcked worker (processing_event e (p.clock (w.tick + 1))) (e.attempt_count + 1)
        (p.clock w.tick) (marked p e w) tt a done

  -- A message that is handled with no exception is acknowledged, whatever it holds and whatever
  -- became of its event.
  pub handle_message-IsAcked :
      (worker : Worker) (event_id : Option ℕ) (w : World p)
      → (handle_message p worker s msg_id event_id w).0 ≡ ok tt
      → IsAcked p s msg_id (handle_message p worker s msg_id event_id w).1
  unfolding handle_message
  handle_message-IsAcked worker none w done = ack-IsAcked w tt tt done
  handle_message-IsAcked worker (some id) w done =
      elim (Option-cases (find_by (is_event id) (p.tables.rows w.db.events))) [
        | inl missing ↦
            let same = handle_message_missing p worker s msg_id id w missing in
            rw same (ack-IsAcked (record w { held = none }) tt tt (rw same at done))
        | inr (row, found) ↦
            let e = held_or p w.held row in
            let v = record w { held = some e } in
            elim (Bool-cases (is_final e.status)) [
              | inl final ↦
                  let same = handle_message_final p worker s msg_id id w row found final in
                  rw same (ack-IsAcked v tt tt (rw same at done))
              | inr open_event ↦
                  let same = handle_message_open p worker s msg_id id w row found open_event in
                  rw same (attempt_event-IsAcked worker e v tt tt (rw same at done))
            ]
      ]
