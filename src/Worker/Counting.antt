-- ===== src/Worker/Counting.antt =====
-- Processing a message keeps the attempts accounted for, however it ends.
use replay_forge.Base.{
  ℕ, ◌+◌, ◌≡◌, refl, List, [], ◌∷◌, Option, none, some, arith, find_by, find_by-All, Bool-cases,
  Option-cases, inl, inr,
}
use replay_forge.Models.{Event, Worker, is_event}
use replay_forge.Service.Redis.{Stream}
use replay_forge.Service.World.{Platform, World, Error, ◌>>◌, call_redis, held_or}
use replay_forge.Service.Hoare.{Takes, Keeps, takes-bind, takes-catch}
use replay_forge.Worker.Dispatch.{handle_message_missing, handle_message_final, handle_message_open}
use replay_forge.Accounting.{
  IsCounted, Counts, HeldCounts, IsCounted-add, IsCounted-rewrite, IsCounted-same, failures-add,
}
use replay_forge.Worker.Failure.{
  handle_failure-Failed, handle_success-Succeeded, process_event_stub_reads,
}
use replay_forge.Worker.{
  is_final, process_event_stub, handle_success, handle_failure, try_block, processing_event, marked,
  attempt_event, handle_message, handle_messages,
}

-- The invariant, with the event at hand counting its failed attempts.
abbrev With : (p : Platform) → Event → World p → Type 0
With p e w = IsCounted w × Counts (p.tables.rows w.db.attempts) e

module _ (p : Platform) where
  With-same :
      {w w' : World p} (e : Event) → w'.db ≡ w.db → w'.held ≡ w.held → With p e w → With p e w'
  With-same e db held (h, own) = (IsCounted-same db held h, rw db own)

  call_redis-Keeps :
      (f : p.redis.Server → Option p.redis.Server) (e : Event) → Keeps (With p e) (call_redis p f)
  call_redis-Keeps f e w h = With-same e (ground arith) (ground arith) h

  call_redis-IsCounted :
      (f : p.redis.Server → Option p.redis.Server) → Keeps IsCounted (call_redis p f)
  call_redis-IsCounted f w h = IsCounted-same (ground arith) (ground arith) h

  process_event_stub-Keeps : (e e' : Event) → Keeps (With p e') (process_event_stub p e)
  process_event_stub-Keeps e e' w h = rw (process_event_stub_reads p e w) h

  handle_failure-Takes :
      (e : Event) (worker : Worker) (n t : ℕ) (error : Error)
      → Takes (With p e) (handle_failure p e worker n t error) IsCounted
  handle_failure-Takes e worker n t error w (h, own) =
      let f = handle_failure-Failed p e worker n t error w in
      IsCounted-add e f.after f.attempt f.id f.attempt_of (rw (f.attempt_failed, f.counted)) f.held
        f.events f.attempts own h

  handle_success-Keeps :
      (e : Event) (worker : Worker) (n t : ℕ) → Keeps (With p e) (handle_success p e worker n t)
  handle_success-Keeps e worker n t w (h, own) =
      let s = handle_success-Succeeded p e worker n t w in
      (
        IsCounted-add e s.after s.attempt s.id s.attempt_of
            (rw (s.attempt_succeeded, s.counted) (omega arith)) s.held s.events s.attempts own h,
        rw s.attempts (
            ground (
              arith,
              failures-add (p.tables.rows w.db.attempts) s.attempt e.id,
              s.attempt_succeeded,
            )),
      )

  -- The `try` block, with the event as it was at the start of it.
  try_block-Takes :
      (worker : Worker) (s : Stream) (msg_id : ℕ) (e : Event) (n t : ℕ)
      → Takes (With p e) (try_block p worker s msg_id e n t) IsCounted
  unfolding try_block
  try_block-Takes worker s msg_id e n t =
      let ack = p.redis.xack s msg_id in
      takes-catch {Q = With p e}
        (do process_event_stub p e; handle_success p e worker n t; call_redis p ack)
        (λ error. do handle_failure p e worker n t error; call_redis p ack) (λ w h. h.0)
        (takes-bind {Q = With p e} (process_event_stub p e)
          (λ _. do handle_success p e worker n t; call_redis p ack) (λ w h. h)
          (process_event_stub-Keeps e e)
          (λ _.
            takes-bind {Q = With p e} (handle_success p e worker n t) (λ _. call_redis p ack)
              (λ w h. h) (handle_success-Keeps e worker n t) (λ _. call_redis-Keeps ack e)))
        (λ error.
          takes-bind {Q = IsCounted} (handle_failure p e worker n t error) (λ _. call_redis p ack)
            (λ w h. h) (handle_failure-Takes e worker n t error) (λ _. call_redis-IsCounted ack))

  attempt_event-Takes :
      (worker : Worker) (s : Stream) (msg_id : ℕ) (e : Event)
      → Takes (With p e) (attempt_event p worker s msg_id e) IsCounted
  unfolding attempt_event
  attempt_event-Takes worker s msg_id e w (h, own) =
      let e' = processing_event e (p.clock (w.tick + 1)) in
      let h' : IsCounted (marked p e w) =
        IsCounted-rewrite e e' refl refl refl (p.tables.rows-update _ _ _) refl own h in
      IsCounted-same refl refl (
        try_block-Takes worker s msg_id e' (e.attempt_count + 1) (p.clock w.tick) (marked p e w)
          (h', own))

  -- The object that is loaded counts its failed attempts.
  held_or-Counts :
      (id : ℕ) (w : World p) (row : Event)
      → IsCounted w
      → find_by (is_event id) (p.tables.rows w.db.events) ≡ some row
      → Counts (p.tables.rows w.db.attempts) (held_or p w.held row)
  held_or-Counts id w row h found =
      let own =
        find_by-All (Counts (p.tables.rows w.db.attempts)) (is_event id) (p.tables.rows w.db.events)
          row found h.each in
      go w.held h.held own
    where
      go :
          (held : Option Event)
          → HeldCounts (p.tables.rows w.db.attempts) held
          → Counts (p.tables.rows w.db.attempts) row
          → Counts (p.tables.rows w.db.attempts) (held_or p held row)
      go none hh own = own
      go (some e) hh own = ground arith

  -- Whatever a message holds and however its processing ends, each event still counts its failed
  -- attempts.
  pub handle_message-IsCounted :
      (worker : Worker) (s : Stream) (msg_id : ℕ) (event_id : Option ℕ) (w : World p)
      → IsCounted w
      → IsCounted (handle_message p worker s msg_id event_id w).1
  unfolding handle_message
  handle_message-IsCounted worker s msg_id none w h =
      call_redis-IsCounted (p.redis.xack s msg_id) w h
  handle_message-IsCounted worker s msg_id (some event_id) w h =
      elim (Option-cases (find_by (is_event event_id) (p.tables.rows w.db.events))) [
        | inl missing ↦ rw (handle_message_missing p worker s msg_id event_id w missing) (
            call_redis-IsCounted (p.redis.xack s msg_id) (record w { held = none })
              (record { each = h.each; held = tt }))
        | inr (row, found) ↦
            let e = held_or p w.held row in
            let v = record w { held = some e } in
            let own = held_or-Counts event_id w row h found in
            let h' : IsCounted v = record { each = h.each; held = own } in
            elim (Bool-cases (is_final e.status)) [
              | inl final ↦
                  rw (handle_message_final p worker s msg_id event_id w row found final)
                    (call_redis-IsCounted (p.redis.xack s msg_id) v h')
              | inr open_event ↦
                  rw (handle_message_open p worker s msg_id event_id w row found open_event)
                    (attempt_event-Takes worker s msg_id e v (h', own))
            ]
      ]

  -- A batch of messages keeps every event counting its failed attempts.
  pub handle_messages-IsCounted :
      (worker : Worker) (s : Stream) (msgs : List (ℕ × Option ℕ)) (w : World p)
      → IsCounted w
      → IsCounted (handle_messages p worker s msgs w).1
  unfolding handle_messages
  handle_messages-IsCounted worker s [] w h = h
  handle_messages-IsCounted worker s ((msg_id, event_id) ∷ rest) w h =
      takes-bind {Q = IsCounted} (handle_message p worker s msg_id event_id)
        (λ _. handle_messages p worker s rest) (λ v k. k)
        (handle_message-IsCounted worker s msg_id event_id)
        (λ _. handle_messages-IsCounted worker s rest) w h
