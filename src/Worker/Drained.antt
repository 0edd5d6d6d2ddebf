-- ===== src/Worker/Drained.antt =====
-- Repeated deliveries of one event come to an end.
use replay_forge.Base.{
  ℕ, suc, ◌⊎◌, ◌<◌, ◌+◌, ◌≤◌, ◌≡◌, inl, inr, true, List, [], ◌∷◌, Option, some, arith, find_by,
  length, Bool-cases,
}
use replay_forge.Models.{Event, Worker, is_event}
use replay_forge.Service.Redis.{Stream}
use replay_forge.Service.World.{Platform, World, ok, held_or}
use replay_forge.Worker.Dispatch.{handle_message_final}
use replay_forge.Worker.Settled.{handle_message-IsSettled}
use replay_forge.Worker.{is_final, handle_message, handle_messages}

-- Deliveries of the event `id`, with these message ids.
abbrev pub deliveries : ℕ → List ℕ → List (ℕ × Option ℕ)
deliveries id [] = []
deliveries id (m ∷ ms) = (m, some id) ∷ deliveries id ms

-- A batch that returns has returned from its first message, and the rest ran from there.
handle_messages-ok :
    (p : Platform) (worker : Worker) (s : Stream) (msg_id : ℕ) (event_id : Option ℕ)
    (rest : List (ℕ × Option ℕ)) (w : World p)
    → (handle_messages p worker s ((msg_id, event_id) ∷ rest) w).0 ≡ ok tt
    → ((handle_message p worker s msg_id event_id w).0 ≡ ok tt)
      × (handle_messages p worker s ((msg_id, event_id) ∷ rest) w
          ≡ handle_messages p worker s rest (handle_message p worker s msg_id event_id w).1)
unfolding handle_messages
handle_messages-ok p worker s msg_id event_id rest w done = ground arith

module _ (p : Platform) (worker : Worker) (s : Stream) (id : ℕ) where
  -- The row of the event, which is the object that a select of it gives.
  pub record IsRow (row : Event) (w : World p) : Type 0 where
    pub found : find_by (is_event id) (p.tables.rows w.db.events) ≡ some row
    pub fresh : held_or p w.held row ≡ row

  -- What is left to do: nothing, or no more attempts than deliveries.
  abbrev pub IsEnough : Event → ℕ → Type 0
  IsEnough row n =
      (is_final row.status ≡ true) ⊎ ((0 < n) × (row.max_attempts ≤ row.attempt_count + n))

  -- One delivery leaves a row that needs one delivery less.
  handle_message-IsEnough :
      (msg_id n : ℕ) (row : Event) (w : World p)
      → IsRow row w
      → IsEnough row (suc n)
      → (handle_message p worker s msg_id (some id) w).0 ≡ ok tt
      → (after : Event) × IsRow after (handle_message p worker s msg_id (some id) w).1
        × IsEnough after n
  handle_message-IsEnough msg_id n row w h todo done = elim (Bool-cases (is_final row.status)) [
    | inl final ↦
        let step = handle_message_final p worker s msg_id id w row h.found (rw h.fresh final) in
        (
          row,
          rw step (record { found = ground (arith, h.found); fresh = ground (arith, h.fresh) }),
          inl final,
        )
    | inr open_event ↦
        let (after, found, held, limit, outcome) =
          handle_message-IsSettled p worker s msg_id id w row h.found (rw h.fresh open_event)
            done in
        (
          after,
          record { found = found; fresh = rw held (ground arith) },
          let limit' = rw h.fresh at limit in let outcome' = rw h.fresh at outcome in ground arith,
        )
  ]

  -- Where the object that a select of the event gives agrees with its row (the session holds none, or a
  -- fresh one), and the event is in a final status or is delivered at least once and as often as it
  -- has attempts left: if the batch ends without an exception, its row is in a final status then.
  pub handle_messages-final :
      (msgs : List ℕ) (row : Event) (w : World p)
      → IsRow row w
      → IsEnough row (length msgs)
      → (handle_messages p worker s (deliveries id msgs) w).0 ≡ ok tt
      → (after : Event) × (find_by
            (is_event id)
            (p.tables.rows (handle_messages p worker s (deliveries id msgs) w).1.db.events)
          ≡ some after)
        × (is_final after.status ≡ true)
  unfolding handle_messages
  handle_messages-final [] row w h todo done = (row, h.found, ground arith)
  handle_messages-final (m ∷ ms) row w h todo done =
      let (first, rest) = handle_messages-ok p worker s m (some id) (deliveries id ms) w done in
      let (after, h', todo') = handle_message-IsEnough m (length ms) row w h todo first in
      rw rest (
        handle_messages-final ms after (handle_message p worker s m (some id) w).1 h' todo'
          (rw rest at done))
