-- ===== src/Replay/Lost.antt =====
-- A replay that a worker drops: the worker's session still holds the event as it was when it was
-- dead-lettered (api/app/database.py sets expire_on_commit=False), and reads its status from there.
use replay_forge.Base.{ℕ, ◌≡◌, ◌∙◌, sym, refl, true, none, some, arith, find_by, ==_iff}
use replay_forge.Models.{Status, Event, DeadLetter, Worker, is_event, is_dead_letter}
use replay_forge.Service.Redis.{Stream}
use replay_forge.Service.World.{Platform, World, ok, held_or}
use replay_forge.Worker.{is_final, handle_message}
use replay_forge.Worker.Outcome.{IsAcked, handle_message-IsAcked}
use replay_forge.Worker.Dispatch.{handle_message_final}
use replay_forge.Replay.{replay_dead_letter}
use replay_forge.Replay.Accounts.{replay_dead_letter-queued, replay_dead_letter-held}

-- A message whose event is final, as the session reads it, changes no row.
handle_message_skips :
    (p : Platform) (worker : Worker) (s : Stream) (msg_id id : ℕ) (w : World p) (row : Event)
    → find_by (is_event id) (p.tables.rows w.db.events) ≡ some row
    → is_final (held_or p w.held row).status ≡ true
    → (handle_message p worker s msg_id (some id) w).1.db ≡ w.db
handle_message_skips p worker s msg_id id w row found final =
    rw (handle_message_final p worker s msg_id id w row found final) (ground arith)

module _ (p : Platform) (id : ℕ) (w : World p) (dl : DeadLetter) (event last : Event)
    (worker : Worker) (s : Stream) (msg_id : ℕ) where
  -- If the worker's last event is the one that is replayed and is final there, then the replay's
  -- message is taken off the stream and the event stays queued in the table, with no attempt made.
  pub replay_is_lost :
      find_by (is_dead_letter id) (p.tables.rows w.db.dead_letters) ≡ some dl
      → dl.replayed_at ≡ none
      → find_by (is_event dl.event_id) (p.tables.rows w.db.events) ≡ some event
      → w.held ≡ some last
      → last.id ≡ event.id
      → is_final last.status ≡ true
      → let replayed = (replay_dead_letter p id w).1 in
        let (result, end) = handle_message p worker s msg_id (some dl.event_id) replayed in
        ((after : Event) × (find_by (is_event dl.event_id) (p.tables.rows end.db.events)
            ≡ some after)
          × (after.status ≡ Status.queued))
        × (end.db.attempts ≡ replayed.db.attempts)
        × (result ≡ ok tt → IsAcked p s msg_id end)
  replay_is_lost found new known held same final =
      let replayed = (replay_dead_letter p id w).1 in
      let (after, stored, same_row, queued, _, _, _, _, _) =
        replay_dead_letter-queued p id w dl event found new known in
      let holds = replay_dead_letter-held p id w dl event found new known in
      let object : is_final (held_or p replayed.held after).status ≡ true =
        rw (holds, held) (ground (arith, (==_iff last.id after.id).1 (same ∙ sym same_row))) in
      let untouched =
        handle_message_skips p worker s msg_id dl.event_id replayed after stored object in
      (
        (after, rw untouched stored, queued),
        rw untouched refl,
        λ done. handle_message-IsAcked p s msg_id worker (some dl.event_id) replayed done,
      )
