-- ===== src/Replay/Once.antt =====
-- A dead letter is replayed at most once, and what a replay writes.
use replay_forge.Base.{
  ℕ, ◌+◌, ◌≡◌, sym, subst, refl, none, some, arith, head?-keep, find_by, find_by_sound,
  find_by-update_by, ==_iff, Option-cases, inl, inr,
}
use replay_forge.Models.{
  Status, AttemptStatus, ReplayStatus, Event, EventAttempt, DeadLetter, is_event, is_dead_letter,
}
use replay_forge.Service.World.{Platform, World, ok, raise, Error}
use replay_forge.Service.Redis.{Stream, Message}
use replay_forge.Streams.{publish_incoming}
use replay_forge.Replay.{
  get_dead_letter, get_event, write_replay, save_dead_letter, requeue, replay_dead_letter,
}

module _ (p : Platform) where
  get_dead_letter_lem :
      (id : ℕ) (w : World p)
      → get_dead_letter p id w.db ≡ find_by (is_dead_letter id) (p.tables.rows w.db.dead_letters)
  get_dead_letter_lem id w =
      rw (p.tables.select-rows (is_dead_letter id) w.db.dead_letters)
        (head?-keep (is_dead_letter id) (p.tables.rows w.db.dead_letters))

  get_event_lem :
      (id : ℕ) (w : World p)
      → get_event p id w.db ≡ find_by (is_event id) (p.tables.rows w.db.events)
  get_event_lem id w =
      rw (p.tables.select-rows (is_event id) w.db.events)
        (head?-keep (is_event id) (p.tables.rows w.db.events))

  -- A dead letter that was replayed is refused, and nothing changes.
  replayed_is_refused :
      (id : ℕ) (w : World p) (l : DeadLetter) (at : ℕ)
      → find_by (is_dead_letter id) (p.tables.rows w.db.dead_letters) ≡ some l
      → l.replayed_at ≡ some at
      → replay_dead_letter p id w ≡ (raise (Error.http 409 "already replayed"), w)
  unfolding replay_dead_letter
  replayed_is_refused id w l at found done = ground (arith, get_dead_letter_lem id w)

  module _ (dl : DeadLetter) (event : Event) (w : World p) where
    -- The rows that `requeue` writes.
    abbrev pub requeued_event : Event
    requeued_event = record event {
      status = Status.queued;
      next_retry_at = none;
      updated_at = p.clock (w.tick + 1);
    }

    abbrev pub requeued_letter : DeadLetter
    requeued_letter = record dl {
      replayed_at = some (p.clock (w.tick + 1 + 1));
      replay_status = some ReplayStatus.requeued;
    }

    abbrev pub unpublished_letter : DeadLetter
    unpublished_letter = record requeued_letter { replay_status = some ReplayStatus.publish_failed }

    abbrev pub replay_attempt : EventAttempt
    replay_attempt = record {
      id = p.uuid4 (w.tick + 1 + 1 + 1);
      event_id = event.id;
      attempt_number = event.attempt_count + 1;
      worker_id = none;
      worker_name = none;
      status = AttemptStatus.pending;
      error_message = none;
      replay_of = some dl.id;
      started_at = p.clock w.tick;
      finished_at = none;
      duration_ms = none;
    }

    abbrev pub incoming_message : Message
    incoming_message = record { event_id = some event.id; reason = none }

    abbrev pub written : World p
    written = record w {
      db = write_replay p requeued_letter requeued_event replay_attempt w.db;
      tick = w.tick + 1 + 1 + 1 + 1;
    }

    pub requeue_published :
        {r : p.redis.Server}
        → p.redis.xadd Stream.incoming incoming_message w.redis ≡ some r
        → requeue p dl event w ≡ (ok requeued_event, record written { redis = r })
    unfolding requeue publish_incoming
    requeue_published h = ground arith

    pub requeue_unpublished :
        p.redis.xadd Stream.incoming incoming_message w.redis ≡ none
        → requeue p dl event w ≡ (
          raise (Error.redis_error p.redis_message),
          record written { db = save_dead_letter p unpublished_letter written.db },
        )
    unfolding requeue publish_incoming
    requeue_unpublished h = ground arith

    -- What `requeue` leaves of the dead letter, published or not.
    requeue_letter :
        find_by (is_dead_letter dl.id) (p.tables.rows w.db.dead_letters) ≡ some dl
        → (l : DeadLetter) × (l.replayed_at ≡ some (p.clock (w.tick + 1 + 1)))
          × (find_by (is_dead_letter dl.id) (p.tables.rows (requeue p dl event w).1.db.dead_letters)
              ≡ some l)
    requeue_letter found =
        let self = (==_iff dl.id dl.id).1 refl in
        let once =
          find_by-update_by (is_dead_letter dl.id) requeued_letter (p.tables.rows w.db.dead_letters)
            {x = dl} self found in
        elim (Option-cases (p.redis.xadd Stream.incoming incoming_message w.redis)) [
          | inl failed ↦ (
            unpublished_letter,
            refl,
            rw (requeue_unpublished failed, p.tables.rows-update, p.tables.rows-update)
                (find_by-update_by (is_dead_letter dl.id) unpublished_letter _ {x = requeued_letter}
                  self once),
          )
          | inr (r, sent) ↦
              (requeued_letter, refl, rw (requeue_published sent, p.tables.rows-update) once)
        ]

  module _ (id : ℕ) (w : World p) (dl : DeadLetter) (event : Event)
      (found : find_by (is_dead_letter id) (p.tables.rows w.db.dead_letters) ≡ some dl)
      (new : dl.replayed_at ≡ none)
      (known : find_by (is_event dl.event_id) (p.tables.rows w.db.events) ≡ some event) where
    pub replay-requeue : replay_dead_letter p id w ≡ requeue p dl event w
    unfolding replay_dead_letter
    replay-requeue = ground (arith, get_dead_letter_lem id w, get_event_lem dl.event_id w)

    -- Once a dead letter has been taken for a replay, a second call is refused with 409 and changes
    -- nothing; this is so, too, where the first call raised because it could not publish.
    pub replay_dead_letter_twice :
        let w' = (replay_dead_letter p id w).1 in
        replay_dead_letter p id w' ≡ (raise (Error.http 409 "already replayed"), w')
    replay_dead_letter_twice =
        let same_id =
          (==_iff dl.id id).0
            (find_by_sound (is_dead_letter id) (p.tables.rows w.db.dead_letters) found) in
        let (l, at, left) = requeue_letter dl event w (
          subst (λ k. find_by (is_dead_letter k) (p.tables.rows w.db.dead_letters) ≡ some dl)
            (sym same_id) found) in
        rw replay-requeue (
          replayed_is_refused id (requeue p dl event w).1 l (p.clock (w.tick + 1 + 1))
            (subst
              (λ k.
                find_by (is_dead_letter k) (p.tables.rows (requeue p dl event w).1.db.dead_letters)
                ≡ some l)
              same_id left)
            at)
