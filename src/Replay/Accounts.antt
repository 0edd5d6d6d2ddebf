-- ===== src/Replay/Accounts.antt =====
-- What a replay does to the event: queued again, every failed attempt still counted.
use replay_forge.Base.{
  ℕ, ◌≡◌, sym, subst, refl, none, some, find_by, find_by_sound, find_by-update_by, find_by-All,
  update_by, ◌==◌, ==_iff, Option-cases, inl, inr, ◌++◌, [], ◌∷◌,
}
use replay_forge.Models.{Status, Event, DeadLetter, is_event, is_dead_letter}
use replay_forge.Service.Redis.{Stream}
use replay_forge.Service.World.{Platform, World}
use replay_forge.Accounting.{Counts, IsCounted, Counts-pending, HeldCounts-pending, Counts-update}
use replay_forge.Replay.{replay_dead_letter}
use replay_forge.Replay.Once.{
  requeued_event, replay_attempt, incoming_message, requeue_published, requeue_unpublished,
  replay-requeue,
}

module _ (p : Platform) (id : ℕ) (w : World p) (dl : DeadLetter) (event : Event)
    (found : find_by (is_dead_letter id) (p.tables.rows w.db.dead_letters) ≡ some dl)
    (new : dl.replayed_at ≡ none)
    (known : find_by (is_event dl.event_id) (p.tables.rows w.db.events) ≡ some event) where
  -- The events and the attempts after a replay, published or not, and the held object.
  replay_tables :
      let w' = (replay_dead_letter p id w).1 in
      (p.tables.rows w'.db.events
        ≡ update_by
            (λ r. r.id == event.id)
            (λ _. requeued_event p dl event w)
            (p.tables.rows w.db.events))
      × (p.tables.rows w'.db.attempts
          ≡ p.tables.rows w.db.attempts ++ replay_attempt p dl event w ∷ [])
      × (w'.held ≡ w.held)
  replay_tables =
      let step = replay-requeue p id w dl event found new known in
      elim (Option-cases (p.redis.xadd Stream.incoming (incoming_message p dl event w) w.redis)) [
        | inl failed ↦
            let end = requeue_unpublished p dl event w failed in
            (
              rw (step, end) (p.tables.rows-update _ _ _),
              rw (step, end) (p.tables.rows-add _ _),
              rw (step, end) refl,
            )
        | inr (r, sent) ↦
            let end = requeue_published p dl event w sent in
            (
              rw (step, end) (p.tables.rows-update _ _ _),
              rw (step, end) (p.tables.rows-add _ _),
              rw (step, end) refl,
            )
      ]

  -- The session of a worker is another one, and holds what it held.
  pub replay_dead_letter-held : (replay_dead_letter p id w).1.held ≡ w.held
  replay_dead_letter-held = replay_tables.2

  -- The replayed event is queued with no retry planned, and keeps its attempts, its limit, its key
  -- and its last error.
  pub replay_dead_letter-queued :
      let w' = (replay_dead_letter p id w).1 in
      (after : Event) × (find_by (is_event dl.event_id) (p.tables.rows w'.db.events) ≡ some after)
      × (after.id ≡ event.id)
      × (after.status ≡ Status.queued)
      × (after.next_retry_at ≡ none)
      × (after.attempt_count ≡ event.attempt_count)
      × (after.max_attempts ≡ event.max_attempts)
      × (after.idempotency_key ≡ event.idempotency_key)
      × (after.last_error ≡ event.last_error)
  replay_dead_letter-queued =
      let (events, _, _) = replay_tables in
      let same =
        (==_iff event.id dl.event_id).0
          (find_by_sound (is_event dl.event_id) (p.tables.rows w.db.events) known) in
      let stored =
        subst
          (λ k.
            find_by (is_event dl.event_id) (
              update_by (λ r. r.id == k) (λ _. requeued_event p dl event w)
                (p.tables.rows w.db.events))
            ≡ some (requeued_event p dl event w))
          (sym same)
          (find_by-update_by (is_event dl.event_id) (requeued_event p dl event w)
            (p.tables.rows w.db.events) {x = event} ((==_iff _ _).1 same) known) in
      (requeued_event p dl event w, rw events stored, refl, refl, refl, refl, refl, refl, refl)

  -- The pending attempt that a replay adds does not count as a failed one.
  pub replay_dead_letter-IsCounted : IsCounted w → IsCounted (replay_dead_letter p id w).1
  replay_dead_letter-IsCounted h =
      let (events, attempts, held) = replay_tables in
      let rows = p.tables.rows w.db.attempts in
      let a = replay_attempt p dl event w in
      let own =
        find_by-All (Counts rows) (is_event dl.event_id) (p.tables.rows w.db.events) event known
          h.each in
      record {
        each =
            rw (events, attempts)
              (Counts-update rows a (requeued_event p dl event w) (p.tables.rows w.db.events) refl
                (Counts-pending rows a event refl own) h.each);
        held = rw (held, attempts) (HeldCounts-pending rows a refl w.held h.held);
      }
