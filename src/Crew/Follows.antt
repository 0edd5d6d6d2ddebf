-- ===== src/Crew/Follows.antt =====
-- The worker of Worker, on a message, takes the steps of a crew's worker, in an order of its own.
use replay_forge.Base.{
  ℕ, ◌+◌, ◌≡◌, ◌∙◌, refl, ap, sym, subst, String, false, List, [], ◌∷◌, ◌++◌, map, Option, none,
  some, arith, update_by, ◌==◌, ==_iff, Bool-cases, inl, inr,
}
use replay_forge.Models.{Status, AttemptStatus, Event, Worker}
use replay_forge.Service.Redis.{Stream}
use replay_forge.Service.World.{Platform, World, Error, ◌>>◌, call_redis}
use replay_forge.Service.Hoare.{Takes, Keeps, takes-bind, takes-catch}
use replay_forge.Worker.{
  is_final, process_event_stub, handle_success, handle_failure, try_block, processing_event, marked,
}
use replay_forge.Worker.Failure.{process_event_stub_reads}
use replay_forge.Crew.{
  Crew, CrewStep, mark, succeed, fail, Readings, with_object, perform, run_crew, mark_processing,
  commit_success, commit_failure, hold, attempt_row, written_row,
}
use replay_forge.Crew.Alone.{IsRow, IsAlike, flush-IsRow, handle_failure-IsAlike}

module _ (p : Platform) (i : ℕ) where
  -- The steps of worker `i`, one after the other.
  abbrev pub run_alone : List CrewStep → Crew p → Crew p
  run_alone schedule c = run_crew p (map (λ (s : CrewStep). (i, s)) schedule) c

  run_alone-append :
      (xs : List CrewStep) (y : CrewStep) (c : Crew p)
      → run_alone (xs ++ y ∷ []) c ≡ perform p i y (run_alone xs c)
  unfolding run_crew
  run_alone-append [] y c = refl
  run_alone-append (x ∷ xs) y c = run_alone-append xs y (perform p i x c)

  -- The world is that of the crew after some steps.
  pub record IsFollowed (c : Crew p) (w : World p) : Type 0 where
    pub schedule : List CrewStep
    pub like : IsAlike i w (run_alone schedule c)

  -- The object is also the row of its event, which may have gone on from `e` to another status.
  pub record IsHeld (c : Crew p) (e : Event) (w : World p) : Type 0 where
    pub schedule : List CrewStep
    pub like : IsAlike i w (run_alone schedule c)
    pub status_now : Status
    pub updated_now : ℕ
    pub object : w.held ≡ some (record e { status = status_now; updated_at = updated_now })
    pub own :
        IsRow
          (record e { status = status_now; updated_at = updated_now })
          (p.tables.rows w.db.events)

  IsAlike-same :
      {w w' : World p} {c : Crew p}
      → w'.db ≡ w.db
      → w'.held ≡ w.held
      → IsAlike i w c
      → IsAlike i w' c
  IsAlike-same db held h = record {
    events = rw db h.events;
    attempts = rw db h.attempts;
    dead_letters = rw db h.dead_letters;
    object = rw held h.object;
  }

  pub IsFollowed-same :
      {w w' : World p} {c : Crew p}
      → w'.db ≡ w.db
      → w'.held ≡ w.held
      → IsFollowed c w
      → IsFollowed c w'
  IsFollowed-same db held h = record { schedule = h.schedule; like = IsAlike-same db held h.like }

  IsHeld-same :
      {w w' : World p} {c : Crew p} {e : Event}
      → w'.db ≡ w.db
      → w'.held ≡ w.held
      → IsHeld c e w
      → IsHeld c e w'
  IsHeld-same db held h = record {
    schedule = h.schedule;
    like = IsAlike-same db held h.like;
    status_now = h.status_now;
    updated_now = h.updated_now;
    object = rw held h.object;
    own = rw db h.own;
  }

  IsHeld-IsFollowed : (c : Crew p) (e : Event) (w : World p) → IsHeld c e w → IsFollowed c w
  IsHeld-IsFollowed c e w h = record { schedule = h.schedule; like = h.like }

  updated-IsRow :
      (after : Event) (es : List Event)
      → IsRow after (update_by (λ r. r.id == after.id) (λ _. after) es)
  updated-IsRow after [] = tt
  updated-IsRow after (r ∷ es) = elim (Bool-cases (r.id == after.id)) [
    | inl own ↦ rw own (λ _. refl, updated-IsRow after es)
    | inr other ↦
        rw other (λ same. absurd (ground (arith, ==_iff r.id after.id)), updated-IsRow after es)
  ]

  -- One step more, of a worker that has an object.
  one_more_step :
      (c : Crew p) (schedule : List CrewStep) (step : CrewStep) (o : Event)
      (f : Event → Crew p → Crew p)
      → ((d : Crew p) → perform p i step d ≡ with_object p (d.held i) f d)
      → (run_alone schedule c).held i ≡ some o
      → run_alone (schedule ++ step ∷ []) c ≡ f o (run_alone schedule c)
  one_more_step c schedule step o f does held =
      run_alone-append schedule step c
      ∙ does (run_alone schedule c)
      ∙ ap (λ h. with_object p h f (run_alone schedule c)) held

  perform-fail :
      (text : String) (r : Readings) (d : Crew p)
      → perform p i (fail text r) d ≡ with_object p (d.held i) (commit_failure p i text r) d
  unfolding perform
  perform-fail text r d = refl

  perform-succeed :
      (r : Readings) (d : Crew p)
      → perform p i (succeed r) d ≡ with_object p (d.held i) (commit_success p i r) d
  unfolding perform
  perform-succeed r d = refl

  perform-mark :
      (updated : ℕ) (d : Crew p)
      → perform p i (mark updated) d ≡ with_object p (d.held i) (mark_processing p i updated) d
  unfolding perform
  perform-mark updated d = refl

  handle_failure-Takes :
      (c : Crew p) (e : Event) (worker : Worker) (n t : ℕ) (error : Error)
      → Takes (IsHeld c e) (handle_failure p e worker n t error) (IsFollowed c)
  handle_failure-Takes c e worker n t error w h =
      let (r, like) =
        handle_failure-IsAlike p i e h.status_now h.updated_now worker n t error w
          (run_alone h.schedule c) h.like h.own in
      record {
        schedule = h.schedule ++ fail _ r ∷ [];
        like =
            subst (IsAlike i (handle_failure p e worker n t error w).1)
              (sym (
                one_more_step c h.schedule (fail _ r) _ (commit_failure p i _ r) (perform-fail _ r)
                  (h.like.object ∙ h.object)))
              like;
      }

  pub own_object : (o : Option Event) (held : ℕ → Option Event) → hold i o held i ≡ o
  own_object o held = rw ((==_iff i i).1 refl) refl

  -- The commit of an object that is the row of its event, by its columns and as a whole.
  commit_rows :
      (w : World p) (d : Crew p) (o : Event) (status : Status) (updated : ℕ)
      → IsAlike i w d
      → IsRow o (p.tables.rows w.db.events)
      → p.tables.rows (
          p.tables.update
            (λ r. r.id == o.id)
            (written_row o (record o { status = status; updated_at = updated }))
            d.db.events)
        ≡ p.tables.rows (
            p.tables.update
              (λ r. r.id == o.id)
              (λ _. record o { status = status; updated_at = updated })
              w.db.events)
  commit_rows w d o status updated like own =
      let after = record o { status = status; updated_at = updated } in
      p.tables.rows-update (λ r. r.id == o.id) (written_row o after) d.db.events
      ∙ ap (update_by (λ r. r.id == o.id) (written_row o after)) like.events
      ∙ flush-IsRow o status o.attempt_count o.next_retry_at o.last_error updated
          (p.tables.rows w.db.events) own
      ∙ sym (p.tables.rows-update (λ r. r.id == o.id) (λ _. after) w.db.events)

  committed-IsRow :
      (w : World p) (after : Event)
      → IsRow after
          (p.tables.rows (p.tables.update (λ r. r.id == after.id) (λ _. after) w.db.events))
  committed-IsRow w after =
      rw (p.tables.rows-update (λ r. r.id == after.id) (λ _. after) w.db.events)
        (updated-IsRow after (p.tables.rows w.db.events))

  handle_success-Takes :
      (c : Crew p) (e : Event) (worker : Worker) (n t : ℕ)
      → Takes (IsHeld c e) (handle_success p e worker n t) (IsHeld c e)
  unfolding handle_success commit_success
  handle_success-Takes c e worker n t w h =
      let o = record e { status = h.status_now; updated_at = h.updated_now } in
      let d = run_alone h.schedule c in
      let r : Readings = record {
        worker = worker;
        attempt_num = n;
        started_at = t;
        finished_at = p.clock w.tick;
        updated_at = p.clock (w.tick + 1);
        retry_at = 0;
        attempt_id = p.uuid4 (w.tick + 1 + 1);
        letter_id = 0;
        letter_created_at = 0;
      } in
      let a = attempt_row o AttemptStatus.succeeded none r in
      record {
        schedule = h.schedule ++ succeed r ∷ [];
        like =
            subst (IsAlike i (handle_success p e worker n t w).1)
              (sym (
                one_more_step c h.schedule (succeed r) o (commit_success p i r) (perform-succeed r)
                  (h.like.object ∙ h.object)))
              (record {
                events = commit_rows w d o Status.succeeded (p.clock (w.tick + 1)) h.like h.own;
                attempts =
                    p.tables.rows-add a d.db.attempts
                    ∙ ap (λ rows. rows ++ a ∷ []) h.like.attempts
                    ∙ sym (p.tables.rows-add a w.db.attempts);
                dead_letters = h.like.dead_letters;
                object = own_object _ d.held;
              });
        status_now = Status.succeeded;
        updated_now = p.clock (w.tick + 1);
        object = refl;
        own =
            committed-IsRow w
              (record e { status = Status.succeeded; updated_at = p.clock (w.tick + 1) });
      }

  process_event_stub-Keeps :
      (c : Crew p) (e e' : Event) → Keeps (IsHeld c e) (process_event_stub p e')
  process_event_stub-Keeps c e e' w h = rw (process_event_stub_reads p e' w) h

  call_redis-IsHeld :
      (c : Crew p) (e : Event) (f : p.redis.Server → Option p.redis.Server)
      → Keeps (IsHeld c e) (call_redis p f)
  call_redis-IsHeld c e f w h = IsHeld-same (ground arith) (ground arith) h

  pub call_redis-IsFollowed :
      (c : Crew p) (f : p.redis.Server → Option p.redis.Server)
      → Keeps (IsFollowed c) (call_redis p f)
  call_redis-IsFollowed c f w h = IsFollowed-same (ground arith) (ground arith) h

  pub try_block-Takes :
      (c : Crew p) (worker : Worker) (s : Stream) (msg_id : ℕ) (e : Event) (n t : ℕ)
      → Takes (IsHeld c e) (try_block p worker s msg_id e n t) (IsFollowed c)
  unfolding try_block
  try_block-Takes c worker s msg_id e n t =
      let ack = p.redis.xack s msg_id in
      takes-catch {Q = IsHeld c e}
        (do process_event_stub p e; handle_success p e worker n t; call_redis p ack)
        (λ error. do handle_failure p e worker n t error; call_redis p ack) (IsHeld-IsFollowed c e)
        (takes-bind {Q = IsHeld c e} (process_event_stub p e)
          (λ _. do handle_success p e worker n t; call_redis p ack) (λ w h. h)
          (process_event_stub-Keeps c e e)
          (λ _.
            takes-bind {Q = IsHeld c e} (handle_success p e worker n t) (λ _. call_redis p ack)
              (λ w h. h) (handle_success-Takes c e worker n t) (λ _. call_redis-IsHeld c e ack)))
        (λ error.
          takes-bind {Q = IsFollowed c} (handle_failure p e worker n t error)
            (λ _. call_redis p ack) (λ w h. h) (handle_failure-Takes c e worker n t error)
            (λ _. call_redis-IsFollowed c ack))

  -- The commit that marks the event.
  pub marked-IsHeld :
      (c : Crew p) (e : Event) (w : World p)
      → is_final e.status ≡ false
      → IsHeld c e w
      → w.held ≡ some e
      → IsRow e (p.tables.rows w.db.events)
      → IsHeld c (processing_event e (p.clock (w.tick + 1))) (marked p e w)
  unfolding mark_processing
  marked-IsHeld c e w alive h held own =
      let d = run_alone h.schedule c in
      let updated = p.clock (w.tick + 1) in
      record {
        schedule = h.schedule ++ mark updated ∷ [];
        like =
            subst (IsAlike i (marked p e w))
              (sym (
                one_more_step c h.schedule (mark updated) e (mark_processing p i updated)
                  (perform-mark updated) (h.like.object ∙ held)))
              (rw alive (record {
                events = commit_rows w d e Status.processing updated h.like own;
                attempts = h.like.attempts;
                dead_letters = h.like.dead_letters;
                object = own_object _ d.held;
              }));
        status_now = Status.processing;
        updated_now = updated;
        object = refl;
        own = committed-IsRow w (processing_event e updated);
      }
