-- ===== src/Crew/Alone.antt =====
-- A worker whose object is the row of its event: its commits, as Worker has them, are those of a crew.
use replay_forge.Base.{
  ℕ, ◌+◌, ◌≡◌, ◌∙◌, refl, ap, sym, String, Bool, true, false, List, [], ◌∷◌, ◌++◌, Option, none,
  some, arith, All, update_by, ◌==◌, ==_iff, eq_iff, if◌then◌else◌, Bool-cases, inl, inr,
}
use replay_forge.Models.{Status, Reason, Event, EventAttempt, Worker, status_eq, status_eq_sound}
use replay_forge.Streams.{publish_deadletter}
use replay_forge.Service.Tables.{Db}
use replay_forge.Service.World.{Platform, World, Error, error_text, save_event}
use replay_forge.Worker.{handle_failure, give_up, plan_retry}
use replay_forge.Worker.Failure.{counted_event, failed_attempt, ready, plan_retry_lem}
use replay_forge.Crew.{
  Crew, Readings, same_text, same_moment, written_row, hold, letter_row, gives_up, commit_failure,
}

-- The rows of the event are the object.
abbrev pub IsRow : Event → List Event → Type 0
IsRow e = All (λ r. r.id ≡ e.id → r ≡ e)

same_text_sound : (a b : Option String) → same_text a b ≡ true → a ≡ b
same_text_sound none none h = refl
same_text_sound none (some b) h = cc
same_text_sound (some a) none h = cc
same_text_sound (some a) (some b) h = ap (λ t. some t) ((eq_iff a b).0 h)

same_moment_sound : (a b : Option ℕ) → same_moment a b ≡ true → a ≡ b
same_moment_sound none none h = refl
same_moment_sound none (some b) h = cc
same_moment_sound (some a) none h = cc
same_moment_sound (some a) (some b) h = ap (λ t. some t) ((==_iff a b).0 h)

-- A column that is kept where it has not changed is the new one.
kept_or_new :
    {A : Type 0} (test : Bool) (old new : A)
    → (test ≡ true → old ≡ new)
    → (if test then old else new) ≡ new
kept_or_new true old new h = h refl
kept_or_new false old new h = refl

-- The object with the five columns that a worker changes.
abbrev pub with_columns : Event → Status → ℕ → Option ℕ → Option String → ℕ → Event
with_columns e status count retry error updated = record e {
  status = status;
  attempt_count = count;
  next_retry_at = retry;
  last_error = error;
  updated_at = updated;
}

-- Its own row becomes the object, whatever is left out as unchanged.
written_own :
    (e : Event) (status : Status) (count : ℕ) (retry : Option ℕ) (error : Option String)
    (updated : ℕ)
    → written_row e (with_columns e status count retry error updated) e
      ≡ with_columns e status count retry error updated
written_own e status count retry error updated =
    rw
      (
        kept_or_new (status_eq e.status status) e.status status (status_eq_sound e.status status),
        kept_or_new (e.attempt_count == count) e.attempt_count count
            ((==_iff e.attempt_count count).0),
        kept_or_new (same_moment e.next_retry_at retry) e.next_retry_at retry
            (same_moment_sound e.next_retry_at retry),
        kept_or_new (same_text e.last_error error) e.last_error error
            (same_text_sound e.last_error error),
        kept_or_new (e.updated_at == updated) e.updated_at updated
            ((==_iff e.updated_at updated).0),
      )
      refl

-- So the flush of the changed columns writes the same rows as that of the whole object.
pub flush-IsRow :
    (e : Event) (status : Status) (count : ℕ) (retry : Option ℕ) (error : Option String)
    (updated : ℕ) (es : List Event)
    → IsRow e es
    → update_by
        (λ r. r.id == e.id)
        (written_row e (with_columns e status count retry error updated))
        es
      ≡ update_by (λ r. r.id == e.id) (λ _. with_columns e status count retry error updated) es
flush-IsRow e status count retry error updated [] h = refl
flush-IsRow e status count retry error updated (r ∷ es) h =
    let rest = flush-IsRow e status count retry error updated es h.1 in
    elim (Bool-cases (r.id == e.id)) [
      | inl own ↦
          let same = h.0 ((==_iff r.id e.id).0 own) in
          rw (own, same, written_own e status count retry error updated, rest) refl
      | inr other ↦ rw (other, rest) refl
    ]

-- The tables of a worker's world are those of the crew, and its object is that of worker `i`.
pub record IsAlike {p : Platform} (i : ℕ) (w : World p) (c : Crew p) : Type 0 where
  pub events : p.tables.rows c.db.events ≡ p.tables.rows w.db.events
  pub attempts : p.tables.rows c.db.attempts ≡ p.tables.rows w.db.attempts
  pub dead_letters : p.tables.rows c.db.dead_letters ≡ p.tables.rows w.db.dead_letters
  pub object : c.held i ≡ w.held

give_up_written :
    (p : Platform) (e : Event) (a : EventAttempt) (w : World p)
    → let w' = (give_up p e a w).1 in
      (w'.held ≡ some (record e { status = Status.dead_lettered }))
      × (w'.db.events ≡ (save_event p (record e { status = Status.dead_lettered }) w.db).events)
      × (w'.db.attempts ≡ p.tables.add a w.db.attempts)
      × (w'.db.dead_letters
          ≡ p.tables.add
              (record {
                id = p.uuid4 w.tick;
                event_id = e.id;
                reason = Reason.max_attempts_exceeded;
                last_error = e.last_error;
                created_at = p.clock (w.tick + 1);
                replayed_at = none;
                replay_status = none;
              })
              w.db.dead_letters)
unfolding give_up publish_deadletter
give_up_written p e a w = (ground arith, ground arith, ground arith, ground arith)

module _ (p : Platform) (i : ℕ) (e : Event) (status_now : Status) (updated_now : ℕ)
    (worker : Worker) (n t : ℕ) (error : Error) (w : World p) (c : Crew p) where
  -- The object of the crew's worker; the status and the update time of `e` can be older.
  abbrev object_now : Event
  object_now = record e { status = status_now; updated_at = updated_now }

  -- What `_handle_failure` reads, for a time of the retry.
  abbrev read_at : ℕ → Readings
  read_at at = record {
    worker = worker;
    attempt_num = n;
    started_at = t;
    finished_at = p.clock w.tick;
    updated_at = p.clock (w.tick + 1);
    retry_at = at;
    attempt_id = p.uuid4 (w.tick + 1 + 1);
    letter_id = p.uuid4 (w.tick + 1 + 1 + 1);
    letter_created_at = p.clock (w.tick + 1 + 1 + 1 + 1);
  }

  own_object : (o : Option Event) → hold i o c.held i ≡ o
  own_object o = rw ((==_iff i i).1 refl) refl

  flushed :
      (status : Status) (count : ℕ) (retry : Option ℕ) (text : Option String) (updated : ℕ)
      → IsAlike i w c
      → IsRow object_now (p.tables.rows w.db.events)
      → p.tables.rows (
          p.tables.update
            (λ r. r.id == e.id)
            (written_row object_now (with_columns e status count retry text updated))
            c.db.events)
        ≡ p.tables.rows (
            p.tables.update
              (λ r. r.id == e.id)
              (λ _. with_columns e status count retry text updated)
              w.db.events)
  flushed status count retry text updated like own =
      let after = with_columns e status count retry text updated in
      p.tables.rows-update (λ r. r.id == e.id) (written_row object_now after) c.db.events
      ∙ ap (update_by (λ r. r.id == e.id) (written_row object_now after)) like.events
      ∙ flush-IsRow object_now status count retry text updated (p.tables.rows w.db.events) own
      ∙ sym (p.tables.rows-update (λ r. r.id == e.id) (λ _. after) w.db.events)

  added :
      (a : EventAttempt)
      → IsAlike i w c
      → p.tables.rows (p.tables.add a c.db.attempts) ≡ p.tables.rows (p.tables.add a w.db.attempts)
  added a like =
      p.tables.rows-add a c.db.attempts
      ∙ ap (λ rows. rows ++ a ∷ []) like.attempts
      ∙ sym (p.tables.rows-add a w.db.attempts)

  retry-IsAlike :
      (gives_up object_now ≡ false)
      → IsAlike i w c
      → IsRow object_now (p.tables.rows w.db.events)
      → (r : Readings) × IsAlike i
          (plan_retry p
            (counted_event p e worker n t error w)
            (failed_attempt p e worker n t error w)
            (ready p e worker n t error w)).1
          (commit_failure p i (error_text error) r object_now c)
  unfolding commit_failure
  retry-IsAlike alive like own =
      let (at, held, db, _) =
        plan_retry_lem p (counted_event p e worker n t error w)
          (failed_attempt p e worker n t error w) (ready p e worker n t error w) in
      (
        read_at at,
        rw alive (record {
          events =
              flushed Status.retrying (e.attempt_count + 1) (some at) (some (error_text error))
                (p.clock (w.tick + 1)) like own
              ∙ ap (λ (d : Db p.tables). p.tables.rows d.events) (sym db);
          attempts =
              added (failed_attempt p e worker n t error w) like
              ∙ ap (λ (d : Db p.tables). p.tables.rows d.attempts) (sym db);
          dead_letters =
              like.dead_letters ∙ ap (λ (d : Db p.tables). p.tables.rows d.dead_letters) (sym db);
          object = own_object _ ∙ sym held;
        }),
      )

  dead-IsAlike :
      (gives_up object_now ≡ true)
      → IsAlike i w c
      → IsRow object_now (p.tables.rows w.db.events)
      → (r : Readings) × IsAlike i
          (give_up p
            (counted_event p e worker n t error w)
            (failed_attempt p e worker n t error w)
            (ready p e worker n t error w)).1
          (commit_failure p i (error_text error) r object_now c)
  unfolding commit_failure
  dead-IsAlike dead like own =
      let (held, events, attempts, letters) =
        give_up_written p (counted_event p e worker n t error w)
          (failed_attempt p e worker n t error w) (ready p e worker n t error w) in
      (
        read_at 0,
        rw dead (record {
          events =
              flushed Status.dead_lettered (e.attempt_count + 1) e.next_retry_at
                (some (error_text error)) (p.clock (w.tick + 1)) like own
              ∙ ap p.tables.rows (sym events);
          attempts =
              added (failed_attempt p e worker n t error w) like ∙ ap p.tables.rows (sym attempts);
          dead_letters =
              p.tables.rows-add (letter_row e (error_text error) (read_at 0)) c.db.dead_letters
              ∙ ap (λ rows. rows ++ letter_row e (error_text error) (read_at 0) ∷ [])
                  like.dead_letters
              ∙ sym (
                  p.tables.rows-add (letter_row e (error_text error) (read_at 0)) w.db.dead_letters)
              ∙ ap p.tables.rows (sym letters);
          object = own_object _ ∙ sym held;
        }),
      )

  -- A worker whose object is the row of its event writes for a failure what a worker of a crew writes, for
  -- what it reads: the same events, attempts and dead letters, and it has the same object afterwards.
  pub handle_failure-IsAlike :
      IsAlike i w c
      → IsRow object_now (p.tables.rows w.db.events)
      → (r : Readings) × IsAlike i
          (handle_failure p e worker n t error w).1
          (commit_failure p i (error_text error) r object_now c)
  unfolding handle_failure
  handle_failure-IsAlike like own = elim (Bool-cases (gives_up e)) [
    | inl dead ↦ rw dead (dead-IsAlike dead like own)
    | inr alive ↦ rw alive (retry-IsAlike alive like own)
  ]
