-- ===== src/Crew/Kept.antt =====
-- Every step of every worker keeps the rows and the objects sound.
use replay_forge.Base.{
  ℕ, ◌+◌, ◌≡◌, ◌≤◌, refl, sym, String, false, List, [], ◌∷◌, ◌++◌, Option, none, some, arith, All,
  ◌==◌, Bool-cases, inl, inr, find_by-All, head?-keep, leb, find_by, leb→le, head?,
}
use replay_forge.Models.{Status, AttemptStatus, Event, EventAttempt, is_event, status_eq}
use replay_forge.Accounting.{failures}
use replay_forge.Service.Tables.{Db}
use replay_forge.Service.World.{Platform, held_or}
use replay_forge.Retry.{should_dead_letter}
use replay_forge.Worker.{is_final, processing_event}
use replay_forge.Crew.{
  Crew, Readings, CrewStep, written_row, hold, attempt_row, letter_row, dead_event, retrying_event,
  succeeded_event, load_row, mark_processing, commit_success, commit_failure, with_object, take_row,
  perform, run_crew,
}
use replay_forge.Crew.Sound.{
  IsBounded, IsSoundRow, IsSoundObject, IsSoundLetter, IsSound, IsBounded-add, IsSoundObject-add,
  IsSoundLetter-add, IsSoundRow-calm, calm-rows, failed-IsBounded, failed-rows, one_more,
}

All-append :
    {A : Type 0} (P : A → Type 0) (xs : List A) (y : A) → All P xs → P y → All P (xs ++ y ∷ [])
All-append P [] y h k = (k, tt)
All-append P (x ∷ xs) y h k = (h.0, All-append P xs y h.1 k)

alive_eq : (s : Status) → is_final s ≡ false → status_eq s Status.dead_lettered ≡ false
alive_eq Status.dead_lettered h = cc
alive_eq Status.received h = refl
alive_eq Status.queued h = refl
alive_eq Status.processing h = refl
alive_eq Status.retrying h = refl
alive_eq Status.succeeded h = refl
alive_eq Status.failed h = refl
alive_eq Status.cancelled h = refl

-- Replacing the object of one worker.
hold-IsSoundObject :
    (limit : ℕ → ℕ) (attempts : List EventAttempt) (i : ℕ) (e : Event) (held : ℕ → Option Event)
    → IsBounded limit attempts e
    → ((j : ℕ) → IsSoundObject limit attempts (held j))
    → (j : ℕ) → IsSoundObject limit attempts (hold i (some e) held j)
hold-IsSoundObject limit attempts i e held now h j = elim (Bool-cases (i == j)) [
  | inl own ↦ rw own now
  | inr other ↦ rw other (h j)
]

drop-IsSoundObject :
    (limit : ℕ → ℕ) (attempts : List EventAttempt) (i : ℕ) (held : ℕ → Option Event)
    → ((j : ℕ) → IsSoundObject limit attempts (held j))
    → (j : ℕ) → IsSoundObject limit attempts (hold i none held j)
drop-IsSoundObject limit attempts i held h j = elim (Bool-cases (i == j)) [
  | inl own ↦ rw own tt
  | inr other ↦ rw other (h j)
]

held_or-IsBounded :
    (p : Platform) (limit : ℕ → ℕ) (attempts : List EventAttempt) (held : Option Event)
    (row : Event)
    → IsSoundObject limit attempts held
    → IsBounded limit attempts row
    → IsBounded limit attempts (held_or p held row)
held_or-IsBounded p limit attempts none row h k = k
held_or-IsBounded p limit attempts (some e) row h k = elim (Bool-cases (e.id == row.id)) [
  | inl own ↦ rw own h
  | inr other ↦ rw other k
]

module _ (p : Platform) (limit : ℕ → ℕ) (i : ℕ) where
  take_row-IsSound :
      (id : ℕ) (found : Option Event) (c : Crew p)
      → found ≡ find_by (is_event id) (p.tables.rows c.db.events)
      → IsSound limit c
      → IsSound limit (take_row p i found c)
  take_row-IsSound id none c e h = record {
    rows = h.rows;
    objects = drop-IsSoundObject limit (p.tables.rows c.db.attempts) i c.held h.objects;
    letters = h.letters;
  }
  take_row-IsSound id (some row) c e h =
      let attempts = p.tables.rows c.db.attempts in
      let sound =
        find_by-All (IsSoundRow limit attempts) (is_event id) (p.tables.rows c.db.events) row
          (sym e) h.rows in
      record {
        rows = h.rows;
        objects =
            hold-IsSoundObject limit attempts i (held_or p (c.held i) row) c.held
              (held_or-IsBounded p limit attempts (c.held i) row (h.objects i) sound.bounded)
              h.objects;
        letters = h.letters;
      }

  load_row-IsSound : (id : ℕ) (c : Crew p) → IsSound limit c → IsSound limit (load_row p i id c)
  unfolding load_row
  load_row-IsSound id c h =
      take_row-IsSound id (head? (p.tables.select (is_event id) c.db.events)) c
        (rw (p.tables.select-rows (is_event id) c.db.events)
          (head?-keep (is_event id) (p.tables.rows c.db.events)))
        h

  mark_processing-IsSound :
      (updated : ℕ) (e : Event) (c : Crew p)
      → IsBounded limit (p.tables.rows c.db.attempts) e
      → IsSound limit c
      → IsSound limit (mark_processing p i updated e c)
  unfolding mark_processing
  mark_processing-IsSound updated e c own h = elim (Bool-cases (is_final e.status)) [
    | inl final ↦ rw final h
    | inr alive ↦
        let after = processing_event e updated in
        rw alive (record {
          rows = rw (p.tables.rows-update (λ r. r.id == e.id) (written_row e after) c.db.events) (
              calm-rows limit (p.tables.rows c.db.attempts) e after (p.tables.rows c.db.events) refl
                refl h.rows);
          objects =
              hold-IsSoundObject limit (p.tables.rows c.db.attempts) i after c.held
                (record { max = own.max; count = own.count; dead = λ d. absurd (ground arith) })
                h.objects;
          letters = h.letters;
        })
  ]

  commit_success-IsSound :
      (r : Readings) (e : Event) (c : Crew p)
      → IsBounded limit (p.tables.rows c.db.attempts) e
      → IsSound limit c
      → IsSound limit (commit_success p i r e c)
  unfolding commit_success
  commit_success-IsSound r e c own h =
      let a = attempt_row e AttemptStatus.succeeded none r in
      let after = succeeded_event e r in
      let attempts = p.tables.rows c.db.attempts in
      record {
        rows =
            rw
              (
                p.tables.rows-add a c.db.attempts,
                p.tables.rows-update (λ r. r.id == e.id) (written_row e after) c.db.events,
              )
              (calm-rows limit (attempts ++ a ∷ []) e after (p.tables.rows c.db.events) refl refl
                (IsSoundRow-calm limit attempts a (p.tables.rows c.db.events) refl h.rows));
        objects = rw (p.tables.rows-add a c.db.attempts) (
            hold-IsSoundObject limit (attempts ++ a ∷ []) i after c.held
              (let more = IsBounded-add limit attempts a e own in
                record { max = own.max; count = more.count; dead = λ d. absurd (ground arith) })
              (λ j. IsSoundObject-add limit attempts a (c.held j) (h.objects j)));
        letters =
            rw (p.tables.rows-add a c.db.attempts)
              (IsSoundLetter-add limit attempts a (p.tables.rows c.db.dead_letters) h.letters);
      }

  -- The commit of a failure, whatever the status it gives: `letters` are the dead letters after it.
  failure_written :
      (a : EventAttempt) (e after : Event) (c : Crew p) (d : Db p.tables)
      → IsBounded limit (p.tables.rows c.db.attempts) e
      → IsBounded limit (p.tables.rows c.db.attempts ++ a ∷ []) after
      → a.event_id ≡ after.id
      → e.attempt_count + 1 ≡ after.attempt_count
      → p.tables.rows d.attempts ≡ p.tables.rows c.db.attempts ++ a ∷ []
      → d.events ≡ p.tables.update (λ r. r.id == after.id) (written_row e after) c.db.events
      → All
          (IsSoundLetter limit (p.tables.rows c.db.attempts ++ a ∷ []))
          (p.tables.rows d.dead_letters)
      → IsSound limit c
      → IsSound {p = p} limit (record { db = d; held = hold i (some after) c.held })
  failure_written a e after c d own now of_event more added updated letters h =
      let attempts = p.tables.rows c.db.attempts in
      record {
        rows =
            rw
              (
                added,
                updated,
                p.tables.rows-update (λ r. r.id == after.id) (written_row e after) c.db.events,
              )
              (failed-rows limit attempts a e after (p.tables.rows c.db.events) of_event more now
                h.rows);
        objects = rw added (
            hold-IsSoundObject limit (attempts ++ a ∷ []) i after c.held now
              (λ j. IsSoundObject-add limit attempts a (c.held j) (h.objects j)));
        letters = rw added letters;
      }

  commit_failure-IsSound :
      (error : String) (r : Readings) (e : Event) (c : Crew p)
      → IsBounded limit (p.tables.rows c.db.attempts) e
      → IsSound limit c
      → IsSound limit (commit_failure p i error r e c)
  unfolding commit_failure should_dead_letter
  commit_failure-IsSound error r e c own h =
      let a = attempt_row e AttemptStatus.failed (some error) r in
      let attempts = p.tables.rows c.db.attempts in
      let letters =
        IsSoundLetter-add limit attempts a (p.tables.rows c.db.dead_letters) h.letters in
      elim (Bool-cases (leb e.max_attempts (e.attempt_count + 1))) [
        | inl spent ↦
            let late : limit e.id ≤ failures (attempts ++ a ∷ []) e.id =
              rw (sym own.max, one_more limit attempts a e.id refl refl)
                (omega (arith, leb→le _ _ spent, own.count)) in
            rw spent (
              failure_written a e (dead_event e error r) c _ own
                (failed-IsBounded limit attempts a e (dead_event e error r) refl refl refl refl refl
                  (λ _. leb→le _ _ spent) own)
                refl refl (p.tables.rows-add a c.db.attempts) refl
                (rw (p.tables.rows-add (letter_row e error r) c.db.dead_letters) (
                  All-append _ (p.tables.rows c.db.dead_letters) (letter_row e error r) letters
                    late))
                h)
        | inr left ↦ rw left (
            failure_written a e (retrying_event e error r) c _ own
              (failed-IsBounded limit attempts a e (retrying_event e error r) refl refl refl refl
                refl (λ d. absurd (ground arith)) own)
              refl refl (p.tables.rows-add a c.db.attempts) refl letters h)
      ]

  object-IsSound :
      (f : Event → Crew p → Crew p) (o : Option Event) (c : Crew p)
      → ((e : Event) → IsBounded limit (p.tables.rows c.db.attempts) e → IsSound limit (f e c))
      → IsSoundObject limit (p.tables.rows c.db.attempts) o
      → IsSound limit c
      → IsSound limit (with_object p o f c)
  object-IsSound f none c step own h = h
  object-IsSound f (some e) c step own h = step e own

  perform-IsSound :
      (turn : CrewStep) (c : Crew p) → IsSound limit c → IsSound limit (perform p i turn c)
  unfolding perform
  perform-IsSound (CrewStep.load id) c h = load_row-IsSound id c h
  perform-IsSound (CrewStep.mark updated) c h =
      object-IsSound (mark_processing p i updated) (c.held i) c
        (λ e own. mark_processing-IsSound updated e c own h) (h.objects i) h
  perform-IsSound (CrewStep.succeed r) c h =
      object-IsSound (commit_success p i r) (c.held i) c
        (λ e own. commit_success-IsSound r e c own h) (h.objects i) h
  perform-IsSound (CrewStep.fail error r) c h =
      object-IsSound (commit_failure p i error r) (c.held i) c
        (λ e own. commit_failure-IsSound error r e c own h) (h.objects i) h
  perform-IsSound CrewStep.restart c h = record {
    rows = h.rows;
    objects = drop-IsSoundObject limit (p.tables.rows c.db.attempts) i c.held h.objects;
    letters = h.letters;
  }

-- However the steps of any number of workers are interleaved, also where several have the same event or
-- start again: an event never counts more failures than attempts of it have failed, it counts at least
-- one if one has failed, and neither is it dead-lettered nor is there a dead letter for it before as many
-- attempts have failed as it may have (`limit`, its `max_attempts`), if this is so at the start.
pub run_crew-IsSound :
    (p : Platform) (limit : ℕ → ℕ) (schedule : List (ℕ × CrewStep)) (c : Crew p)
    → IsSound limit c
    → IsSound limit (run_crew p schedule c)
unfolding run_crew
run_crew-IsSound p limit [] c h = h
run_crew-IsSound p limit ((i, turn) ∷ rest) c h =
    run_crew-IsSound p limit rest (perform p i turn c) (perform-IsSound p limit i turn c h)
