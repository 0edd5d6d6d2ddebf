-- ===== src/Queries/Timeline.antt =====
-- The timeline of a workflow and its summary.
use replay_forge.Base.{
  ℕ, ◌+◌, ◌≡◌, ◌∙◌, refl, String, Bool, true, List, [], ◌∷◌, map, arith, All, IsAscending, count_by,
  length, sorted, sorted-IsAscending, leb_trans, leb_total, All-map,
}
use replay_forge.Models.{Status, Event, EventAttempt}
use replay_forge.Service.Ordering.{Sort, ascending}
use replay_forge.Service.World.{Platform, World, Result, ok, raise, Error}
use replay_forge.Workflows.{
  WorkflowSummaryOut, counts_succeeded, counts_failed, counts_dead_lettered, counts_in_flight,
  in_workflow, group_row, respond, get_workflow, summary_of,
}
use replay_forge.Queries.{
  EventAttemptOut, TimelineEvent, WorkflowTimelineOut, attempt_out, by_number, timeline_event,
  timeline, attempts_of, get_workflow_timeline,
}

-- How many events of a timeline have a status that counts.
abbrev pub shown : (Status → Bool) → List TimelineEvent → ℕ
shown counts = count_by (λ (e : TimelineEvent). counts e.status)

-- A timeline shows what the summary counts, the events from the first made on, and the attempts of
-- each by their numbers.
pub record IsShown (t : WorkflowTimelineOut) (s : WorkflowSummaryOut) : Type 0 where
  pub same_workflow : t.workflow_id ≡ s.workflow_id
  pub total : length t.events ≡ s.total_events
  pub succeeded : shown counts_succeeded t.events ≡ s.succeeded
  pub failed : shown counts_failed t.events ≡ s.failed
  pub dead_lettered : shown counts_dead_lettered t.events ≡ s.dead_lettered
  pub in_flight : shown counts_in_flight t.events ≡ s.in_flight
  pub order : IsAscending (ascending (λ (e : TimelineEvent). e.created_at)) t.events
  pub attempts :
      All
        (λ (e : TimelineEvent).
          IsAscending (ascending (λ (a : EventAttemptOut). a.attempt_number)) e.attempts)
        t.events

-- Both endpoints answer, or both say that there is no such workflow.
pub data IsAgreed : Result WorkflowTimelineOut → Result WorkflowSummaryOut → Type 0 where
  missing :
      IsAgreed
        (raise (Error.http 404 "workflow not found"))
        (raise (Error.http 404 "workflow not found"))
  there : (t : WorkflowTimelineOut) (s : WorkflowSummaryOut) → IsShown t s → IsAgreed (ok t) (ok s)

module _ {A B : Type 0} (f : A → B) where
  length-map : (xs : List A) → length (map f xs) ≡ length xs
  length-map [] = refl
  length-map (x ∷ xs) = omega (arith, length-map xs)

  count-map : (q : B → Bool) (xs : List A) → count_by q (map f xs) ≡ count_by (λ x. q (f x)) xs
  count-map q [] = refl
  count-map q (x ∷ xs) = ground (arith, count-map q xs)

  map-IsAscending :
      (le : B → B → Bool) (xs : List A)
      → IsAscending (λ a b. le (f a) (f b)) xs
      → IsAscending le (map f xs)
  map-IsAscending le [] h = tt
  map-IsAscending le (x ∷ xs) h =
      (All-map f (λ y. le (f x) y ≡ true) xs h.0, map-IsAscending le xs h.1)

length-count : {A : Type 0} (xs : List A) → count_by (λ _. true) xs ≡ length xs
length-count [] = refl
length-count (x ∷ xs) = omega (arith, length-count xs)

All_always : {A : Type 0} (P : A → Type 0) → ((a : A) → P a) → (xs : List A) → All P xs
All_always P h [] = tt
All_always P h (x ∷ xs) = (h x, All_always P h xs)

attempts-IsAscending :
    (rows : List EventAttempt)
    → IsAscending
        (ascending (λ (a : EventAttemptOut). a.attempt_number))
        (map attempt_out (sorted by_number rows))
attempts-IsAscending rows =
    map-IsAscending attempt_out (ascending (λ (a : EventAttemptOut). a.attempt_number))
      (sorted by_number rows)
      (sorted-IsAscending by_number
        (λ a b c. leb_trans a.attempt_number b.attempt_number c.attempt_number)
        (λ a b. leb_total a.attempt_number b.attempt_number) rows)

module _ (p : Platform) (sort : Sort) (id : String) where
  shown-timeline :
      (w : World p) (counts : Status → Bool) (xs : List Event)
      → shown counts (map (λ (e : Event). timeline_event e (attempts_of p sort w.db e.id)) xs)
        ≡ count_by (λ (e : Event). counts e.status) xs
  shown-timeline w counts xs =
      count-map (λ (e : Event). timeline_event e (attempts_of p sort w.db e.id))
        (λ (e : TimelineEvent). counts e.status) xs

  timeline-IsAgreed :
      (w v : World p) (xs ys : List Event)
      → ((q : Event → Bool) → count_by q xs ≡ count_by q ys)
      → IsAscending (ascending (λ (e : Event). e.created_at)) xs
      → IsAgreed (timeline p sort id w.db xs w).0 (respond p (group_row id ys) v).0
  unfolding summary_of
  timeline-IsAgreed w v [] [] same up = missing
  timeline-IsAgreed w v [] (y ∷ ys) same up = absurd (ground (arith, same (λ _. true)))
  timeline-IsAgreed w v (x ∷ xs) [] same up = absurd (ground (arith, same (λ _. true)))
  timeline-IsAgreed w v (x ∷ xs) (y ∷ ys) same up =
      let show = λ (e : Event). timeline_event e (attempts_of p sort w.db e.id) in
      there _ _ (record {
        same_workflow = refl;
        total =
            length-map show (x ∷ xs)
            ∙ omega (arith, length-count (x ∷ xs), length-count (y ∷ ys), same (λ _. true));
        succeeded =
            shown-timeline w counts_succeeded (x ∷ xs) ∙ same (λ e. counts_succeeded e.status);
        failed = shown-timeline w counts_failed (x ∷ xs) ∙ same (λ e. counts_failed e.status);
        dead_lettered =
            shown-timeline w counts_dead_lettered (x ∷ xs)
            ∙ same (λ e. counts_dead_lettered e.status);
        in_flight =
            shown-timeline w counts_in_flight (x ∷ xs) ∙ same (λ e. counts_in_flight e.status);
        order = map-IsAscending show (ascending (λ (e : TimelineEvent). e.created_at)) (x ∷ xs) up;
        attempts =
            All-map show
              (λ e. IsAscending (ascending (λ (a : EventAttemptOut). a.attempt_number)) e.attempts)
              (x ∷ xs)
              (All_always
                (λ e.
                  IsAscending (ascending (λ (a : EventAttemptOut). a.attempt_number))
                    (show e).attempts)
                (λ e. attempts-IsAscending (attempts_of p sort w.db e.id)) (x ∷ xs));
      })

  -- The timeline of a workflow and its summary agree: both answer, or both say that there is none; the
  -- timeline has as many events as the summary counts, of each kind that it counts, those made first
  -- coming first, and the attempts of each come by their numbers.
  pub get_workflow_timeline-IsAgreed :
      (w : World p) → IsAgreed (get_workflow_timeline p sort id w).0 (get_workflow p id w).0
  unfolding get_workflow_timeline get_workflow
  get_workflow_timeline-IsAgreed w =
      let le = ascending (λ (e : Event). e.created_at) in
      let rows = p.tables.select (in_workflow id) w.db.events in
      timeline-IsAgreed (record w { tick = w.tick + 1 }) w (sort.order_by le w.tick rows) rows
        (λ q. sort.count_by-order_by le w.tick q rows)
        (sort.order_by-IsAscending le (λ a b c. leb_trans a.created_at b.created_at c.created_at)
          (λ a b. leb_total a.created_at b.created_at) w.tick rows)
