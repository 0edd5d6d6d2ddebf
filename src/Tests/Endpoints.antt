-- ===== src/Tests/Endpoints.antt =====
-- The theorems of Queries at concrete inputs.
use replay_forge.Base.{
  ◌≡◌, refl, Bool, List, [], ◌∷◌, map, some, arith, sorted, sorted-IsAscending, count_by,
  count_by-sorted, All-sorted,
}
use replay_forge.Models.{DeadLetter, Status}
use replay_forge.Service.Ordering.{Sort, descending}
use replay_forge.Service.World.{World, ok}
use replay_forge.Workflows.{get_workflow}
use replay_forge.Ingest.{
  Session, meanwhile, select_application, select_event, flush_application, flush_event,
  create_application, get_or_create_application, new_event, create_event, refresh, select_row,
  find_or_create_event, get_or_create_event,
}
use replay_forge.Ingest.Publish.{Backend, EventOut, ingest_event}
use replay_forge.Ingest.Again.{quiet}
use replay_forge.Queries.{
  DeadLetterOut, dead_letter_out, event_of, list_deadletters, get_workflow_timeline, details,
  get_event_details,
}
use replay_forge.Queries.Paging.{read_pages, list_deadletters_pages}
use replay_forge.Queries.Stored.{payload_of, ingest_event-get_event}
use replay_forge.Queries.Timeline.{IsAgreed, get_workflow_timeline-IsAgreed}
use replay_forge.Tests.Services.{platform}
use replay_forge.Tests.Data.{fresh, dead, letter, dead_world}
use replay_forge.Tests.Ingest.{checkout, session}

-- A database that sorts like `sorted`.
abbrev pub stable : Sort
stable = record {
  order_by = λ le k xs. sorted le xs;
  order_by-IsAscending = λ le trans total k xs. sorted-IsAscending le trans total xs;
  count_by-order_by = λ le k q xs. count_by-sorted le q xs;
  order_by-All = λ le k P xs all. All-sorted le P xs all;
}

-- Three dead letters, and events of two workflows.
abbrev listed : World platform
listed = record dead_world {
  db = record dead_world.db {
    events =
        dead
        ∷ record fresh { id = 8; workflow_id = "refund_1"; updated_at = 5 }
        ∷ record fresh { id = 9; updated_at = 3 }
        ∷ [];
    dead_letters =
        letter
        ∷ record letter { id = 22; created_at = 4 }
        ∷ record letter { id = 23; created_at = 2 }
        ∷ [];
  };
}

list_deadletters_pages_example :
    (outs : List DeadLetterOut) × ((read_pages platform
        (list_deadletters platform stable)
        2
        2
        0
        listed).0
      ≡ ok outs)
    × (outs
        ≡ map
            (λ (d : DeadLetter). dead_letter_out d (event_of platform stable listed.db d))
            (sorted (descending (λ (d : DeadLetter). d.created_at)) listed.db.dead_letters))
    × ((q : DeadLetterOut → Bool)
        → count_by q outs
          ≡ count_by
              (λ d. q (dead_letter_out d (event_of platform stable listed.db d)))
              listed.db.dead_letters)
list_deadletters_pages_example =
    list_deadletters_pages platform stable 2 2 listed (ground arith) (omega arith)

get_workflow_timeline-IsAgreed_example :
    IsAgreed
      (get_workflow_timeline platform stable "checkout_1" listed).0
      (get_workflow platform "checkout_1" listed).0
get_workflow_timeline-IsAgreed_example =
    get_workflow_timeline-IsAgreed platform stable "checkout_1" listed

-- The second page has the oldest dead letter.
second_page :
    (list_deadletters platform stable 2 2 listed).0 ≡ ok (dead_letter_out letter (some dead) ∷ [])
unfolding list_deadletters
second_page = refl

program : Unit {0}
unfolding get_or_create_event get_or_create_application create_application find_or_create_event
    create_event refresh select_row flush_application flush_event meanwhile select_application
    select_event
program = tt

ingest_event-get_event_example :
    (out : EventOut) × (s'' : Session platform) × (ingest_event platform
        (quiet platform)
        Backend.redis
        checkout
        session
      ≡ (ok out, s''))
    × ((get_event_details platform out.event.id (record listed { db = s''.committed })).0
        ≡ ok (details platform s''.committed out.event))
    × (payload_of "checkout" out.event ≡ checkout)
    × (out.event.status ≡ Status.queued)
unfolding program
ingest_event-get_event_example =
    ingest_event-get_event platform Backend.redis checkout session
      (get_or_create_event platform (quiet platform) checkout session).1
      (new_event platform (quiet platform)
        (record { id = 1001; name = "checkout"; created_at = 2000000 }) checkout 1005 6000000)
      listed (λ k. refl) refl
