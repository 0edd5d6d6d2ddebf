-- ===== src/Tests/Ingest.antt =====
-- The theorems of Ingest at concrete inputs.
use replay_forge.Base.{refl, false, ◌≡◌, true, Bool, []}
use replay_forge.Models.{Event, Status, end}
use replay_forge.Service.Tables.{Db}
use replay_forge.Service.World.{ok}
use replay_forge.Ingest.{
  EventCreate, Session, meanwhile, select_application, select_event, flush_application, flush_event,
  create_application, get_or_create_application, new_event, create_event, refresh, select_row,
  find_or_create_event, get_or_create_event,
}
use replay_forge.Ingest.Publish.{Backend, ingest_event}
use replay_forge.Ingest.Queued.{after_publish, ingest_event-queued}
use replay_forge.Ingest.Again.{quiet, get_or_create_event_twice}
use replay_forge.Tests.Services.{platform, list_tables}
use replay_forge.Tests.Data.{server}

abbrev pub checkout : EventCreate
checkout = record {
  application_name = "checkout";
  workflow_id = "checkout_1";
  event_type = "payment.authorized";
  service_name = "payment-service";
  idempotency_key = "checkout_1_payment.authorized";
  payload = end;
  metadata = end;
  max_attempts = 4;
}

abbrev pub empty : Db list_tables
empty = record {
  applications = [];
  events = [];
  attempts = [];
  dead_letters = [];
  workers = [];
  incident_summaries = [];
}

abbrev pub session : Session platform
session = record { committed = empty; view = empty; tick = 0; redis = server }

get_or_create_event_twice_example :
    (e : Event) × (dup : Bool) × (let (first, s') =
        get_or_create_event platform (quiet platform) checkout session in
      let (second, s'') = get_or_create_event platform (quiet platform) checkout s' in
      (first ≡ ok (e, dup))
      × (second ≡ ok (e, true))
      × (s''.committed ≡ s'.committed)
      × (s''.view ≡ s'.view))
get_or_create_event_twice_example = get_or_create_event_twice platform checkout session (λ k. refl)

program : Unit {0}
unfolding get_or_create_event get_or_create_application create_application find_or_create_event
    create_event refresh select_row flush_application flush_event meanwhile select_application
    select_event
program = tt

-- The first payload gives event 1005 of application 1001.
ingest_event-queued_example :
    (q : Event) × (s'' : Session platform) × (ingest_event platform
        (quiet platform)
        Backend.redis
        checkout
        session
      ≡ (ok (record { event = q; duplicate = false }), s''))
    × (q.id ≡ 1005)
    × (q.status ≡ Status.queued)
    × (s''.redis ≡ after_publish platform 1005 server)
unfolding program
ingest_event-queued_example =
    ingest_event-queued platform (quiet platform) checkout session
      (get_or_create_event platform (quiet platform) checkout session).1
      (new_event platform (quiet platform)
        (record { id = 1001; name = "checkout"; created_at = 2000000 }) checkout 1005 6000000)
      false refl (λ k d. refl) refl refl
