-- ===== src/Worker/Dispatch.antt =====
-- The three ways that a message with an event id goes: no row, a final status, an attempt.
use replay_forge.Base.{ℕ, ◌≡◌, true, false, none, some, arith, find_by}
use replay_forge.Models.{Event, Worker, is_event}
use replay_forge.Service.Redis.{Stream}
use replay_forge.Service.World.{Platform, World, call_redis, held_or}
use replay_forge.Service.Loading.{load_event-none, load_event-some}
use replay_forge.Worker.{is_final, attempt_event, handle_message}

module _ (p : Platform) (worker : Worker) (s : Stream) (msg_id id : ℕ) (w : World p) where
  pub handle_message_missing :
      find_by (is_event id) (p.tables.rows w.db.events) ≡ none
      → handle_message p worker s msg_id (some id) w
        ≡ call_redis p (p.redis.xack s msg_id) (record w { held = none })
  unfolding handle_message
  handle_message_missing e = ground (arith, load_event-none p id w e)

  module _ (row : Event)
      (found : find_by (is_event id) (p.tables.rows w.db.events) ≡ some row) where
    -- The object that is read, and the world in which it is held.
    abbrev pub object : Event
    object = held_or p w.held row

    abbrev pub loaded : World p
    loaded = record w { held = some object }

    pub handle_message_final :
        is_final object.status ≡ true
        → handle_message p worker s msg_id (some id) w ≡ call_redis p (p.redis.xack s msg_id) loaded
    unfolding handle_message
    handle_message_final final = ground (arith, load_event-some p id w row found)

    pub handle_message_open :
        is_final object.status ≡ false
        → handle_message p worker s msg_id (some id) w
          ≡ attempt_event p worker s msg_id object loaded
    unfolding handle_message
    handle_message_open open_event = ground (arith, load_event-some p id w row found)
