-- ===== src/Crew/Messages.antt =====
-- A message that the worker of Worker handles, as steps of a crew's worker.
use replay_forge.Base.{
  ℕ, ◌+◌, ◌≡◌, ◌∙◌, refl, ap, sym, subst, false, List, [], ◌∷◌, Option, none, some, All, ◌==◌,
  Bool-cases, Option-cases, inl, inr, find_by, find_by-All, head?, head?-keep,
}
use replay_forge.Models.{Event, Worker, is_event}
use replay_forge.Service.Redis.{Stream}
use replay_forge.Service.World.{Platform, World, held_or}
use replay_forge.Worker.{is_final, processing_event, marked, attempt_event, handle_message}
use replay_forge.Worker.Dispatch.{handle_message_missing, handle_message_final, handle_message_open}
use replay_forge.Crew.{Crew, load, perform, run_crew, load_row, take_row}
use replay_forge.Crew.Alone.{IsRow, IsAlike}
use replay_forge.Crew.Follows.{
  IsFollowed, IsHeld, IsFollowed-same, own_object, call_redis-IsFollowed, try_block-Takes,
  marked-IsHeld,
}

-- No two rows have one id, and the object is the row of its event.
abbrev pub IsUniqueRows : List Event → Type 0
IsUniqueRows rows = All (λ a. IsRow a rows) rows

abbrev pub IsHeldRow : List Event → Option Event → Type 0
IsHeldRow rows none = Unit {0}
IsHeldRow rows (some e) = IsRow e rows

held_or-IsRow :
    (p : Platform) (rows : List Event) (held : Option Event) (row : Event)
    → IsHeldRow rows held
    → IsRow row rows
    → IsRow (held_or p held row) rows
held_or-IsRow p rows none row h own = own
held_or-IsRow p rows (some e) row h own = elim (Bool-cases (e.id == row.id)) [
  | inl same ↦ rw same h
  | inr other ↦ rw other own
]

module _ (p : Platform) (i : ℕ) where
  attempt_event-IsFollowed :
      (c : Crew p) (worker : Worker) (s : Stream) (msg_id : ℕ) (e : Event) (w : World p)
      → is_final e.status ≡ false
      → IsHeld p i c e w
      → w.held ≡ some e
      → IsRow e (p.tables.rows w.db.events)
      → IsFollowed p i c (attempt_event p worker s msg_id e w).1
  unfolding attempt_event
  attempt_event-IsFollowed c worker s msg_id e w alive h held own =
      let e' = processing_event e (p.clock (w.tick + 1)) in
      IsFollowed-same p i refl refl (
        try_block-Takes p i c worker s msg_id e' (e.attempt_count + 1) (p.clock w.tick)
          (marked p e w) (marked-IsHeld p i c e w alive h held own))

  -- The select of the event, as the first step.
  loaded-IsHeld :
      (c : Crew p) (id : ℕ) (row : Event) (w : World p)
      → IsAlike i w c
      → find_by (is_event id) (p.tables.rows w.db.events) ≡ some row
      → IsRow (held_or p w.held row) (p.tables.rows w.db.events)
      → IsHeld p i c (held_or p w.held row) (record w { held = some (held_or p w.held row) })
  unfolding run_crew perform load_row
  loaded-IsHeld c id row w like found own =
      let e = held_or p w.held row in
      let gives : head? (p.tables.select (is_event id) c.db.events) ≡ some row =
        rw (p.tables.select-rows (is_event id) c.db.events) (
          head?-keep (is_event id) (p.tables.rows c.db.events)
          ∙ ap (find_by (is_event id)) like.events
          ∙ found) in
      record {
        schedule = load id ∷ [];
        like =
            subst (λ o. IsAlike i (record w { held = some e }) (take_row p i o c)) (sym gives)
              (record {
                events = like.events;
                attempts = like.attempts;
                dead_letters = like.dead_letters;
                object = own_object p i _ c.held ∙ ap (λ o. some (held_or p o row)) like.object;
              });
        status_now = e.status;
        updated_now = e.updated_at;
        object = refl;
        own = own;
      }

  -- With no row the object is dropped on both sides.
  missing-IsLoaded :
      (c : Crew p) (id : ℕ) (w : World p)
      → IsAlike i w c
      → find_by (is_event id) (p.tables.rows w.db.events) ≡ none
      → IsFollowed p i c (record w { held = none })
  unfolding run_crew load_row perform
  missing-IsLoaded c id w like missing =
      let gives : head? (p.tables.select (is_event id) c.db.events) ≡ none =
        rw (p.tables.select-rows (is_event id) c.db.events) (
          head?-keep (is_event id) (p.tables.rows c.db.events)
          ∙ ap (find_by (is_event id)) like.events
          ∙ missing) in
      record {
        schedule = load id ∷ [];
        like =
            subst (λ o. IsAlike i (record w { held = none }) (take_row p i o c)) (sym gives)
              (record {
                events = like.events;
                attempts = like.attempts;
                dead_letters = like.dead_letters;
                object = own_object p i _ c.held;
              });
      }

  -- A worker that handles a message, however that ends, leaves the events, attempts and dead letters and
  -- the object that a crew's worker leaves after steps of its own, if no two events have one id and the
  -- object that it still holds is the row of its event.
  pub handle_message-IsFollowed :
      (worker : Worker) (s : Stream) (msg_id : ℕ) (event_id : Option ℕ) (w : World p) (c : Crew p)
      → IsAlike i w c
      → IsUniqueRows (p.tables.rows w.db.events)
      → IsHeldRow (p.tables.rows w.db.events) w.held
      → IsFollowed p i c (handle_message p worker s msg_id event_id w).1
  unfolding handle_message run_crew
  handle_message-IsFollowed worker s msg_id none w c like unique held =
      call_redis-IsFollowed p i c (p.redis.xack s msg_id) w (record { schedule = []; like = like })
  handle_message-IsFollowed worker s msg_id (some event_id) w c like unique held =
      let rows = p.tables.rows w.db.events in
      elim (Option-cases (find_by (is_event event_id) rows)) [
        | inl missing ↦ rw (handle_message_missing p worker s msg_id event_id w missing) (
            call_redis-IsFollowed p i c (p.redis.xack s msg_id) (record w { held = none })
              (missing-IsLoaded c event_id w like missing))
        | inr (row, found) ↦
            let e = held_or p w.held row in
            let own =
              held_or-IsRow p rows w.held row held
                (find_by-All (λ a. IsRow a rows) (is_event event_id) rows row found unique) in
            let loaded = loaded-IsHeld c event_id row w like found own in
            let v = record w { held = some e } in
            elim (Bool-cases (is_final e.status)) [
              | inl final ↦ rw (handle_message_final p worker s msg_id event_id w row found final) (
                  call_redis-IsFollowed p i c (p.redis.xack s msg_id) v
                    (record { schedule = loaded.schedule; like = loaded.like }))
              | inr alive ↦
                  rw (handle_message_open p worker s msg_id event_id w row found alive)
                    (attempt_event-IsFollowed c worker s msg_id e v alive loaded refl own)
            ]
      ]
