-- ===== src/Service/Loading.antt =====
-- What a select of one event gives, in terms of the rows and the held object.
use replay_forge.Base.{
  ℕ, ◌≡◌, none, some, arith, head?, find_by, head?-keep, List, Option, find_by_sound, ==_iff,
}
use replay_forge.Models.{Event, is_event}
use replay_forge.Service.World.{Platform, World, ok, load_event, held_or}

module _ (p : Platform) (id : ℕ) (w : World p) where
  select_one :
      head? (p.tables.select (is_event id) w.db.events)
      ≡ find_by (is_event id) (p.tables.rows w.db.events)
  select_one =
      rw (p.tables.select-rows (is_event id) w.db.events)
        (head?-keep (is_event id) (p.tables.rows w.db.events))

  pub load_event-none :
      find_by (is_event id) (p.tables.rows w.db.events) ≡ none
      → load_event p id w ≡ (ok none, record w { held = none })
  unfolding load_event
  load_event-none e = ground (arith, e, select_one)

  pub load_event-some :
      (row : Event)
      → find_by (is_event id) (p.tables.rows w.db.events) ≡ some row
      → load_event p id w
        ≡ (ok (some (held_or p w.held row)), record w { held = some (held_or p w.held row) })
  unfolding load_event
  load_event-some row e = ground (arith, e, select_one)

-- The object that is read has the id that was asked for.
pub held_or-id :
    (p : Platform) (id : ℕ) (held : Option Event) (row : Event) (rows : List Event)
    → find_by (is_event id) rows ≡ some row
    → (held_or p held row).id ≡ id
held_or-id p id none row rows found = (==_iff _ _).0 (find_by_sound (is_event id) rows found)
held_or-id p id (some e) row rows found =
    ground (arith, (==_iff row.id id).0 (find_by_sound (is_event id) rows found))
