-- ===== src/Insights/Groups.antt =====
-- services_breakdown and event_type_breakdown of api/app/api/insights.py: the groups and their numbers.
use replay_forge.Base.{
  ℕ, suc, ◌+◌, ◌≤◌, ◌<◌, ◌≡◌, refl, sym, subst, leb_trans, leb_total, String, Bool, ◌&&◌, List, [],
  ◌∷◌, if◌then◌else◌, str_eq, map, All, count_by, length, length-keep, IsAscending,
  sorted-IsAscending, sum_by, rows_of, group_by, group_total, AllGroups, group_total-group_by,
  group_by-AllGroups, arith, count_by-keep, sum_by-sorted, All-sorted, All-map, sum_by-map,
}
use replay_forge.Models.{Status, Event, status_eq}
use replay_forge.Service.World.{Platform, World, ok}
use replay_forge.Convergence.Rows.{has_status}
use replay_forge.Insights.{
  ServiceRow, TypeRow, service_of, type_of, service_row, type_row, more_services, more_types,
  services_of, types_of, services_breakdown, event_type_breakdown,
}

-- The events with this key and this status.
abbrev pub in_group : (Event → String) → String → Status → Event → Bool
in_group key k s e = str_eq (key e) k && has_status s e

three_step :
    (s : Status) (a b c : ℕ)
    → (if status_eq s Status.succeeded then suc a else a)
        + (if status_eq s Status.dead_lettered then suc b else b)
        + (if status_eq s Status.retrying then suc c else c)
      ≤ suc (a + b + c)
three_step Status.received a b c = omega arith
three_step Status.queued a b c = omega arith
three_step Status.processing a b c = omega arith
three_step Status.retrying a b c = omega arith
three_step Status.succeeded a b c = omega arith
three_step Status.dead_lettered a b c = omega arith
three_step Status.failed a b c = omega arith
three_step Status.cancelled a b c = omega arith

three_le :
    (es : List Event)
    → count_by (has_status Status.succeeded) es
        + count_by (has_status Status.dead_lettered) es
        + count_by (has_status Status.retrying) es
      ≤ length es
three_le [] = omega arith
three_le (e ∷ es) = omega (
  arith,
  three_le es,
  three_step e.status (count_by (has_status Status.succeeded) es)
      (count_by (has_status Status.dead_lettered) es) (count_by (has_status Status.retrying) es),
)

-- The numbers of a group are those of the events with its key, of which there is one at least.
pub record IsTally (key : Event → String) (events : List Event) (k : String)
    (total succeeded dead retrying : ℕ) : Type 0 where
  pub all_of_key : total ≡ count_by (λ e. str_eq (key e) k) events
  pub all_succeeded : succeeded ≡ count_by (in_group key k Status.succeeded) events
  pub all_dead : dead ≡ count_by (in_group key k Status.dead_lettered) events
  pub all_retrying : retrying ≡ count_by (in_group key k Status.retrying) events
  pub some_event : 0 < total
  pub at_most_total : succeeded + dead + retrying ≤ total

abbrev GroupIsTally : (Event → String) → List Event → String × List Event → Type 0
GroupIsTally key events g =
    IsTally key events g.0 (length g.1) (count_by (has_status Status.succeeded) g.1)
      (count_by (has_status Status.dead_lettered) g.1) (count_by (has_status Status.retrying) g.1)

module _ (key : Event → String) (events : List Event) where
  rows_of-IsTally :
      (k : String)
      → 0 < length (rows_of key k events)
      → GroupIsTally key events (k, rows_of key k events)
  rows_of-IsTally k h = record {
    all_of_key = length-keep (λ e. str_eq (key e) k) events;
    all_succeeded = count_by-keep (has_status Status.succeeded) (λ e. str_eq (key e) k) events;
    all_dead = count_by-keep (has_status Status.dead_lettered) (λ e. str_eq (key e) k) events;
    all_retrying = count_by-keep (has_status Status.retrying) (λ e. str_eq (key e) k) events;
    some_event = h;
    at_most_total = three_le (rows_of key k events);
  }

  groups-IsTally :
      (gs : List (String × List Event)) → AllGroups key events gs → All (GroupIsTally key events) gs
  groups-IsTally [] h = tt
  groups-IsTally ((k, g) ∷ gs) h = (
    subst (λ es. GroupIsTally key events (k, es)) (sym h.0) (rows_of-IsTally k (rw h.0 at h.1)),
    groups-IsTally gs h.2,
  )

sum_by-groups : (gs : List (String × List Event)) → sum_by (λ g. length g.1) gs ≡ group_total gs
sum_by-groups [] = refl
sum_by-groups ((k, g) ∷ gs) = omega (arith, sum_by-groups gs)

-- The endpoint always answers: an element has the numbers of the events of its service, of which
-- there is one at least and of which the succeeded, dead-lettered and retrying are no more than
-- all; the totals add up to the number of events, and the larger come first.
pub services_breakdown-IsTally :
    (p : Platform) (w : World p)
    → let events = p.tables.rows w.db.events in
      (out : List ServiceRow) × ((services_breakdown p w).0 ≡ ok out)
      × All (λ r. IsTally service_of events r.service r.total r.succeeded r.failed r.retrying) out
      × (sum_by (λ (r : ServiceRow). r.total) out ≡ length events)
      × IsAscending more_services out
unfolding services_breakdown services_of service_row
services_breakdown-IsTally p w =
    let events = p.tables.rows w.db.events in
    let attempts = p.tables.rows w.db.attempts in
    let groups = group_by service_of events in
    let f = service_row events attempts in
    (
      _,
      refl,
      All-sorted more_services _ (map f groups) (
          All-map f
            (λ r. IsTally service_of events r.service r.total r.succeeded r.failed r.retrying)
            groups
            (groups-IsTally service_of events groups (group_by-AllGroups service_of events))),
      omega (
        arith,
        sum_by-sorted more_services (λ (r : ServiceRow). r.total) (map f groups),
        sum_by-map f (λ (r : ServiceRow). r.total) groups,
        sum_by-groups groups,
        group_total-group_by service_of events,
      ),
      sorted-IsAscending more_services (λ a b c h k. leb_trans c.total b.total a.total k h)
          (λ a b. leb_total b.total a.total) (map f groups),
    )

-- The same of the event types.
pub event_type_breakdown-IsTally :
    (p : Platform) (w : World p)
    → let events = p.tables.rows w.db.events in
      (out : List TypeRow) × ((event_type_breakdown p w).0 ≡ ok out)
      × All
          (λ r. IsTally type_of events r.event_type r.total r.succeeded r.dead_lettered r.retrying)
          out
      × (sum_by (λ (r : TypeRow). r.total) out ≡ length events)
      × IsAscending more_types out
unfolding event_type_breakdown types_of type_row
event_type_breakdown-IsTally p w =
    let events = p.tables.rows w.db.events in
    let groups = group_by type_of events in
    (
      _,
      refl,
      All-sorted more_types _ (map type_row groups) (
          All-map type_row
            (λ r.
              IsTally type_of events r.event_type r.total r.succeeded r.dead_lettered r.retrying)
            groups (groups-IsTally type_of events groups (group_by-AllGroups type_of events))),
      omega (
        arith,
        sum_by-sorted more_types (λ (r : TypeRow). r.total) (map type_row groups),
        sum_by-map type_row (λ (r : TypeRow). r.total) groups,
        sum_by-groups groups,
        group_total-group_by type_of events,
      ),
      sorted-IsAscending more_types (λ a b c h k. leb_trans c.total b.total a.total k h)
          (λ a b. leb_total b.total a.total) (map type_row groups),
    )
