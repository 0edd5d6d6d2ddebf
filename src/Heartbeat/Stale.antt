-- ===== src/Heartbeat/Stale.antt =====
-- Which workers go stale, and how a heartbeat keeps one from it.
use replay_forge.Base.{
  ℕ, ◌+◌, ◌*◌, ◌≤◌, ◌≡◌, refl, Bool, true, false, ◌&&◌, List, [], ◌∷◌, Option, some, arith,
  count_by, find_by, update_by, find_by-update, find_by_sound, count_by-update_by,
}
use replay_forge.Models.{WorkerStatus, Worker, is_worker, is_working}
use replay_forge.Service.World.{Platform, World, ok}
use replay_forge.Heartbeat.{
  is_late, beat, make_stale, goes_stale, mark_worker_active, mark_stale_workers,
}

abbrev pub has_gone_stale : WorkerStatus → Bool
has_gone_stale WorkerStatus.stale = true
has_gone_stale _ = false

-- Working, though the heartbeat is before `read` less `threshold` seconds.
abbrev pub is_overdue : ℕ → ℕ → Worker → Bool
is_overdue threshold read w = is_working w.status && is_late threshold read w

module _ (p : Platform) (threshold read updated : ℕ) where
  abbrev after : List Worker → List Worker
  after = update_by (goes_stale p threshold read) (make_stale p updated)

  none_overdue : (ws : List Worker) → count_by (is_overdue threshold read) (after ws) ≡ 0
  none_overdue [] = refl
  none_overdue (w ∷ ws) = ground (arith, none_overdue ws)

  working_not_stale : (s : WorkerStatus) → is_working s ≡ true → has_gone_stale s ≡ false
  working_not_stale WorkerStatus.active h = refl
  working_not_stale WorkerStatus.busy h = refl
  working_not_stale WorkerStatus.stopped h = cc
  working_not_stale WorkerStatus.stale h = cc

  stale_count :
      (ws : List Worker)
      → count_by (λ (w : Worker). has_gone_stale w.status) (after ws)
        ≡ count_by (goes_stale p threshold read) ws
          + count_by (λ (w : Worker). has_gone_stale w.status) ws
  stale_count [] = refl
  stale_count (w ∷ ws) = ground (arith, stale_count ws, working_not_stale w.status)

module _ (p : Platform) (w : World p) where
  abbrev workers_of : World p → List Worker
  workers_of v = p.tables.rows v.db.workers

  -- After `mark_stale_workers` no worker is active or busy with a heartbeat before the cutoff, the
  -- number that is returned is that of the workers that have become stale, and no row comes or goes.
  pub mark_stale_workers_lem :
      (threshold : ℕ)
      → (n : ℕ) × (w' : World p) × (mark_stale_workers p threshold w ≡ (ok n, w'))
        × (count_by (is_overdue threshold (p.clock w.tick)) (workers_of w') ≡ 0)
        × (count_by (λ (r : Worker). has_gone_stale r.status) (workers_of w')
            ≡ n + count_by (λ (r : Worker). has_gone_stale r.status) (workers_of w))
        × ((id : ℕ)
            → count_by (is_worker id) (workers_of w') ≡ count_by (is_worker id) (workers_of w))
  unfolding mark_stale_workers
  mark_stale_workers_lem threshold =
      let read = p.clock w.tick in
      let updated = p.clock (w.tick + 1) in
      let rows =
        p.tables.rows-update (goes_stale p threshold read) (make_stale p updated) w.db.workers in
      (
        _,
        _,
        refl,
        rw rows (none_overdue p threshold read updated (workers_of w)),
        rw rows (stale_count p threshold read updated (workers_of w)),
        λ id. rw rows (
            count_by-update_by (is_worker id) (goes_stale p threshold read) (make_stale p updated)
              (λ r. refl) (workers_of w)),
      )

  -- A worker whose heartbeat was recorded keeps the status that it was recorded with, if the workers
  -- are next looked through within the threshold after it.
  pub mark_worker_active_kept :
      (worker_id threshold : ℕ) (current_event_id : Option ℕ) (row : Worker)
      → find_by (is_worker worker_id) (workers_of w) ≡ some row
      → p.clock (w.tick + 1 + 1) ≤ p.clock w.tick + 1000000 * threshold
      → let w' = (mark_worker_active p worker_id current_event_id w).1 in
        let w'' = (mark_stale_workers p threshold w').1 in
        find_by (is_worker worker_id) (workers_of w'')
        ≡ some (beat p current_event_id (p.clock w.tick) (p.clock (w.tick + 1)) row)
  unfolding mark_worker_active mark_stale_workers
  mark_worker_active_kept worker_id threshold current_event_id row found soon =
      let read = p.clock w.tick in
      let updated = p.clock (w.tick + 1) in
      let beaten = beat p current_event_id read updated in
      let t = p.tables.update (is_worker worker_id) beaten w.db.workers in
      let late = goes_stale p threshold (p.clock (w.tick + 1 + 1)) in
      let fade = make_stale p (p.clock (w.tick + 1 + 1 + 1)) in
      let known = find_by_sound (is_worker worker_id) (workers_of w) found in
      let recorded : find_by (is_worker worker_id) (p.tables.rows t) ≡ some (beaten row) =
        rw (p.tables.rows-update (is_worker worker_id) beaten w.db.workers) (
          ground (
            arith,
            known,
            find_by-update (is_worker worker_id) (is_worker worker_id) beaten (λ r. refl)
                (workers_of w) found,
          )) in
      let in_time : late (beaten row) ≡ false = ground arith in
      rw (p.tables.rows-update late fade t) (
        ground (
          arith,
          in_time,
          find_by-update (is_worker worker_id) late fade (λ r. refl) (p.tables.rows t) recorded,
        ))
