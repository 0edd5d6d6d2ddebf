-- ===== src/Process/Swept.antt =====
-- What the sweep at the start of a worker process deletes, and what it leaves to the attempts.
use replay_forge.Base.{
  ℕ, ◌+◌, ◌<◌, ◌≡◌, refl, Bool, false, not, ◌&&◌, List, [], ◌∷◌, Option, none, some, arith, keep,
  count_by, update_by, length, All, Bool-cases, inl, inr,
}
use replay_forge.Models.{EventAttempt, Worker, is_worker}
use replay_forge.Service.World.{Platform, World, ok}
use replay_forge.Process.{is_gone, names_gone, clear_worker, gc_stale_workers}

-- The rows that pass `q` are those that are kept and those that go.
kept_and_gone :
    (gone q : Worker → Bool) (ws : List Worker)
    → count_by q ws ≡ count_by q (keep (λ w. not (gone w)) ws) + count_by (λ w. gone w && q w) ws
kept_and_gone gone q [] = refl
kept_and_gone gone q (w ∷ ws) = ground (arith, kept_and_gone gone q ws)

length_kept :
    (gone : Worker → Bool) (ws : List Worker)
    → length ws ≡ count_by gone ws + length (keep (λ w. not (gone w)) ws)
length_kept gone [] = refl
length_kept gone (w ∷ ws) = ground (arith, length_kept gone ws)

none_gone :
    (gone : Worker → Bool) (ws : List Worker) → count_by gone (keep (λ w. not (gone w)) ws) ≡ 0
none_gone gone [] = refl
none_gone gone (w ∷ ws) = ground (arith, none_gone gone ws)

-- The worker that an attempt names is there.
abbrev pub NamesWorker : List Worker → Option ℕ → Type 0
NamesWorker ws none = Unit {0}
NamesWorker ws (some id) = 0 < count_by (is_worker id) ws

abbrev pub AllNamed : List Worker → List EventAttempt → Type 0
AllNamed ws = All (λ (a : EventAttempt). NamesWorker ws a.worker_id)

module _ (p : Platform) (read : ℕ) (ws : List Worker) where
  abbrev left : List Worker
  left = keep (λ w. not (is_gone p read w)) ws

  -- Such a name either is cleared or stays good.
  NamesWorker-left :
      (o : Option ℕ) → NamesWorker ws o → names_gone p read ws o ≡ false → NamesWorker left o
  NamesWorker-left none h e = tt
  NamesWorker-left (some id) h e = ground (arith, kept_and_gone (is_gone p read) (is_worker id) ws)

  AllNamed-left :
      (as_rows : List EventAttempt)
      → AllNamed ws as_rows
      → AllNamed left (
          update_by
            (λ (a : EventAttempt). names_gone p read ws a.worker_id)
            (clear_worker p)
            as_rows)
  AllNamed-left [] h = tt
  AllNamed-left (a ∷ rest) h = elim (Bool-cases (names_gone p read ws a.worker_id)) [
    | inl cleared ↦ (rw cleared tt, AllNamed-left rest h.1)
    | inr good ↦ (rw good (NamesWorker-left a.worker_id h.0 good), AllNamed-left rest h.1)
  ]

-- The sweep deletes exactly the workers whose last heartbeat is more than five minutes old, returns
-- their number, and leaves no attempt that names a worker which is not there, if there was none.
pub gc_stale_workers_lem :
    (p : Platform) (w : World p)
    → AllNamed (p.tables.rows w.db.workers) (p.tables.rows w.db.attempts)
    → (n : ℕ) × (w' : World p) × (gc_stale_workers p w ≡ (ok n, w'))
      × (length (p.tables.rows w.db.workers) ≡ n + length (p.tables.rows w'.db.workers))
      × (n ≡ count_by (is_gone p (p.clock w.tick)) (p.tables.rows w.db.workers))
      × (count_by (is_gone p (p.clock w.tick)) (p.tables.rows w'.db.workers) ≡ 0)
      × AllNamed (p.tables.rows w'.db.workers) (p.tables.rows w'.db.attempts)
unfolding gc_stale_workers
gc_stale_workers_lem p w named =
    let ws = p.tables.rows w.db.workers in
    let read = p.clock w.tick in
    let gone = is_gone p read in
    let left_rows = p.tables.rows-delete gone w.db.workers in
    let attempt_rows =
      p.tables.rows-update (λ (a : EventAttempt). names_gone p read ws a.worker_id) (clear_worker p)
        w.db.attempts in
    (
      count_by gone ws,
      (gc_stale_workers p w).1,
      refl,
      rw left_rows (length_kept gone ws),
      refl,
      rw left_rows (none_gone gone ws),
      rw (left_rows, attempt_rows) (AllNamed-left p read ws (p.tables.rows w.db.attempts) named),
    )
