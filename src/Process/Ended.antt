-- ===== src/Process/Ended.antt =====
-- What a worker process leaves in the table of workers.
use replay_forge.Base.{
  ◌+◌, ◌≡◌, refl, String, List, [], ◌∷◌, Option, none, some, arith, ◌⊎◌, inl, inr, Option-cases,
  head?, head?-keep, find_by, find_by-update, find_by-append, find_by-none, ==_iff, eq_iff,
}
use replay_forge.Models.{WorkerStatus, Worker, is_worker, has_worker_name}
use replay_forge.Service.Redis.{Stream}
use replay_forge.Service.World.{Platform, World, ok, raise, Error}
use replay_forge.Heartbeat.{mark_worker_stopped}
use replay_forge.Process.{
  Consumer, Turn, refreshed, refresh_worker, create_worker, register_worker, reclaim_orphans,
  consume, stop_worker, serve, ensure_consumer_group, gc_stale_workers, run, launch, claim,
  GroupReply,
}
use replay_forge.Process.Rows.{consume-HasWorkers, reclaim_orphans-HasWorkers}

module _ (p : Platform) (name : String) where
  abbrev pub named : World p → Option Worker
  named w = find_by (has_worker_name name) (p.tables.rows w.db.workers)

  -- The row of that name is active, and has no event.
  abbrev pub IsRegistered : Worker → World p → Type 0
  IsRegistered r w =
      (named w ≡ some r) × (r.status ≡ WorkerStatus.active) × (r.current_event_id ≡ none)

  refresh_worker_lem :
      (e : Worker) (w : World p)
      → named w ≡ some e
      → (r : Worker) × (w' : World p) × (refresh_worker p e w ≡ (ok r, w')) × IsRegistered r w'
  unfolding refresh_worker
  refresh_worker_lem e w found =
      let read = p.clock w.tick in
      let updated = p.clock (w.tick + 1) in
      let rows = p.tables.rows-update (is_worker e.id) (refreshed p read updated) w.db.workers in
      let kept =
        find_by-update (has_worker_name name) (is_worker e.id) (refreshed p read updated)
          (λ x. refl) (p.tables.rows w.db.workers) found in
      (
        refreshed p read updated e,
        (refresh_worker p e w).1,
        refl,
        (rw rows (ground (arith, kept, (==_iff e.id e.id).1 refl)), refl, refl),
      )

  create_worker_lem :
      (w : World p)
      → named w ≡ none
      → (r : Worker) × (w' : World p) × (create_worker p name w ≡ (ok r, w')) × IsRegistered r w'
  unfolding create_worker
  create_worker_lem w missing =
      let new : Worker = record {
        id = p.uuid4 w.tick;
        worker_name = name;
        status = WorkerStatus.active;
        last_heartbeat_at = p.clock (w.tick + 1);
        current_event_id = none;
        created_at = p.clock (w.tick + 1 + 1);
        updated_at = p.clock (w.tick + 1 + 1 + 1);
      } in
      let rows = p.tables.rows w.db.workers in
      let free = find_by-none (has_worker_name name) rows missing in
      let added =
        p.tables.add_unique-free (has_worker_name name) new w.db.workers ((==_iff _ _).1 free) in
      (
        new,
        record w {
          db = record w.db { workers = p.tables.add new w.db.workers };
          tick = w.tick + 1 + 1 + 1 + 1;
        },
        ground (arith, added),
        (
          rw (p.tables.rows-add new w.db.workers)
              (find_by-append (has_worker_name name) rows new missing ((eq_iff name name).1 refl)),
          refl,
          refl,
        ),
      )

  -- A registration never fails: it gives the row of the name, which is active and has no event.
  register_worker_lem :
      (w : World p)
      → (r : Worker) × (w' : World p) × (register_worker p name w ≡ (ok r, w')) × IsRegistered r w'
  unfolding register_worker
  register_worker_lem w = elim (Option-cases (named w)) [
    | inl missing ↦
        let (r, w', made, registered) = create_worker_lem w missing in
        (r, w', ground (arith, made, select), registered)
    | inr (e, found) ↦
        let (r, w', made, registered) = refresh_worker_lem e w found in
        (r, w', ground (arith, made, select), registered)
  ]
    where
      select : head? (p.tables.select (has_worker_name name) w.db.workers) ≡ named w
      select =
          rw (p.tables.select-rows (has_worker_name name) w.db.workers)
            (head?-keep (has_worker_name name) (p.tables.rows w.db.workers))

reclaim_orphans-ok :
    (p : Platform) (c : Consumer p.redis) (streams : List Stream) (w : World p)
    → (reclaim_orphans p c streams w).0 ≡ ok tt
unfolding reclaim_orphans
reclaim_orphans-ok p c [] w = refl
reclaim_orphans-ok p c (s ∷ streams) w =
    ground (arith, reclaim_orphans-ok p c streams (claim p c s w).1)

module _ (p : Platform) (name : String) (consumer : Consumer p.redis) where
  -- The row of that name is stopped, and has no event.
  abbrev pub IsStopped : World p → Type 0
  IsStopped w =
      (r : Worker) × (named p name w ≡ some r)
      × (r.status ≡ WorkerStatus.stopped)
      × (r.current_event_id ≡ none)

  stop_worker-IsStopped :
      (worker : Worker) (w : World p)
      → named p name w ≡ some worker
      → IsStopped (stop_worker p worker w).1
  unfolding mark_worker_stopped
  stop_worker-IsStopped worker w found =
      let stopped : Worker → Worker = λ r. record r {
        status = WorkerStatus.stopped;
        current_event_id = none;
        updated_at = p.clock w.tick;
      } in
      let kept =
        find_by-update (has_worker_name name) (is_worker worker.id) stopped (λ x. refl)
          (p.tables.rows w.db.workers) found in
      (
        stopped worker,
        rw (p.tables.rows-update (is_worker worker.id) stopped w.db.workers)
            (ground (arith, kept, (==_iff worker.id worker.id).1 refl)),
        refl,
        refl,
      )

  serve-IsStopped :
      (turns : List (Turn p.redis)) (worker : Worker) (w : World p)
      → named p name w ≡ some worker
      → IsStopped (serve p consumer turns worker w).1
  unfolding serve
  serve-IsStopped turns worker w found =
      let streams = Stream.incoming ∷ Stream.retry ∷ [] in
      let w1 = (reclaim_orphans p consumer streams w).1 in
      let w2 = (consume p worker turns w1).1 in
      let claimed =
        (reclaim_orphans-HasWorkers p w.db.workers consumer streams).run w
          (record { same = refl }) in
      let consumed = (consume-HasWorkers p w.db.workers worker turns).run w1 claimed in
      let still : named p name w2 ≡ some worker = rw consumed.same found in
      let end : (serve p consumer turns worker w).1 ≡ (stop_worker p worker w2).1 =
        ground (arith, reclaim_orphans-ok p consumer streams w) in
      rw end (stop_worker-IsStopped worker w2 still)

  launch-IsStopped :
      (turns : List (Turn p.redis)) (w : World p) → IsStopped (launch p consumer name turns w).1
  unfolding launch gc_stale_workers
  launch-IsStopped turns w =
      let swept = (gc_stale_workers p w).1 in
      let (r, w', registered, (row, active, idle)) = register_worker_lem p name swept in
      let end : (launch p consumer name turns w).1 ≡ (serve p consumer turns r w').1 =
        ground (arith, registered) in
      rw end (serve-IsStopped turns r w' row)

  -- The group is there and nothing else has changed, or the call has raised.
  ensure_consumer_group-cases :
      (s : Stream) (w : World p)
      → ((r : p.redis.Server) × (ensure_consumer_group p consumer s w
            ≡ (ok tt, record w { redis = r })))
        ⊎ (ensure_consumer_group p consumer s w ≡ (raise (Error.redis_error p.redis_message), w))
  unfolding ensure_consumer_group
  ensure_consumer_group-cases s w = go (consumer.xgroup_create s w.redis) refl
    where
      go :
          (reply : GroupReply p.redis)
          → consumer.xgroup_create s w.redis ≡ reply
          → ((r : p.redis.Server) × (ensure_consumer_group p consumer s w
                ≡ (ok tt, record w { redis = r })))
            ⊎ (ensure_consumer_group p consumer s w
                ≡ (raise (Error.redis_error p.redis_message), w))
      go (GroupReply.created r) e = inl (r, ground (arith, e))
      go GroupReply.busy_group e = inl (w.redis, ground (arith, e))
      go GroupReply.failed e = inr (ground (arith, e))

  -- Without what the heartbeat's thread writes, the main thread either fails before it touches the
  -- tables, because a consumer group could not be made, or ends, also where its loop raises, with the
  -- row of its name stopped and without an event.
  pub run-IsStopped :
      (turns : List (Turn p.redis)) (w : World p)
      → ((run p consumer name turns w).0 ≡ raise (Error.redis_error p.redis_message)
          × ((run p consumer name turns w).1.db ≡ w.db))
        ⊎ IsStopped (run p consumer name turns w).1
  unfolding run
  run-IsStopped turns w = elim (ensure_consumer_group-cases Stream.incoming w) [
    | inr failed ↦ inl (ground (arith, failed), ground (arith, failed))
    | inl (r, first) ↦
        let w1 = record w { redis = r } in
        elim (ensure_consumer_group-cases Stream.retry w1) [
          | inr failed ↦ inl (ground (arith, first, failed), ground (arith, first, failed))
          | inl (r', second) ↦
              let end : (run p consumer name turns w).1
                  ≡ (launch p consumer name turns (record w { redis = r' })).1 =
                ground (arith, first, second) in
              inr (rw end (launch-IsStopped turns (record w { redis = r' })))
        ]
  ]
