-- ===== src/Scheduler/Moved.antt =====
-- What a turn of the retry scheduler does to the sorted set.
use replay_forge.Base.{
  ℕ, ◌+◌, ◌≡◌, ap, refl, Bool, true, false, ◌||◌, List, [], ◌∷◌, Option, none, some, arith, ◌==◌,
  ==_iff, if◌then◌else◌, Option-cases, inl, inr, ◌⊎◌,
}
use replay_forge.Service.Redis.{Stream, Message}
use replay_forge.Service.World.{Platform, World, Result, Error, ok, raise}
use replay_forge.Streams.{due_retry_event_ids, publish_retry_stream}
use replay_forge.Scheduler.{flush_one, flush_each, flush_due_retries, scheduler_turn}

abbrev pub has : ℕ → List ℕ → Bool
has k [] = false
has k (x ∷ xs) = (x == k) || has k xs

abbrev pub retry_message : ℕ → Message
retry_message eid = record { event_id = some eid; reason = none }

outcome :
    {A W : Type 0} (o : Result A × W)
    → ((e : Error) × (w : W) × (o ≡ (raise e, w))) ⊎ ((a : A) × (w : W) × (o ≡ (ok a, w)))
outcome (raise e, w) = inl (e, w, refl)
outcome (ok a, w) = inr (a, w, refl)

module _ (p : Platform) where
  abbrev score_of : ℕ → World p → Option ℕ
  score_of k w = p.redis.score k w.redis

  flush_one-score :
      (eid flushed n : ℕ) (w w' : World p)
      → flush_one p eid flushed w ≡ (ok n, w')
      → (k : ℕ) → score_of k w' ≡ (if eid == k then none else score_of k w)
  unfolding flush_one publish_retry_stream
  flush_one-score eid flushed n w w' h k = elim (Option-cases (p.redis.zrem eid w.redis)) [
    | inl down ↦ ground arith
    | inr ((true, r), taken) ↦
        elim (Option-cases (p.redis.xadd Stream.retry (retry_message eid) r)) [
          | inl down ↦ ground arith
          | inr (r2, added) ↦ ground (
            arith,
            p.redis.zrem-score eid w.redis taken k,
            p.redis.xadd-score Stream.retry (retry_message eid) r added k,
          )
        ]
    | inr ((false, r), taken) ↦ ground (arith, p.redis.zrem-score eid w.redis taken k)
  ]

  flush_each-score :
      (eids : List ℕ) (flushed n : ℕ) (w w' : World p)
      → flush_each p eids flushed w ≡ (ok n, w')
      → (k : ℕ) → score_of k w' ≡ (if has k eids then none else score_of k w)
  flush_each-score [] flushed n w w' h k = ground arith
  flush_each-score (eid ∷ eids) flushed n w w' h k = elim (outcome (flush_one p eid flushed w)) [
    | inl (e, w1, one) ↦ ground arith
    | inr (m, w1, one) ↦
        let rest = flush_each-score eids m n w1 w' (ground arith) k in
        let first = flush_one-score eid flushed m w w1 one k in ground arith
  ]

  -- A turn of the scheduler that ends without an error read the ids that were due, and has taken each
  -- of them out of the sorted set and no other id.
  pub flush_due_retries-score :
      (w w' : World p) (n : ℕ)
      → flush_due_retries p w ≡ (ok n, w')
      → (due : List ℕ) × (p.redis.zrangebyscore (p.clock w.tick) w.redis ≡ some due)
        × ((k : ℕ) → score_of k w' ≡ (if has k due then none else score_of k w))
  unfolding flush_due_retries due_retry_event_ids
  flush_due_retries-score w w' n h =
      elim (Option-cases (p.redis.zrangebyscore (p.clock w.tick) w.redis)) [
        | inl down ↦ ground arith
        | inr (due, read) ↦
            (due, read, flush_each-score due 0 n (record w { tick = w.tick + 1 }) w' (ground arith))
      ]

  -- Where the first due id is taken out of the sorted set and its publication then fails, the turn ends
  -- without an error to its caller: the id has no score any more, the rows are as they were, and
  -- nothing was added to the retry stream.
  pub scheduler_turn_loses :
      (w : World p) (eid : ℕ) (rest : List ℕ) (r : p.redis.Server)
      → p.redis.zrangebyscore (p.clock w.tick) w.redis ≡ some (eid ∷ rest)
      → p.redis.zrem eid w.redis ≡ some (true, r)
      → p.redis.xadd Stream.retry (retry_message eid) r ≡ none
      → let (result, w') = scheduler_turn p w in
        (result ≡ ok tt)
        × (w'.db ≡ w.db)
        × (score_of eid w' ≡ none)
        × ((s : Stream) → p.redis.entries s w'.redis ≡ p.redis.entries s w.redis)
  unfolding scheduler_turn flush_due_retries due_retry_event_ids flush_one publish_retry_stream
  scheduler_turn_loses w eid rest r due taken down =
      let after : World p = record w { redis = r; tick = w.tick + 1 } in
      let turn : scheduler_turn p w ≡ (ok tt, after) = ground arith in
      let gone : p.redis.score eid r ≡ none =
        ground (arith, p.redis.zrem-score eid w.redis taken eid, (==_iff eid eid).1 refl) in
      (
        ap (λ t. t.0) turn,
        ap (λ t. t.1.db) turn,
        rw turn gone,
        rw turn (p.redis.zrem-entries eid w.redis taken),
      )
