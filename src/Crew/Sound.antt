-- ===== src/Crew/Sound.antt =====
-- What holds of the rows and of the objects, however the workers are interleaved.
use replay_forge.Base.{
  ℕ, ◌+◌, ◌≡◌, ◌≤◌, ◌<◌, sym, true, false, List, [], ◌∷◌, ◌++◌, Option, none, some, arith, All,
  update_by, ◌==◌, ==_iff, Bool-cases, inl, inr,
}
use replay_forge.Models.{Status, Event, EventAttempt, DeadLetter, status_eq}
use replay_forge.Accounting.{is_failed, failures, failures-add}
use replay_forge.Service.World.{Platform}
use replay_forge.Crew.{Crew, written_row}

-- `limit` gives the `max_attempts` of an event; `attempts` are the rows of `event_attempts`.
module _ (limit : ℕ → ℕ) (attempts : List EventAttempt) where
  -- The count is at most the number of failed attempts, and a dead-lettered event has failed as often as
  -- it may.
  pub record IsBounded (e : Event) : Type 0 where
    pub max : e.max_attempts ≡ limit e.id
    pub count : e.attempt_count ≤ failures attempts e.id
    pub dead : e.status ≡ Status.dead_lettered → limit e.id ≤ failures attempts e.id

  -- A row also has counted some failure, if there was one.
  pub record IsSoundRow (e : Event) : Type 0 where
    pub bounded : IsBounded e
    pub some_count : 0 < failures attempts e.id → 0 < e.attempt_count

  abbrev pub IsSoundObject : Option Event → Type 0
  IsSoundObject none = Unit {0}
  IsSoundObject (some e) = IsBounded e

  abbrev pub IsSoundLetter : DeadLetter → Type 0
  IsSoundLetter l = limit l.event_id ≤ failures attempts l.event_id

pub record IsSound {p : Platform} (limit : ℕ → ℕ) (c : Crew p) : Type 0 where
  pub rows : All (IsSoundRow limit (p.tables.rows c.db.attempts)) (p.tables.rows c.db.events)
  pub objects : (i : ℕ) → IsSoundObject limit (p.tables.rows c.db.attempts) (c.held i)
  pub letters :
      All (IsSoundLetter limit (p.tables.rows c.db.attempts)) (p.tables.rows c.db.dead_letters)

module _ (limit : ℕ → ℕ) (attempts : List EventAttempt) where
  -- More attempts keep what is bounded.
  pub IsBounded-add :
      (a : EventAttempt) (e : Event)
      → IsBounded limit attempts e
      → IsBounded limit (attempts ++ a ∷ []) e
  IsBounded-add a e h = record {
    max = h.max;
    count = ground (arith, failures-add attempts a e.id, h.count);
    dead = λ d. ground (arith, failures-add attempts a e.id, h.dead d);
  }

  pub IsSoundObject-add :
      (a : EventAttempt) (o : Option Event)
      → IsSoundObject limit attempts o
      → IsSoundObject limit (attempts ++ a ∷ []) o
  IsSoundObject-add a none h = tt
  IsSoundObject-add a (some e) h = IsBounded-add a e h

  pub IsSoundLetter-add :
      (a : EventAttempt) (ls : List DeadLetter)
      → All (IsSoundLetter limit attempts) ls
      → All (IsSoundLetter limit (attempts ++ a ∷ [])) ls
  IsSoundLetter-add a [] h = tt
  IsSoundLetter-add a (l ∷ ls) h =
      (ground (arith, failures-add attempts a l.event_id, h.0), IsSoundLetter-add a ls h.1)

  -- A success, like any attempt that has not failed, changes no number of failures.
  pub IsSoundRow-calm :
      (a : EventAttempt) (es : List Event)
      → is_failed a.status ≡ false
      → All (IsSoundRow limit attempts) es
      → All (IsSoundRow limit (attempts ++ a ∷ [])) es
  IsSoundRow-calm a [] calm h = tt
  IsSoundRow-calm a (e ∷ es) calm h = (
    record {
      bounded = IsBounded-add a e h.0.bounded;
      some_count = λ k. h.0.some_count (ground (arith, failures-add attempts a e.id));
    },
    IsSoundRow-calm a es calm h.1,
  )

  -- A flush that leaves the count, and does not dead-letter, keeps sound rows.
  written-calm :
      (before after row : Event)
      → before.attempt_count ≡ after.attempt_count
      → status_eq after.status Status.dead_lettered ≡ false
      → IsSoundRow limit attempts row
      → IsSoundRow limit attempts (written_row before after row)
  written-calm before after row same alive h = record {
    bounded = record {
      max = h.bounded.max;
      count = ground (arith, (==_iff _ _).1 same, h.bounded.count);
      dead = λ d. elim (Bool-cases (status_eq before.status after.status)) [
        | inl kept ↦ h.bounded.dead (ground arith)
        | inr changed ↦ absurd (ground arith)
      ];
    };
    some_count = λ k. ground (arith, (==_iff _ _).1 same, h.some_count k);
  }

  pub calm-rows :
      (before after : Event) (es : List Event)
      → before.attempt_count ≡ after.attempt_count
      → status_eq after.status Status.dead_lettered ≡ false
      → All (IsSoundRow limit attempts) es
      → All
          (IsSoundRow limit attempts)
          (update_by (λ r. r.id == after.id) (written_row before after) es)
  calm-rows before after [] same alive h = tt
  calm-rows before after (e ∷ es) same alive h =
      let rest = calm-rows before after es same alive h.1 in
      elim (Bool-cases (e.id == after.id)) [
        | inl own ↦ rw own (written-calm before after e same alive h.0, rest)
        | inr other ↦ rw other (h.0, rest)
      ]

  -- What a failure adds to its own event, and to no other.
  pub one_more :
      (a : EventAttempt) (id : ℕ)
      → a.event_id ≡ id
      → is_failed a.status ≡ true
      → failures (attempts ++ a ∷ []) id ≡ failures attempts id + 1
  one_more a id own failed =
      ground (arith, failures-add attempts a id, (==_iff a.event_id id).1 own)

  no_more :
      (a : EventAttempt) (id : ℕ)
      → (id == a.event_id) ≡ false
      → failures (attempts ++ a ∷ []) id ≡ failures attempts id
  no_more a id other = ground (arith, failures-add attempts a id)

  -- The object after a failed attempt, and a row that it is flushed to.
  pub failed-IsBounded :
      (a : EventAttempt) (before after : Event)
      → a.event_id ≡ before.id
      → is_failed a.status ≡ true
      → after.id ≡ before.id
      → after.max_attempts ≡ before.max_attempts
      → after.attempt_count ≡ before.attempt_count + 1
      → (after.status ≡ Status.dead_lettered → before.max_attempts ≤ before.attempt_count + 1)
      → IsBounded limit attempts before
      → IsBounded limit (attempts ++ a ∷ []) after
  failed-IsBounded a before after own failed same_id same_max more late h = record {
    max = rw (same_max, same_id) h.max;
    count = rw (same_id, more, one_more a before.id own failed) (omega (arith, h.count));
    dead = λ d.
        rw (same_id, one_more a before.id own failed, sym h.max) (omega (arith, late d, h.count));
  }

  written-failed :
      (a : EventAttempt) (before after row : Event)
      → before.attempt_count + 1 ≡ after.attempt_count
      → row.id ≡ after.id
      → IsBounded limit (attempts ++ a ∷ []) after
      → IsSoundRow limit attempts row
      → IsSoundRow limit (attempts ++ a ∷ []) (written_row before after row)
  written-failed a before after row more same_id now h = record {
    bounded = record {
      max = h.bounded.max;
      count = ground (arith, ==_iff before.attempt_count after.attempt_count, now.count, same_id);
      dead = λ d. elim (Bool-cases (status_eq before.status after.status)) [
        | inl kept ↦ (IsBounded-add a row h.bounded).dead (ground arith)
        | inr changed ↦ rw same_id (now.dead (ground arith))
      ];
    };
    some_count = λ k. ground (arith, ==_iff before.attempt_count after.attempt_count);
  }

  pub failed-rows :
      (a : EventAttempt) (before after : Event) (es : List Event)
      → a.event_id ≡ after.id
      → before.attempt_count + 1 ≡ after.attempt_count
      → IsBounded limit (attempts ++ a ∷ []) after
      → All (IsSoundRow limit attempts) es
      → All
          (IsSoundRow limit (attempts ++ a ∷ []))
          (update_by (λ r. r.id == after.id) (written_row before after) es)
  failed-rows a before after [] own more now h = tt
  failed-rows a before after (e ∷ es) own more now h =
      let rest = failed-rows a before after es own more now h.1 in
      elim (Bool-cases (e.id == after.id)) [
        | inl here ↦
            rw here (written-failed a before after e more ((==_iff _ _).0 here) now h.0, rest)
        | inr other ↦ rw other (
          record {
            bounded = IsBounded-add a e h.0.bounded;
            some_count = λ k. h.0.some_count (ground (arith, no_more a e.id (rw own other)));
          },
          rest,
        )
      ]
