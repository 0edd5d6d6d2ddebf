-- ===== src/Lifecycle.antt =====
-- What a worker may do to an event (api/app/models.py, api/app/workers/worker.py), with nothing of
-- the tables and the streams: a state machine on the status, the failed attempts and their limit.
use replay_forge.Base.{ℕ, ◌+◌, ◌<◌, ◌≤◌, ◌≡◌, ◌⊎◌, refl, false, arith}
use replay_forge.Models.{Status, Event}
use replay_forge.Worker.{is_final}

pub record Life : Type 0 where
  pub status : Status
  pub attempts : ℕ
  pub limit : ℕ

-- The life of a row.
abbrev pub life : Event → Life
life e = record { status = e.status; attempts = e.attempt_count; limit = e.max_attempts }

-- A step keeps the limit, and the count of failed attempts or adds one.
abbrev pub Unfailed : Life → Life → Type 0
Unfailed a b = (b.attempts ≡ a.attempts) × (b.limit ≡ a.limit)

abbrev pub FailedOnce : Life → Life → Type 0
FailedOnce a b = (b.attempts ≡ a.attempts + 1) × (b.limit ≡ a.limit)

-- An attempt is under way, or it was recorded as a success and its acknowledgement failed.
abbrev pub IsTried : Status → Type 0
IsTried s = (s ≡ Status.processing) ⊎ (s ≡ Status.succeeded)

pub data Step (a b : Life) : Type 0 where
  begin : is_final a.status ≡ false → b.status ≡ Status.processing → Unfailed a b → Step a b
  succeed : a.status ≡ Status.processing → b.status ≡ Status.succeeded → Unfailed a b → Step a b
  retry :
      IsTried a.status
      → a.attempts + 1 < a.limit
      → b.status ≡ Status.retrying
      → FailedOnce a b
      → Step a b
  bury :
      IsTried a.status
      → a.limit ≤ a.attempts + 1
      → b.status ≡ Status.dead_lettered
      → FailedOnce a b
      → Step a b

pub data Reach (a : Life) : Life → Type 0 where
  here : Reach a a
  next : {b c : Life} → Reach a b → Step b c → Reach a c

-- No step leaves a dead-lettered or a cancelled event.
abbrev pub IsOver : Status → Type 0
IsOver s = (s ≡ Status.dead_lettered) ⊎ (s ≡ Status.cancelled)

Step-IsOver : {a b : Life} → Step a b → IsOver a.status → ⊥
Step-IsOver {a} {b} (begin h _ _) over = ground arith
Step-IsOver {a} {b} (succeed h _ _) over = ground arith
Step-IsOver {a} {b} (retry h _ _ _) over = ground arith
Step-IsOver {a} {b} (bury h _ _ _) over = ground arith

pub Reach-IsOver : {a b : Life} → Reach a b → IsOver a.status → b ≡ a
Reach-IsOver {a} here over = refl
Reach-IsOver {a} (next {b = b} {c = c} r s) over =
    let same = Reach-IsOver {a = a} {b = b} r over in
    absurd (Step-IsOver {a = b} {b = c} s (rw same over))
