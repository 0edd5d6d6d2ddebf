-- ===== src/Harness/Loops.antt =====
-- The polling loops of scripts/replay_harness.py: how they end, and what they keep.
use replay_forge.Base.{
  ℕ, zero, suc, ◌+◌, ◌<◌, ◌≡◌, inl, inr, ltb, Bool-cases, Bool, true, false, Option, none, some,
  Option-cases, arith, ltb→lt,
}
use replay_forge.Harness.{
  convergence_turn, wait_for_convergence, Turned, again, stop, Polled, stopped, timed_out,
  out_of_fuel, poll_until, poll, go_on,
}

-- The clock goes on between two turns: each ends with a sleep.
abbrev pub Ticks : (ℕ → ℕ) → Type 0
Ticks monotonic = (i : ℕ) → monotonic i < monotonic (suc i)

-- What holds of the outcome of a loop: `P` where the time is up, `Q` of what it returns.
abbrev pub EndsIn : {S A : Type 0} → (S → Type 0) → (A → Type 0) → Polled S A → Type 0
EndsIn P Q (stopped a) = Q a
EndsIn P Q (timed_out s) = P s
EndsIn P Q out_of_fuel = ⊥

abbrev pub TurnedIn : {S A : Type 0} → (S → Type 0) → (A → Type 0) → Turned S A → Type 0
TurnedIn P Q (again s) = P s
TurnedIn P Q (stop a) = Q a

-- No condition.
abbrev pub Any : {A : Type 0} → A → Type 0
Any a = Unit {0}

pub trivial-TurnedIn : {S A : Type 0} (t : Turned S A) → TurnedIn Any Any t
trivial-TurnedIn (again s) = tt
trivial-TurnedIn (stop a) = tt

module _ {S A : Type 0} (monotonic : ℕ → ℕ) (body : ℕ → S → Turned S A) where
  module _ (P : S → Type 0) (Q : A → Type 0)
      (keeps : (i : ℕ) (s : S) → P s → TurnedIn P Q (body i s)) (ticks : Ticks monotonic) where
    go_on-EndsIn :
        (next : S → Polled S A)
        → ((s : S) → P s → EndsIn P Q (next s))
        → (t : Turned S A) → TurnedIn P Q t
        → EndsIn P Q (go_on next t)
    go_on-EndsIn next ends (again s) h = ends s h
    go_on-EndsIn next ends (stop a) h = h

    poll_until-EndsIn :
        (deadline fuel i : ℕ) (s : S)
        → P s
        → deadline < monotonic i + fuel
        → 0 < fuel
        → EndsIn P Q (poll_until monotonic deadline body fuel i s)
    poll_until-EndsIn deadline zero i s h enough some_fuel = absurd (omega arith)
    poll_until-EndsIn deadline (suc fuel) i s h enough some_fuel =
        elim (Bool-cases (ltb (monotonic i) deadline)) [
          | inr late ↦ rw late h
          | inl early ↦ rw early (
              go_on-EndsIn (poll_until monotonic deadline body fuel (suc i))
                (λ s' h'.
                  poll_until-EndsIn deadline fuel (suc i) s' h'
                    (omega (arith, ltb→lt _ _ early, ticks i)) (omega (arith, ltb→lt _ _ early)))
                (body i s) (keeps i s h))
        ]

    pub poll-EndsIn : (timeout : ℕ) (s : S) → P s → EndsIn P Q (poll monotonic timeout body s)
    poll-EndsIn timeout s h =
        poll_until-EndsIn (monotonic 0 + timeout) (timeout + 1) 1 s h (omega (arith, ticks 0))
          (omega arith)

module _ {A : Type 0} (is_converged : A → Bool) (report : ℕ → Option A) where
  -- A report that a turn read, with this flag.
  abbrev pub WasRead : Bool → A → Type 0
  WasRead flag r = (i : ℕ) × (report i ≡ some r) × (is_converged r ≡ flag)

  -- Nothing was read, or the last report that was read is not converged.
  abbrev pub NotYet : Option A → Type 0
  NotYet none = Unit {0}
  NotYet (some r) = WasRead false r

  convergence_turn-TurnedIn :
      (i : ℕ) (last : Option A)
      → NotYet last
      → TurnedIn NotYet (WasRead true) (convergence_turn is_converged report i last)
  unfolding convergence_turn
  convergence_turn-TurnedIn i last h = elim (Option-cases (report i)) [
    | inl failed ↦ rw (failed, convergence_turn) h
    | inr (r, e) ↦ elim (Bool-cases (is_converged r)) [
      | inl yes_it_is ↦ rw (e, yes_it_is, convergence_turn) (i, e, yes_it_is)
      | inr not_yet ↦ rw (e, not_yet, convergence_turn) (i, e, not_yet)
    ]
  ]

  -- The loop ends by itself when the clock goes on between two turns. What it returns before the
  -- time is up is a report that was read and is converged. When the time is up, the report it has is
  -- none, or one that was read and is not converged.
  pub wait_for_convergence-EndsIn :
      (monotonic : ℕ → ℕ) (timeout : ℕ)
      → Ticks monotonic
      → EndsIn NotYet (WasRead true) (wait_for_convergence monotonic is_converged report timeout)
  unfolding wait_for_convergence
  wait_for_convergence-EndsIn monotonic timeout ticks =
      poll-EndsIn monotonic (convergence_turn is_converged report) NotYet (WasRead true)
        convergence_turn-TurnedIn ticks timeout none tt
