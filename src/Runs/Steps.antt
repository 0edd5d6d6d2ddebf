-- ===== src/Runs/Steps.antt =====
-- The steps of a run of scripts/benchmark_replay.py, which scripts/chaos_replay.py has too: how
-- they end, and their results.
use replay_forge.Base.{
  ℕ, zero, suc, ◌+◌, ◌≤◌, ◌≡◌, refl, String, Bool, true, false, not, List, [], ◌∷◌, Option, none,
  some, inl, inr, Bool-cases, Option-cases, ◌==◌, keep, count_by, length, length-keep, str_eq,
  eq_iff, arith, sym, subst,
}
use replay_forge.Harness.{
  SubmittedEvent, TerminalEvent, Posted, Watch, Polled, stopped, timed_out, out_of_fuel, Reply,
  has_text, submit_events, wait_for_ready, ready_turn, wait_for_convergence,
}
use replay_forge.Harness.Loops.{
  Ticks, EndsIn, TurnedIn, NotYet, WasRead, Any, trivial-TurnedIn, poll-EndsIn,
  wait_for_convergence-EndsIn,
}
use replay_forge.Harness.Complete.{wait_for_terminal_events_lem}
use replay_forge.Runs.{
  ready_outcome, terminal_outcome, report_outcome, Args, Site, Outcome, done, failed, Failure,
  Report, ◌>>=◌, or_fail, compose, restart, become_ready, all_terminal, final_report,
  says_converged, ids_of, submitted_at, is_successful, ended_as, payloads_from,
}

pub length-payloads_from :
    {P : Type 0} (payload : ℕ → P) (i n : ℕ) → length (payloads_from payload i n) ≡ n
length-payloads_from payload i zero = refl
length-payloads_from payload i (suc n) = omega (arith, length-payloads_from payload (suc i) n)

pub length-submit_events :
    {P : Type 0} (post : P → ℕ × Posted) (payloads : List P)
    → length (submit_events post payloads) ≡ length payloads
unfolding submit_events
length-submit_events post [] = refl
length-submit_events post (p ∷ ps) = omega (arith, length-submit_events post ps)

length-ids_of : (ss : List SubmittedEvent) → length (ids_of ss) ≡ length ss
length-ids_of [] = refl
length-ids_of (s ∷ ss) = omega (arith, length-ids_of ss)

-- The time of each submission is known.
pub submitted_at-known :
    (ss : List SubmittedEvent) (x : String)
    → has_text x (ids_of ss) ≡ true
    → (t : ℕ) × (submitted_at ss x ≡ some t)
submitted_at-known [] x h = cc
submitted_at-known (s ∷ ss) x h = elim (Option-cases (submitted_at ss x)) [
  | inr (t, later) ↦ (t, rw later refl)
  | inl no_later ↦ elim (Bool-cases (str_eq s.event_id x)) [
    | inl here ↦ (s.submitted_at, rw (no_later, here) refl)
    | inr there ↦ let (t, e) = submitted_at-known ss x (ground arith) in absurd (ground arith)
  ]
]

other_status : (s a b : String) → str_eq s a ≡ true → str_eq a b ≡ false → str_eq s b ≡ false
other_status s a b h d = ground (arith, eq_iff s a)

-- The three counts are of different results.
pub counts_le :
    (ts : List TerminalEvent)
    → count_by (ended_as "succeeded") ts
        + count_by (ended_as "dead_lettered") ts
        + count_by (ended_as "failed") ts
      ≤ length ts
counts_le [] = omega arith
counts_le (t ∷ ts) = ground (
  arith,
  counts_le ts,
  λ (h : str_eq t.status "succeeded" ≡ true).
      other_status t.status "succeeded" "dead_lettered" h refl,
  λ (h : str_eq t.status "succeeded" ≡ true). other_status t.status "succeeded" "failed" h refl,
  λ (h : str_eq t.status "dead_lettered" ≡ true).
      other_status t.status "dead_lettered" "failed" h refl,
)

pub submissions_le :
    (ss : List SubmittedEvent)
    → count_by is_successful ss + count_by (λ s. not (s.status_code == 201)) ss ≤ length ss
submissions_le [] = omega arith
submissions_le (s ∷ ss) = ground (arith, submissions_le ss)

-- The environment: the clocks go on between two turns of a loop, and a turn goes through the set.
pub record IsFair {P : Type 0} (site : Site P) : Type 0 where
  pub ready_ticks : Ticks site.ready_clock
  pub watch_ticks : Ticks site.watch.monotonic
  pub report_ticks : Ticks site.report_clock
  pub same_members :
      (i : ℕ) (x : String) (xs : List String) → has_text x (site.watch.listed i xs) ≡ has_text x xs
  pub same_length : (i : ℕ) (xs : List String) → length (site.watch.listed i xs) ≡ length xs

-- What holds of the outcome of a step: `Q` of its result, and it is not out of fuel.
abbrev pub Ends : {A : Type 0} → (A → Type 0) → Outcome A → Type 0
Ends Q (done a) = Q a
Ends Q (failed Failure.no_fuel) = ⊥
Ends Q (failed Failure.compose_failed) = Unit {0}
Ends Q (failed Failure.not_ready) = Unit {0}
Ends Q (failed Failure.unknown_id) = Unit {0}
Ends Q (failed Failure.no_report) = Unit {0}
Ends Q (failed Failure.request_failed) = Unit {0}

pub bind-Ends :
    {A B : Type 0} (Q : A → Type 0) (R : B → Type 0) (o : Outcome A) (f : A → Outcome B)
    → Ends Q o
    → ((a : A) → Q a → Ends R (f a))
    → Ends R (o >>= f)
bind-Ends Q R (done a) f h k = k a h
bind-Ends Q R (failed Failure.no_fuel) f h k = h
bind-Ends Q R (failed Failure.compose_failed) f h k = tt
bind-Ends Q R (failed Failure.not_ready) f h k = tt
bind-Ends Q R (failed Failure.unknown_id) f h k = tt
bind-Ends Q R (failed Failure.no_report) f h k = tt
bind-Ends Q R (failed Failure.request_failed) f h k = tt

compose-Ends : (b : Bool) → Ends Any (compose b)
compose-Ends true = tt
compose-Ends false = tt

pub restart-Ends : {P : Type 0} (site : Site P) (args : Args) → Ends Any (restart site args)
unfolding restart
restart-Ends site args = elim (Bool-cases args.reset) [
  | inl h ↦ rw h (compose-Ends _)
  | inr h ↦ rw h (compose-Ends _)
]

ready_turn-TurnedIn :
    {A : Type 0} (ready : ℕ → Option (Reply A)) (i : ℕ) (s : Unit {0})
    → Any s
    → TurnedIn Any Any (ready_turn ready i s)
ready_turn-TurnedIn ready i s h = trivial-TurnedIn (ready_turn ready i s)

ready_outcome-Ends :
    (o : Polled (Unit {0}) (Unit {0})) → EndsIn Any Any o → Ends Any (ready_outcome o)
ready_outcome-Ends (stopped a) h = tt
ready_outcome-Ends (timed_out s) h = tt
ready_outcome-Ends out_of_fuel h = h

pub become_ready-Ends :
    {P : Type 0} (site : Site P) (args : Args)
    → Ticks site.ready_clock
    → Ends Any (become_ready site args)
unfolding become_ready wait_for_ready
become_ready-Ends site args ticks =
    ready_outcome-Ends (wait_for_ready site.ready_clock site.ready args.timeout) (
      poll-EndsIn site.ready_clock (ready_turn site.ready) Any Any (ready_turn-TurnedIn site.ready)
        ticks args.timeout tt tt)

-- The report at the end is one that was read.
report_outcome-Ends :
    (report : ℕ → Option Report) (o : Polled (Option Report) Report)
    → EndsIn (NotYet says_converged report) (WasRead says_converged report true) o
    → Ends (λ r. (i : ℕ) × (report i ≡ some r)) (report_outcome o)
report_outcome-Ends report (stopped r) h = (h.0, h.1)
report_outcome-Ends report (timed_out none) h = tt
report_outcome-Ends report (timed_out (some r)) h = (h.0, h.1)
report_outcome-Ends report out_of_fuel h = h

pub final_report-Ends :
    (report_clock : ℕ → ℕ) (report : ℕ → Option Report) (timeout : ℕ)
    → Ticks report_clock
    → Ends (λ r. (i : ℕ) × (report i ≡ some r)) (final_report report_clock report timeout)
unfolding final_report
final_report-Ends report_clock report timeout ticks =
    report_outcome-Ends report (wait_for_convergence report_clock says_converged report timeout)
      (wait_for_convergence-EndsIn says_converged report report_clock timeout ticks)

-- A measured run: how its numbers stand to each other.
abbrev pub Fits : (submissions : List SubmittedEvent) → List TerminalEvent → Type 0
Fits submissions terminal = length terminal ≤ count_by is_successful submissions

pub all_terminal-Ends :
    (watch : Watch) (timeout : ℕ) (submissions : List SubmittedEvent)
    → Ticks watch.monotonic
    → ((i : ℕ) (x : String) (xs : List String) → has_text x (watch.listed i xs) ≡ has_text x xs)
    → ((i : ℕ) (xs : List String) → length (watch.listed i xs) ≡ length xs)
    → Ends (Fits submissions) (all_terminal watch timeout (keep is_successful submissions))
unfolding all_terminal
all_terminal-Ends watch timeout submissions ticks members lengths =
    let successful = keep is_successful submissions in
    let (out, e, has, one, ended, few) =
      wait_for_terminal_events_lem watch (submitted_at successful) (ids_of successful) timeout
        (submitted_at-known successful) members lengths ticks in
    subst (λ o. Ends (Fits submissions) (terminal_outcome o)) (sym e)
      (omega (arith, few, length-ids_of successful, length-keep is_successful submissions))

pub or_fail-Ends : {A : Type 0} (o : Option A) → Ends Any (or_fail Failure.request_failed o)
or_fail-Ends none = tt
or_fail-Ends (some a) = tt
