-- ===== src/Runs.antt =====
-- What scripts/benchmark_replay.py and scripts/chaos_replay.py have in common: the arguments, the
-- steps of a run, the percentiles and the rates. Times are numbers of nanoseconds, and fractions are
-- kept as they are before the code rounds them.
pub mod Places
pub mod Steps
use replay_forge.Base.{
  ℕ, zero, suc, ◌+◌, ◌*◌, ◌-◌, ◌%◌, String, Bool, true, false, not, ◌&&◌, ◌||◌, List, [], ◌∷◌,
  Option, none, some, ltb, leb, ◌==◌, if◌then◌else◌, keep, map, count_by, length, get_elem?, str_eq,
  sorted, round_half_even, Ratio,
}
use replay_forge.Harness.{
  SubmittedEvent, TerminalEvent, Reply, Posted, Watch, Waited, returned, key_error, out_of_fuel,
  Polled, stopped, timed_out, submit_events, wait_for_ready, wait_for_terminal_events,
  wait_for_convergence,
}

pub record Args : Type 0 where
  pub events : ℕ
  pub workers : ℕ
  pub concurrency : ℕ
  pub base_url : String
  pub timeout : ℕ
  pub pending : Bool
  pub dry_run : Bool
  pub reset : Bool

-- What is read from `/api/convergence`, `none` for a missing key.
pub record Report : Type 0 where
  pub retrying_events : Option ℕ
  pub pending_events : Option ℕ
  pub stream_backlog : Option ℕ
  pub orphaned_records : Option ℕ
  pub duplicate_deliveries : Option ℕ
  pub duplicate_side_effects : Option ℕ
  pub convergence_state : Option String
  pub converged : Option Bool

-- `report.get(key, default)`
abbrev pub get_or : {A : Type 0} → A → Option A → A
get_or d none = d
get_or d (some a) = a

-- `last.get("converged")` as a test
abbrev pub says_converged : Report → Bool
says_converged r = get_or false r.converged

-- How a run ends without an artifact.
pub data Failure : Type 0 where
  compose_failed not_ready unknown_id no_report request_failed no_fuel : Failure

pub data Outcome (A : Type 0) : Type 0 where
  done : A → Outcome A
  failed : Failure → Outcome A

infixl 5 ◌>>=◌
abbrev pub ◌>>=◌ : {A B : Type 0} → Outcome A → (A → Outcome B) → Outcome B
done a >>= f = f a
failed e >>= f = failed e

-- A call that gives `none` where it raises.
abbrev pub or_fail : {A : Type 0} → Failure → Option A → Outcome A
or_fail e none = failed e
or_fail e (some a) = done a

-- `_event_payload`: the number of the service, and the parts that `uuid4` gives.
pub record EventPayload : Type 0 where
  pub application_name : String
  pub workflow_id : String
  pub event_type : String
  pub service : ℕ
  pub idempotency_key : String
  pub sequence : ℕ
  pub max_attempts : ℕ

-- `[payload(i) for i in range(n)]`
abbrev pub payloads_from : {P : Type 0} → (ℕ → P) → ℕ → ℕ → List P
payloads_from payload i zero = []
payloads_from payload i (suc n) = payload i ∷ payloads_from payload (suc i) n

-- What a run sees: whether `docker compose` succeeds, the answers, and the three readings of the
-- loop's clock. `workers` is the answer of `/api/workers`, with its length if it is a list.
pub record Site (P : Type 0) : Type 0 where
  pub restart_control_plane : Bool
  pub restart_go_workers : ℕ → Bool
  pub ready_clock : ℕ → ℕ
  pub ready : ℕ → Option (Reply (Unit {0}))
  pub payload : ℕ → P
  pub post : P → ℕ × Posted
  pub watch : Watch
  pub report_clock : ℕ → ℕ
  pub report : ℕ → Option Report
  pub workers : Option (Option ℕ)
  pub start : ℕ
  pub ingest_done : ℕ
  pub end : ℕ

-- `if args.reset` and the waiting for the service, which raises when the time is up.
abbrev pub compose : Bool → Outcome (Unit {0})
compose true = done tt
compose false = failed Failure.compose_failed

unfoldable pub restart : {P : Type 0} → Site P → Args → Outcome (Unit {0})
restart site args =
    if args.reset
    then compose (site.restart_control_plane && site.restart_go_workers args.workers)
    else compose (site.restart_go_workers args.workers)

abbrev pub ready_outcome : Polled (Unit {0}) (Unit {0}) → Outcome (Unit {0})
ready_outcome (stopped reply) = done tt
ready_outcome (timed_out s) = failed Failure.not_ready
ready_outcome out_of_fuel = failed Failure.no_fuel

unfoldable pub become_ready : {P : Type 0} → Site P → Args → Outcome (Unit {0})
become_ready site args = ready_outcome (wait_for_ready site.ready_clock site.ready args.timeout)

-- `s.status_code == 201 and s.event_id`
abbrev pub is_successful : SubmittedEvent → Bool
is_successful s = s.status_code == 201 && not (str_eq s.event_id "")

abbrev pub ids_of : List SubmittedEvent → List String
ids_of = map (λ (s : SubmittedEvent). s.event_id)

-- `{s.event_id: s.submitted_at for s in successful}`, where the last of two wins
abbrev pub submitted_at : List SubmittedEvent → String → Option ℕ
submitted_at [] id = none
submitted_at (s ∷ ss) id = elim (submitted_at ss id) [
  | some t ↦ some t
  | none ↦ if str_eq s.event_id id then some s.submitted_at else none
]

abbrev pub terminal_outcome : Waited → Outcome (List TerminalEvent)
terminal_outcome (returned terminal) = done terminal
terminal_outcome key_error = failed Failure.unknown_id
terminal_outcome Waited.out_of_fuel = failed Failure.no_fuel

unfoldable pub all_terminal :
    Watch → (timeout : ℕ) → List SubmittedEvent → Outcome (List TerminalEvent)
all_terminal watch timeout successful =
    terminal_outcome
      (wait_for_terminal_events watch (submitted_at successful) timeout (ids_of successful))

abbrev pub report_outcome : Polled (Option Report) Report → Outcome Report
report_outcome (stopped r) = done r
report_outcome (timed_out last) = or_fail Failure.no_report last
report_outcome out_of_fuel = failed Failure.no_fuel

unfoldable pub final_report :
    (report_clock : ℕ → ℕ) → (ℕ → Option Report) → (timeout : ℕ) → Outcome Report
final_report report_clock report timeout =
    report_outcome (wait_for_convergence report_clock says_converged report timeout)

-- `t.status == status`
abbrev pub ended_as : String → TerminalEvent → Bool
ended_as status t = str_eq t.status status

-- `_percentile`
unfoldable pub percentile : List ℕ → ℕ → Option ℕ
percentile [] pct = none
percentile (v ∷ vs) pct =
    let last = length (sorted leb (v ∷ vs)) - 1 in
    let index = round_half_even (pct * last) 100 in
    get_elem? (sorted leb (v ∷ vs)) (if leb last index then last else index)

abbrev pub latencies : List TerminalEvent → List ℕ
latencies terminal =
    map (λ (t : TerminalEvent). t.e2e) (keep (λ t. not (ended_as "timeout" t)) terminal)

-- `max(later - earlier, 1e-9)`, a nanosecond at least, and a number of things in each second of it
abbrev pub elapsed : ℕ → ℕ → ℕ
elapsed earlier later = if leb (later - earlier) 1 then 1 else later - earlier

abbrev pub per_second : ℕ → ℕ → Ratio
per_second n time = record { num = n * 1000000000; den = time }

-- `round(n / seconds, 2) if n else 0.0`
abbrev pub rate_or_zero : ℕ → ℕ → Ratio
rate_or_zero n time = if n == 0 then record { num = 0; den = 1 } else per_second n time

-- The `status` and the `note` of an artifact.
pub data Kind : Type 0 where
  measured pending : Kind

pub data Note : Type 0 where
  requested : Note
