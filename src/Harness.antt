-- ===== src/Harness.antt =====
-- scripts/replay_harness.py: the client that submits events and polls the service. Times are
-- numbers of nanoseconds.
pub mod Loops
pub mod Results
pub mod Complete
use replay_forge.Base.{
  ℕ, zero, suc, ◌+◌, ◌-◌, String, Bool, true, false, not, ◌&&◌, ◌||◌, List, [], ◌∷◌, Option, none,
  some, ltb, ◌==◌, if◌then◌else◌, keep, map, str_eq,
}

pub record SubmittedEvent : Type 0 where
  pub event_id : String
  pub duplicate : Bool
  pub submitted_at : ℕ
  pub status_code : ℕ
  pub error : Option String

-- `time.perf_counter()` never goes back, so that `e2e` is not below 0.
pub record TerminalEvent : Type 0 where
  pub event_id : String
  pub status : String
  pub e2e : ℕ

-- An answer to a `get`: its body's value, `none` where `json()` raises.
pub record Reply (A : Type 0) : Type 0 where
  pub status_code : ℕ
  pub body : Option A

-- An answer to `post`: `str(body.get("id", ""))` and `bool(body.get("duplicate"))`.
pub record Accepted : Type 0 where
  pub id : String
  pub duplicate : Bool

pub data Posted : Type 0 where
  answered : (status_code : ℕ) (is_json : Bool) → Option Accepted → Posted
  raised : String → Posted

-- One turn of a polling loop: it goes on after its sleep, or it is the last.
pub data Turned (S A : Type 0) : Type 0 where
  again : S → Turned S A
  stop : A → Turned S A

pub data Polled (S A : Type 0) : Type 0 where
  stopped : A → Polled S A
  timed_out : S → Polled S A
  out_of_fuel : Polled S A

abbrev pub go_on : {S A : Type 0} → (S → Polled S A) → Turned S A → Polled S A
go_on next (again s) = next s
go_on next (stop a) = stopped a

-- `while time.monotonic() < deadline`: turn `i` has the `i`-th reading at its head.
abbrev pub poll_until :
    {S A : Type 0} → (monotonic : ℕ → ℕ) → ℕ → (ℕ → S → Turned S A) → ℕ → ℕ → S → Polled S A
poll_until monotonic deadline body zero i s = out_of_fuel
poll_until monotonic deadline body (suc fuel) i s =
    if ltb (monotonic i) deadline
    then go_on (poll_until monotonic deadline body fuel (suc i)) (body i s)
    else timed_out s

-- The first reading gives the deadline.
abbrev pub poll : {S A : Type 0} → (monotonic : ℕ → ℕ) → ℕ → (ℕ → S → Turned S A) → S → Polled S A
poll monotonic timeout body s = poll_until monotonic (monotonic 0 + timeout) body (timeout + 1) 1 s

-- A Boolean for `x in xs`, for the list and for the set with these members.
abbrev pub has_text : String → List String → Bool
has_text x [] = false
has_text x (y ∷ ys) = str_eq y x || has_text x ys

-- `set(xs)`
abbrev pub as_set : List String → List String
as_set [] = []
as_set (x ∷ xs) = let rest = as_set xs in if has_text x rest then rest else x ∷ rest

-- `pending.discard(x)`
abbrev pub discard : String → List String → List String
discard x = keep (λ y. not (str_eq y x))

-- `xs[:n]`
abbrev pub take : {A : Type 0} → ℕ → List A → List A
take zero xs = []
take (suc n) [] = []
take (suc n) (x ∷ xs) = x ∷ take n xs

-- `results[event_id] = result`
abbrev pub set_result : TerminalEvent → List TerminalEvent → List TerminalEvent
set_result r [] = r ∷ []
set_result r (t ∷ ts) = if str_eq t.event_id r.event_id then r ∷ ts else t ∷ set_result r ts

-- `wait_for_ready`: `ready` is the answer of `/health/ready` in a turn, `none` where it raises.
unfoldable pub ready_turn :
    {A : Type 0} → (ℕ → Option (Reply A)) → ℕ → Unit {0} → Turned (Unit {0}) A
ready_turn ready i s = elim (ready i) [
  | none ↦ again tt
  | some reply ↦
      if reply.status_code == 200
      then elim reply.body [ none ↦ again tt | some a ↦ stop a ]
      else again tt
]

unfoldable pub wait_for_ready :
    {A : Type 0} → (monotonic : ℕ → ℕ) → (ℕ → Option (Reply A)) → ℕ → Polled (Unit {0}) A
wait_for_ready monotonic ready timeout = poll monotonic timeout (ready_turn ready) tt

-- `_submit`, whose request begins at `submitted_at`. A body that is not JSON acts as an empty one.
unfoldable pub submit : ℕ → Posted → SubmittedEvent
submit submitted_at (Posted.answered status is_json none) = record {
  event_id = "";
  duplicate = false;
  submitted_at = submitted_at;
  status_code = if is_json then 0 else status;
  error = if is_json then some "the body is not JSON" else none;
}
submit submitted_at (Posted.answered status is_json (some body)) = record {
  event_id = if is_json then body.id else "";
  duplicate = is_json && body.duplicate;
  submitted_at = submitted_at;
  status_code = status;
  error = none;
}
submit submitted_at (Posted.raised text) = record {
  event_id = "";
  duplicate = false;
  submitted_at = submitted_at;
  status_code = 0;
  error = some text;
}

-- `submit_events`: `gather` gives the results in the order of the payloads.
unfoldable pub submit_events : {P : Type 0} → (P → ℕ × Posted) → List P → List SubmittedEvent
submit_events post = map (λ payload. submit (post payload).0 (post payload).1)

-- What `wait_for_terminal_events` sees: the readings of the clocks, the answer for an event in a
-- turn, and the order in which a turn goes through the set.
pub record Watch : Type 0 where
  pub monotonic : ℕ → ℕ
  pub perf_counter : ℕ → String → ℕ
  pub get : ℕ → String → Option (Reply String)
  pub listed : ℕ → List String → List String

abbrev pub is_terminal : String → Bool
is_terminal s =
    str_eq s "succeeded" || str_eq s "failed" || str_eq s "dead_lettered" || str_eq s "cancelled"

-- The ids that wait, and the results.
pub record Waiting : Type 0 where
  pub pending : List String
  pub results : List TerminalEvent

abbrev pub terminal_event : String → String → ℕ → ℕ → TerminalEvent
terminal_event event_id status now submitted = record {
  event_id = event_id;
  status = status;
  e2e = now - submitted;
}

-- `submitted_at[event_id]` raises on a missing key, after the id was discarded.
unfoldable pub settle : (String → Option ℕ) → ℕ → String → String → Waiting → Waiting
settle submitted_at now event_id status s = elim (submitted_at event_id) [
  | none ↦ record s { pending = discard event_id s.pending }
  | some t ↦ record {
    pending = discard event_id s.pending;
    results = set_result (terminal_event event_id status now t) s.results;
  }
]

-- The body of the inner loop: what it does with an answer.
abbrev pub read_status :
    Watch → (String → Option ℕ) → ℕ → String → Waiting → Option String → Waiting
read_status watch submitted_at i event_id s none = s
read_status watch submitted_at i event_id s (some status) =
    if is_terminal status
    then settle submitted_at (watch.perf_counter i event_id) event_id status s
    else s

abbrev pub answer :
    Watch → (String → Option ℕ) → ℕ → String → Waiting → Option (Reply String) → Waiting
answer watch submitted_at i event_id s none = s
answer watch submitted_at i event_id s (some reply) =
    if reply.status_code == 200 then read_status watch submitted_at i event_id s reply.body else s

abbrev pub check_event : Watch → (String → Option ℕ) → ℕ → String → Waiting → Waiting
check_event watch submitted_at i event_id s =
    answer watch submitted_at i event_id s (watch.get i event_id)

abbrev pub check_each : Watch → (String → Option ℕ) → ℕ → List String → Waiting → Waiting
check_each watch submitted_at i [] s = s
check_each watch submitted_at i (x ∷ xs) s =
    check_each watch submitted_at i xs (check_event watch submitted_at i x s)

abbrev pub while_pending : Waiting → List String → Turned Waiting Waiting
while_pending s [] = stop s
while_pending s (x ∷ xs) = again s

-- A turn of the outer loop: the first fifty of the set are asked for.
unfoldable pub terminal_turn : Watch → (String → Option ℕ) → ℕ → Waiting → Turned Waiting Waiting
terminal_turn watch submitted_at i s =
    let s' = check_each watch submitted_at i (take 50 (watch.listed i s.pending)) s in
    while_pending s' s'.pending

-- The last loop, where a missing key raises.
unfoldable pub time_out :
    Watch → (String → Option ℕ) → List String → List TerminalEvent → Option (List TerminalEvent)
time_out watch submitted_at [] results = some results
time_out watch submitted_at (x ∷ xs) results = elim (submitted_at x) [
  | none ↦ none
  | some t ↦
      time_out watch submitted_at xs
        (set_result (terminal_event x "timeout" (watch.perf_counter 0 x) t) results)
]

pub data Waited : Type 0 where
  returned : List TerminalEvent → Waited
  key_error out_of_fuel : Waited

unfoldable pub finish : Watch → (String → Option ℕ) → Waiting → Waited
finish watch submitted_at s =
    elim (time_out watch submitted_at (watch.listed 0 s.pending) s.results) [
      | none ↦ key_error
      | some results ↦ returned results
    ]

abbrev pub finish_poll : Watch → (String → Option ℕ) → Polled Waiting Waiting → Waited
finish_poll watch submitted_at (stopped s) = finish watch submitted_at s
finish_poll watch submitted_at (timed_out s) = finish watch submitted_at s
finish_poll watch submitted_at out_of_fuel = Waited.out_of_fuel

-- `while pending and time.monotonic() < deadline`, and what follows it
unfoldable pub poll_pending :
    Watch → (String → Option ℕ) → (timeout : ℕ) → Waiting → List String → Waited
poll_pending watch submitted_at timeout s [] = finish watch submitted_at s
poll_pending watch submitted_at timeout s (x ∷ xs) =
    finish_poll watch submitted_at
      (poll watch.monotonic timeout (terminal_turn watch submitted_at) s)

unfoldable pub wait_for_terminal_events :
    Watch → (String → Option ℕ) → (timeout : ℕ) → List String → Waited
wait_for_terminal_events watch submitted_at timeout event_ids =
    poll_pending watch submitted_at timeout (record { pending = as_set event_ids; results = [] })
      (as_set event_ids)

-- `wait_for_convergence`: `report` is what `fetch_json` gives in a turn, `none` where it raises, and
-- `is_converged` is `last.get("converged")`.
unfoldable pub convergence_turn :
    {A : Type 0} → (A → Bool) → (ℕ → Option A) → ℕ → Option A → Turned (Option A) A
convergence_turn is_converged report i last = elim (report i) [
  | none ↦ again last
  | some r ↦ if is_converged r then stop r else again (some r)
]

unfoldable pub wait_for_convergence :
    {A : Type 0} → (monotonic : ℕ → ℕ) → (A → Bool) → (ℕ → Option A) → ℕ → Polled (Option A) A
wait_for_convergence monotonic is_converged report timeout =
    poll monotonic timeout (convergence_turn is_converged report) none
