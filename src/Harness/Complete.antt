-- ===== src/Harness/Complete.antt =====
-- wait_for_terminal_events of scripts/replay_harness.py: the results that it returns.
use replay_forge.Base.{
  ℕ, ◌+◌, ◌≤◌, ◌≡◌, refl, sym, ◌∙◌, String, true, false, ◌&&◌, ◌||◌, List, [], ◌∷◌, Option, none,
  some, inl, inr, Bool-cases, length, eq_iff, arith, ◌==◌,
}
use replay_forge.Harness.{
  TerminalEvent, Watch, Waiting, Waited, returned, Reply, Polled, stopped, timed_out, out_of_fuel,
  has_text, as_set, take, set_result, is_terminal, terminal_event, read_status, answer, settle,
  check_event, check_each, while_pending, terminal_turn, time_out, finish, finish_poll,
  poll_pending, wait_for_terminal_events, poll,
}
use replay_forge.Harness.Loops.{Ticks, EndsIn, TurnedIn, poll-EndsIn}
use replay_forge.Harness.Results.{
  has_result, OneEach, AllEnded, has_text-discard, has_text-as_set, length-as_set, has_text-take,
  length-discard-le, length-discard, has_result-set_result, length-set_result, set_result-OneEach,
  set_result-AllEnded,
}

-- Each id that was given waits or has a result, and not both.
abbrev InOne : List String → Waiting → Type 0
InOne start s =
    (x : String)
    → (has_text x start ≡ (has_text x s.pending || has_result x s.results))
      × ((has_text x s.pending && has_result x s.results) ≡ false)

abbrev Kept : List String → Waiting → Type 0
Kept start s =
    InOne start s
    × OneEach s.results
    × AllEnded s.results
    × (length s.pending + length s.results ≤ length start)

-- What is known of the ids of a list.
abbrev Among : List String → List String → Type 0
Among start xs = (y : String) → has_text y xs ≡ true → has_text y start ≡ true

module _ (watch : Watch) (submitted_at : String → Option ℕ) (start : List String)
    (known : (x : String) → has_text x start ≡ true → (t : ℕ) × (submitted_at x ≡ some t))
    (has_text-listed : (i : ℕ) (x : String) (xs : List String)
      → has_text x (watch.listed i xs) ≡ has_text x xs)
    (length-listed : (i : ℕ) (xs : List String) → length (watch.listed i xs) ≡ length xs) where
  settle-Kept :
      (now : ℕ) (x status : String) (s : Waiting)
      → has_text x start ≡ true
      → is_terminal status ≡ true
      → Kept start s
      → Kept start (settle submitted_at now x status s)
  unfolding settle
  settle-Kept now x status s member e h =
      let (t, found) = known x member in
      let result = terminal_event x status now t in
      rw (found, settle)
        (
          (λ y. (
            ground (
              arith,
              h.0 y,
              h.0 x,
              eq_iff x y,
              has_text-discard y x s.pending,
              has_result-set_result y result s.results,
            ),
            ground (
              arith,
              h.0 y,
              h.0 x,
              eq_iff x y,
              has_text-discard y x s.pending,
              has_result-set_result y result s.results,
            ),
          )),
          set_result-OneEach result s.results h.1,
          set_result-AllEnded result s.results (ground arith) h.2,
          ground (
            arith,
            h.3,
            h.0 x,
            length-set_result result s.results,
            length-discard x s.pending,
            length-discard-le x s.pending,
          ),
        )

  read_status-Kept :
      (i : ℕ) (x : String) (s : Waiting) (body : Option String)
      → has_text x start ≡ true
      → Kept start s
      → Kept start (read_status watch submitted_at i x s body)
  read_status-Kept i x s none member h = h
  read_status-Kept i x s (some status) member h = elim (Bool-cases (is_terminal status)) [
    | inl final ↦ rw final (settle-Kept (watch.perf_counter i x) x status s member final h)
    | inr going ↦ rw going h
  ]

  answer-Kept :
      (i : ℕ) (x : String) (s : Waiting) (o : Option (Reply String))
      → has_text x start ≡ true
      → Kept start s
      → Kept start (answer watch submitted_at i x s o)
  answer-Kept i x s none member h = h
  answer-Kept i x s (some reply) member h = elim (Bool-cases (reply.status_code == 200)) [
    | inl good ↦ rw good (read_status-Kept i x s reply.body member h)
    | inr bad ↦ rw bad h
  ]

  check_each-Kept :
      (i : ℕ) (xs : List String) (s : Waiting)
      → Among start xs
      → Kept start s
      → Kept start (check_each watch submitted_at i xs s)
  check_each-Kept i [] s among h = h
  check_each-Kept i (x ∷ xs) s among h =
      check_each-Kept i xs (check_event watch submitted_at i x s) (λ y m. among y (ground arith))
        (answer-Kept i x s (watch.get i x) (among x (ground (arith, eq_iff x x))) h)

  while_pending-TurnedIn :
      (s : Waiting) (xs : List String)
      → Kept start s
      → TurnedIn (Kept start) (Kept start) (while_pending s xs)
  while_pending-TurnedIn s [] h = h
  while_pending-TurnedIn s (x ∷ xs) h = h

  terminal_turn-TurnedIn :
      (i : ℕ) (s : Waiting)
      → Kept start s
      → TurnedIn (Kept start) (Kept start) (terminal_turn watch submitted_at i s)
  unfolding terminal_turn
  terminal_turn-TurnedIn i s h = while_pending-TurnedIn _ _ (
      check_each-Kept i (take 50 (watch.listed i s.pending)) s
        (λ y m. ground (
          arith,
          h.0 y,
          has_text-listed i y s.pending,
          has_text-take 50 y (watch.listed i s.pending) m,
        ))
        h)

  -- What comes out of the last loop.
  abbrev IsComplete : List TerminalEvent → Type 0
  IsComplete rs =
      ((x : String) → has_result x rs ≡ has_text x start)
      × OneEach rs
      × AllEnded rs
      × (length rs ≤ length start)

  time_out_lem :
      (xs : List String) (rs : List TerminalEvent)
      → Among start xs
      → OneEach rs
      → AllEnded rs
      → (out : List TerminalEvent) × (time_out watch submitted_at xs rs ≡ some out)
        × ((x : String) → has_result x out ≡ (has_text x xs || has_result x rs))
        × OneEach out
        × AllEnded out
        × (length out ≤ length xs + length rs)
  unfolding time_out
  time_out_lem [] rs among one ended = (rs, refl, (λ x. refl), one, ended, omega arith)
  time_out_lem (x ∷ xs) rs among one ended =
      let (t, found) = known x (among x (ground (arith, eq_iff x x))) in
      let result = terminal_event x "timeout" (watch.perf_counter 0 x) t in
      let (out, e, has, one', ended', few) =
        time_out_lem xs (set_result result rs) (λ y m. among y (ground arith))
          (set_result-OneEach result rs one) (set_result-AllEnded result rs refl ended) in
      (
        out,
        rw (found, time_out) e,
        (λ y. ground (arith, has y, has_result-set_result y result rs)),
        one',
        ended',
        ground (arith, few, length-set_result result rs),
      )

  finish_lem :
      (s : Waiting)
      → Kept start s
      → (out : List TerminalEvent) × (finish watch submitted_at s ≡ returned out) × IsComplete out
  unfolding finish
  finish_lem s h =
      let (out, e, has, one, ended, few) =
        time_out_lem (watch.listed 0 s.pending) s.results
          (λ y m. ground (arith, h.0 y, has_text-listed 0 y s.pending)) h.1 h.2 in
      (
        out,
        rw (e, finish) refl,
        (
          (λ y. ground (arith, has y, h.0 y, has_text-listed 0 y s.pending)),
          one,
          ended,
          omega (arith, few, h.3, length-listed 0 s.pending),
        ),
      )

  abbrev ReturnsAll : Waited → Type 0
  ReturnsAll w = (out : List TerminalEvent) × (w ≡ returned out) × IsComplete out

  ended-ReturnsAll :
      (o : Polled Waiting Waiting)
      → EndsIn (Kept start) (Kept start) o
      → ReturnsAll (finish_poll watch submitted_at o)
  ended-ReturnsAll (stopped s) h = finish_lem s h
  ended-ReturnsAll (timed_out s) h = finish_lem s h
  ended-ReturnsAll out_of_fuel h = absurd h

  pub poll-ReturnsAll :
      Ticks watch.monotonic
      → (timeout : ℕ) (s : Waiting) (xs : List String) → Kept start s
      → ReturnsAll (poll_pending watch submitted_at timeout s xs)
  unfolding poll_pending
  poll-ReturnsAll ticks timeout s [] h = finish_lem s h
  poll-ReturnsAll ticks timeout s (x ∷ xs) h =
      ended-ReturnsAll (poll watch.monotonic timeout (terminal_turn watch submitted_at) s) (
        poll-EndsIn watch.monotonic (terminal_turn watch submitted_at) (Kept start) (Kept start)
          terminal_turn-TurnedIn ticks timeout s h)

-- Whatever the service answers, and if it never does: the loop ends by itself when the clock goes
-- on between two turns, and if the time of each submission is known, it returns one result for each
-- id that was given and none for another, each with a final status or "timeout", and no more of
-- them than ids were given.
pub wait_for_terminal_events_lem :
    (watch : Watch) (submitted_at : String → Option ℕ) (ids : List String) (timeout : ℕ)
    → ((x : String) → has_text x ids ≡ true → (t : ℕ) × (submitted_at x ≡ some t))
    → ((i : ℕ) (x : String) (xs : List String) → has_text x (watch.listed i xs) ≡ has_text x xs)
    → ((i : ℕ) (xs : List String) → length (watch.listed i xs) ≡ length xs)
    → Ticks watch.monotonic
    → (out : List TerminalEvent) × (wait_for_terminal_events watch submitted_at timeout ids
        ≡ returned out)
      × ((x : String) → has_result x out ≡ has_text x ids)
      × OneEach out
      × AllEnded out
      × (length out ≤ length ids)
unfolding wait_for_terminal_events
wait_for_terminal_events_lem watch submitted_at ids timeout known same_members same_length ticks =
    let start = as_set ids in
    let (out, e, (has, one, ended, few)) =
      poll-ReturnsAll watch submitted_at start (λ x m. known x (sym (has_text-as_set x ids) ∙ m))
        same_members same_length ticks timeout (record { pending = start; results = [] }) start
        ((λ x. (ground arith, ground arith)), tt, tt, omega arith) in
    (
      out,
      e,
      (λ x. has x ∙ has_text-as_set x ids),
      one,
      ended,
      omega (arith, few, length-as_set ids),
    )
