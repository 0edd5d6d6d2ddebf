-- ===== src/Harness/Results.antt =====
-- The set of waiting ids and the dictionary of results in wait_for_terminal_events of
-- scripts/replay_harness.py.
use replay_forge.Base.{
  ℕ, zero, suc, ◌≤◌, ◌<◌, ◌≡◌, refl, String, Bool, true, false, not, ◌&&◌, ◌||◌, List, [], ◌∷◌, inl,
  inr, Bool-cases, if◌then◌else◌, length, All, str_eq, eq_iff, arith,
}
use replay_forge.Harness.{TerminalEvent, has_text, as_set, discard, take, set_result, is_terminal}

-- There is a result for this id.
abbrev pub has_result : String → List TerminalEvent → Bool
has_result x [] = false
has_result x (t ∷ ts) = str_eq t.event_id x || has_result x ts

-- No id has two results.
abbrev pub OneEach : List TerminalEvent → Type 0
OneEach [] = Unit {0}
OneEach (t ∷ ts) = (has_result t.event_id ts ≡ false) × OneEach ts

-- A final status of the service, or "timeout".
abbrev pub is_ended : TerminalEvent → Bool
is_ended t = is_terminal t.status || str_eq t.status "timeout"

abbrev pub AllEnded : List TerminalEvent → Type 0
AllEnded = All (λ t. is_ended t ≡ true)

pub has_text-discard :
    (y x : String) (xs : List String)
    → has_text y (discard x xs) ≡ (has_text y xs && not (str_eq x y))
has_text-discard y x [] = refl
has_text-discard y x (z ∷ zs) =
    ground (arith, eq_iff z x, eq_iff z y, eq_iff x y, eq_iff y x, has_text-discard y x zs)

pub has_text-as_set : (y : String) (xs : List String) → has_text y (as_set xs) ≡ has_text y xs
has_text-as_set y [] = refl
has_text-as_set y (x ∷ xs) = ground (arith, eq_iff x y, has_text-as_set y xs, has_text-as_set x xs)

pub length-as_set : (xs : List String) → length (as_set xs) ≤ length xs
length-as_set [] = omega arith
length-as_set (x ∷ xs) = ground (arith, length-as_set xs)

pub has_text-take :
    (n : ℕ) (y : String) (xs : List String) → has_text y (take n xs) ≡ true → has_text y xs ≡ true
has_text-take zero y xs h = cc
has_text-take (suc n) y [] h = cc
has_text-take (suc n) y (x ∷ xs) h = ground (arith, has_text-take n y xs)

pub length-discard-le : (x : String) (xs : List String) → length (discard x xs) ≤ length xs
length-discard-le x [] = omega arith
length-discard-le x (y ∷ ys) = ground (arith, length-discard-le x ys)

pub length-discard :
    (x : String) (xs : List String) → has_text x xs ≡ true → length (discard x xs) < length xs
length-discard x [] h = cc
length-discard x (y ∷ ys) h = ground (arith, length-discard-le x ys, length-discard x ys)

pub has_result-set_result :
    (y : String) (r : TerminalEvent) (ts : List TerminalEvent)
    → has_result y (set_result r ts) ≡ (str_eq r.event_id y || has_result y ts)
has_result-set_result y r [] = refl
has_result-set_result y r (t ∷ ts) =
    ground (arith, eq_iff t.event_id r.event_id, has_result-set_result y r ts)

pub length-set_result :
    (r : TerminalEvent) (ts : List TerminalEvent)
    → length (set_result r ts) ≡ (if has_result r.event_id ts then length ts else suc (length ts))
length-set_result r [] = refl
length-set_result r (t ∷ ts) = ground (arith, length-set_result r ts)

pub set_result-OneEach :
    (r : TerminalEvent) (ts : List TerminalEvent) → OneEach ts → OneEach (set_result r ts)
set_result-OneEach r [] h = (refl, tt)
set_result-OneEach r (t ∷ ts) h = elim (Bool-cases (str_eq t.event_id r.event_id)) [
  | inl same ↦ rw same (ground (arith, eq_iff t.event_id r.event_id, h.0), h.1)
  | inr other ↦ rw other (
    ground (
      arith,
      has_result-set_result t.event_id r ts,
      eq_iff r.event_id t.event_id,
      eq_iff t.event_id r.event_id,
      h.0,
    ),
    set_result-OneEach r ts h.1,
  )
]

pub set_result-AllEnded :
    (r : TerminalEvent) (ts : List TerminalEvent)
    → is_ended r ≡ true
    → AllEnded ts
    → AllEnded (set_result r ts)
set_result-AllEnded r [] e h = (e, tt)
set_result-AllEnded r (t ∷ ts) e h = elim (Bool-cases (str_eq t.event_id r.event_id)) [
  | inl same ↦ rw same (e, h.1)
  | inr other ↦ rw other (h.0, set_result-AllEnded r ts e h.1)
]
