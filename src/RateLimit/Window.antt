-- ===== src/RateLimit/Window.antt =====
-- RateLimitMiddleware of api/app/core/security.py, against a limiter that remembers all times.
use replay_forge.Base.{
  ℕ, suc, ◌+◌, ◌≤◌, ◌<◌, ◌≡◌, refl, ap, sym, ◌∙◌, subst, String, Bool, true, false, ◌⊎◌, List, [],
  ◌∷◌, ◌++◌, none, some, inl, inr, if◌then◌else◌, ltb, ◌==◌, str_eq, eq_iff, keep, count_by, length,
  length-append, length-keep, count_by-append, Bool-cases, Option-cases, arith, ltb→lt,
}
use replay_forge.RateLimit.{
  Counters, Request, Limits, Verdict, unlimited, allowed, refused, add_score, in_window, limit_of,
  key_of, judge, is_public, count_request, dispatch, dispatch_all,
}

-- A request that is not limited at all: its path is exempt, or the client of Redis raises.
abbrev pub IsUnlimited : (c : Counters) → Limits → Request → c.Server → Type 0
IsUnlimited c limits r s =
    (is_public r ≡ true) ⊎ (c.pipeline (key_of r) limits.window r.now s ≡ none)

-- The reference: any other request of the key is allowed if, with those of the key that were counted
-- before it and are in the window, it is within its limit, and refused if it is not. The times of all
-- that were counted are kept.
abbrev pub IsAnswer : (c : Counters) → Limits → Request → c.Server → (seen : ℕ) → Verdict → Type 0
IsAnswer c limits r s seen unlimited = IsUnlimited c limits r s
IsAnswer c limits r s seen (allowed remaining reset_at) =
    (¬ IsUnlimited c limits r s)
    × (suc seen ≤ limit_of limits r)
    × (remaining + suc seen ≡ limit_of limits r)
    × (reset_at ≡ r.now + limits.window)
IsAnswer c limits r s seen (refused reset_at) =
    (¬ IsUnlimited c limits r s)
    × (limit_of limits r < suc seen)
    × (reset_at ≡ r.now + limits.window)

abbrev pub counted : Verdict → ℕ → List ℕ → List ℕ
counted unlimited t history = history
counted (allowed remaining reset_at) t history = t ∷ history
counted (refused reset_at) t history = t ∷ history

abbrev pub FollowsWindow :
    (c : Counters) → Limits → String → List ℕ → List (Request × c.Server × Verdict) → Type 0
FollowsWindow c limits key history [] = Unit {0}
FollowsWindow c limits key history ((r, s, v) ∷ rest) =
    if str_eq (key_of r) key
    then IsAnswer c limits r s (count_by (in_window limits.window r.now) history) v
      × FollowsWindow c limits key (counted v r.now history) rest
    else FollowsWindow c limits key history rest

-- Each request comes later than the one before, and than `t`.
abbrev pub Later : ℕ → List Request → Type 0
Later t [] = Unit {0}
Later t (r ∷ rs) = (t < r.now) × Later r.now rs

-- The scores of a key stand for a history up to a time.
pub record Stands (window latest : ℕ) (scores history : List ℕ) : Type 0 where
  pub same :
      (now : ℕ)
      → latest ≤ now
      → count_by (in_window window now) scores ≡ count_by (in_window window now) history
  pub past : (t : ℕ) → latest < t → count_by (λ x. x == t) scores ≡ 0

module _ (window now : ℕ) where
  count_by-keep_later :
      (later : ℕ) (xs : List ℕ)
      → now ≤ later
      → count_by (in_window window later) (keep (in_window window now) xs)
        ≡ count_by (in_window window later) xs
  count_by-keep_later later [] h = refl
  count_by-keep_later later (x ∷ xs) h = ground (arith, count_by-keep_later later xs h)

  count_by-keep_eq :
      (t : ℕ) (xs : List ℕ)
      → count_by (λ x. x == t) xs ≡ 0
      → count_by (λ x. x == t) (keep (in_window window now) xs) ≡ 0
  count_by-keep_eq t [] h = refl
  count_by-keep_eq t (x ∷ xs) h = ground (arith, count_by-keep_eq t xs)

module _ (c : Counters) (limits : Limits) where
  Stands-later :
      {t u : ℕ} {scores history : List ℕ}
      → t ≤ u
      → Stands limits.window t scores history
      → Stands limits.window u scores history
  Stands-later h st = record {
    same = λ now later. st.same now (omega arith);
    past = λ x later. st.past x (omega arith);
  }

  -- What the pipeline counts, and what the scores stand for after it.
  pipeline-Stands :
      (key : String) (now latest n : ℕ) (s s' : c.Server) (history : List ℕ)
      → c.pipeline key limits.window now s ≡ some (n, s')
      → latest < now
      → Stands limits.window latest (c.scores key s) history
      → (n ≡ suc (count_by (in_window limits.window now) history))
        × Stands limits.window now (c.scores key s') (now ∷ history)
  pipeline-Stands key now latest n s s' history e late st =
      let window = limits.window in
      let old = c.scores key s in
      let left = keep (in_window window now) old in
      let fresh : count_by (λ t. t == now) left ≡ 0 =
        count_by-keep_eq window now now old (st.past now late) in
      let added : add_score now left ≡ left ++ now ∷ [] = rw fresh refl in
      let scores : c.scores key s' ≡ left ++ now ∷ [] =
        c.pipeline-scores key window now s e ∙ added in
      (
        omega (
          arith,
          c.pipeline-zcard key window now s e,
          ap length scores,
          length-append left (now ∷ []),
          length-keep (in_window window now) old,
          st.same now (omega (arith, late)),
        ),
        record {
          same = λ later h.
              rw (scores, count_by-append)
                (ground (
                  arith,
                  count_by-keep_later window now later old h,
                  st.same later (omega (arith, late, h)),
                ));
          past = λ t h.
              rw (scores, count_by-append)
                (ground (
                  arith,
                  h,
                  count_by-keep_eq window now t old (st.past t (omega (arith, late, h))),
                ));
        },
      )

  judge-IsAnswer :
      (r : Request) (s : c.Server) (n seen : ℕ)
      → ¬ IsUnlimited c limits r s
      → n ≡ suc seen
      → IsAnswer c limits r s seen (judge limits r n)
  judge-IsAnswer r s n seen applies e = elim (Bool-cases (ltb (limit_of limits r) n)) [
    | inl over ↦ rw over (applies, omega (arith, ltb→lt _ _ over, e), refl)
    | inr within ↦ rw within (applies, ground (arith, e), ground (arith, e), refl)
  ]

  judge-counted :
      (r : Request) (n t : ℕ) (history : List ℕ)
      → counted (judge limits r n) t history ≡ t ∷ history
  judge-counted r n t history = ground arith

  limit_applies :
      (r : Request) (s : c.Server) {n : ℕ} {s' : c.Server}
      → is_public r ≡ false
      → c.pipeline (key_of r) limits.window r.now s ≡ some (n, s')
      → ¬ IsUnlimited c limits r s
  limit_applies r s limited e (inl exempt) = cc
  limit_applies r s limited e (inr raised) = cc

  -- What follows a request that met a server and ended so.
  abbrev Follows : String → List ℕ → Request → c.Server → List Request → Verdict × c.Server → Type 0
  Follows key history r s rs o =
      FollowsWindow c limits key history ((r, s, o.0) ∷ dispatch_all c limits rs o.1)

  dispatch_all-FollowsWindow :
      (key : String) (rs : List Request) (s : c.Server) (latest : ℕ) (history : List ℕ)
      → Later latest rs
      → Stands limits.window latest (c.scores key s) history
      → FollowsWindow c limits key history (dispatch_all c limits rs s)
  unfolding dispatch_all dispatch
  dispatch_all-FollowsWindow key [] s latest history late st = tt
  dispatch_all-FollowsWindow key (r ∷ rs) s latest history late st =
      -- A request that is not counted changes nothing.
      let uncounted : IsUnlimited c limits r s → Follows key history r s rs (unlimited, s) = λ free.
        elim (Bool-cases (str_eq (key_of r) key)) [
          | inl mine ↦ rw mine (
            free,
            dispatch_all-FollowsWindow key rs s r.now history late.1
                (Stands-later (omega (arith, late.0)) st),
          )
          | inr other ↦ rw other (
              dispatch_all-FollowsWindow key rs s r.now history late.1
                (Stands-later (omega (arith, late.0)) st))
        ] in
      let ends : Bool → Verdict × c.Server = λ exempt.
        if exempt
        then (unlimited, s)
        else count_request c limits r s (c.pipeline (key_of r) limits.window r.now s) in
      elim (Bool-cases (is_public r)) [
        | inl exempt ↦
            subst (λ b. Follows key history r s rs (ends b)) (sym exempt) (uncounted (inl exempt))
        | inr limited ↦
            subst (λ b. Follows key history r s rs (ends b)) (sym limited)
              (elim (Option-cases (c.pipeline (key_of r) limits.window r.now s)) [
                | inl raised ↦
                    subst (λ o. Follows key history r s rs (count_request c limits r s o))
                      (sym raised) (uncounted (inr raised))
                | inr ((n, s'), e) ↦
                    subst (λ o. Follows key history r s rs (count_request c limits r s o)) (sym e)
                      (elim (Bool-cases (str_eq (key_of r) key)) [
                        | inl mine ↦
                            let k' = (eq_iff (key_of r) key).0 mine in
                            let e' =
                              subst (λ k. c.pipeline k limits.window r.now s ≡ some (n, s')) k' e in
                            let (counts, st') =
                              pipeline-Stands key r.now latest n s s' history e' late.0 st in
                            rw mine (
                              judge-IsAnswer r s n
                                  (count_by (in_window limits.window r.now) history)
                                  (limit_applies r s limited e) counts,
                              rw (judge-counted r n r.now history) (
                                  dispatch_all-FollowsWindow key rs s' r.now (r.now ∷ history)
                                    late.1 st'),
                            )
                        | inr other ↦
                            let left =
                              c.pipeline-other (key_of r) limits.window r.now s e key other in
                            rw other (
                              dispatch_all-FollowsWindow key rs s' r.now history late.1
                                (rw left (Stands-later (omega (arith, late.0)) st)))
                      ])
              ])
      ]

-- The limiter follows the reference for every key, from sets that are empty for it, when each
-- request comes later than the one before. A request of the key goes on without a limit exactly if
-- its path is exempt or the client of Redis raises, and is not counted then. Any other is allowed
-- exactly if the requests of its key that were counted in the window before it, those that were refused
-- included, and itself are within the limit, with how many are left, and is refused otherwise.
pub dispatch_all-Window :
    (c : Counters) (limits : Limits) (key : String) (rs : List Request) (s : c.Server) (t : ℕ)
    → Later t rs
    → c.scores key s ≡ []
    → FollowsWindow c limits key [] (dispatch_all c limits rs s)
dispatch_all-Window c limits key rs s t late empty =
    dispatch_all-FollowsWindow c limits key rs s t [] late
      (rw empty (record { same = λ now h. refl; past = λ x h. refl }))
