-- ===== src/RootCause/Explained.antt =====
-- What an analysis says of the events of its workflow.
use replay_forge.Base.{
  ℕ, zero, suc, ◌+◌, ◌≡◌, ◌≤◌, ◌<◌, refl, ap, sym, subst, ◌∙◌, String, Bool, true, ◌&&◌, List, [],
  ◌∷◌, arith, All, IsAscending, keep, count_by, length, length-keep, count_by-le-length, ltb,
  leb_trans, leb_total, Bool-cases, inl, inr,
}
use replay_forge.Models.{Event}
use replay_forge.Service.Ordering.{Sort, ascending, take}
use replay_forge.Service.World.{Platform, World, Result, ok}
use replay_forge.Convergence.Rows.{has_status}
use replay_forge.Models.{Status}
use replay_forge.Workflows.{in_workflow}
use replay_forge.RootCause.{
  is_failing, Analyst, CauseReport, Analysis, workflow_not_found, no_failures, report, most_common,
  make_report, explain, analyze, root_cause_analysis,
}

abbrev before : Event → Event → Bool
before primary e = is_failing e && ltb e.created_at primary.created_at

-- A report on the events `rows` of a workflow: it names a failing event of these (every test that it
-- passes is passed by one of them) before which none fails, and counts the failing ones; the similar failures are twenty at most, and each has recovered or not.
pub record IsReport (rows : List Event) (r : CauseReport) : Type 0 where
  pub fails : is_failing r.primary ≡ true
  pub inside : (q : Event → Bool) → q r.primary ≡ true → 0 < count_by q rows
  pub first : count_by (before r.primary) rows ≡ 0
  pub failed : r.events_failed ≡ count_by is_failing rows
  pub total : r.events_total ≡ length rows
  pub similar : r.recovered + r.dead_lettered ≡ r.similar
  pub few : r.similar ≤ 20
  pub top : length r.top_errors ≤ 5

pub data IsExplained (rows : List Event) : Result Analysis → Type 0 where
  missing : length rows ≡ 0 → IsExplained rows (ok workflow_not_found)
  calm :
      (n : ℕ)
      → n ≡ length rows
      → 0 < n
      → count_by is_failing rows ≡ 0
      → IsExplained rows (ok (no_failures n))
  explained : (r : CauseReport) → IsReport rows r → IsExplained rows (ok (report r))

module _ {A : Type 0} where
  length-take : (n : ℕ) (xs : List A) → length (take n xs) ≤ n
  length-take zero xs = omega arith
  length-take (suc n) [] = omega arith
  length-take (suc n) (x ∷ xs) = omega (arith, length-take n xs)

  count_all : (xs : List A) → count_by (λ _. true) xs ≡ length xs
  count_all [] = refl
  count_all (x ∷ xs) = omega (arith, count_all xs)

abbrev older : Event → Event → Bool
older = ascending (λ (e : Event). e.created_at)

none_before :
    (x : Event) (ys : List Event) → All (λ y. older x y ≡ true) ys → count_by (before x) ys ≡ 0
none_before x [] h = refl
none_before x (y ∷ ys) h = ground (arith, h.0, none_before x ys h.1)

-- The first that fails, of events in their order.
first_failing :
    (xs : List Event) (x : Event) (rest : List Event)
    → IsAscending older xs
    → keep is_failing xs ≡ x ∷ rest
    → (is_failing x ≡ true) × (count_by (before x) xs ≡ 0)
first_failing [] x rest up e = cc
first_failing (y ∷ ys) x rest up e = elim (Bool-cases (is_failing y)) [
  | inl here ↦
      let same : y ≡ x = ground arith in
      subst (λ t. (is_failing t ≡ true) × (count_by (before t) (y ∷ ys) ≡ 0)) same
        (here, ground (arith, none_before y ys up.0))
  | inr there ↦
      let (fails, first) = first_failing ys x rest up.1 (ground arith) in
      (fails, ground (arith, first))
]

-- What is left of events is among them.
keep_inside :
    (p q : Event → Bool) (xs : List Event) (x : Event) (rest : List Event)
    → keep p xs ≡ x ∷ rest
    → q x ≡ true
    → 0 < count_by q xs
keep_inside p q [] x rest e h = cc
keep_inside p q (y ∷ ys) x rest e h = elim (Bool-cases (p y)) [
  | inl here ↦ let same : y ≡ x = ground arith in let own : q y ≡ true = rw same h in ground arith
  | inr there ↦ let inside = keep_inside p q ys x rest (ground arith) h in ground arith
]

dead_le :
    (similar : List Event) → count_by (has_status Status.dead_lettered) similar ≤ length similar
dead_le similar = count_by-le-length (has_status Status.dead_lettered) similar

module _ (analyst : Analyst) where
  make_report-IsReport :
      (rows ordered_rows : List Event) (primary : Event) (rest similar : List Event)
      → ((q : Event → Bool) → count_by q ordered_rows ≡ count_by q rows)
      → IsAscending older ordered_rows
      → keep is_failing ordered_rows ≡ primary ∷ rest
      → length similar ≤ 20
      → IsReport rows (make_report analyst primary (primary ∷ rest) (length ordered_rows) similar)
  unfolding make_report most_common
  make_report-IsReport rows ordered_rows primary rest similar same up failing few =
      let (fails, first) = first_failing ordered_rows primary rest up failing in
      record {
        fails = fails;
        inside = λ q h.
            subst (λ n. 0 < n) (same q)
              (keep_inside is_failing q ordered_rows primary rest failing h);
        first = sym (same (before primary)) ∙ first;
        failed = ap length (sym failing) ∙ length-keep is_failing ordered_rows ∙ same is_failing;
        total = sym (count_all ordered_rows) ∙ same (λ _. true) ∙ count_all rows;
        similar = omega (arith, dead_le similar);
        few = few;
        top = length-take 5 _;
      }

  module _ (p : Platform) (sort : Sort) (id : String) where
    explain-IsExplained :
        (rows ordered_rows failing : List Event) (w : World p)
        → 0 < length ordered_rows
        → ((q : Event → Bool) → count_by q ordered_rows ≡ count_by q rows)
        → IsAscending older ordered_rows
        → keep is_failing ordered_rows ≡ failing
        → IsExplained rows (explain analyst p sort id (length ordered_rows) failing w).0
    unfolding explain
    explain-IsExplained rows ordered_rows [] w some_event same up e =
        calm _ (sym (count_all ordered_rows) ∙ same (λ _. true) ∙ count_all rows) some_event
          (sym (same is_failing) ∙ sym (length-keep is_failing ordered_rows) ∙ ap length e)
    explain-IsExplained rows ordered_rows (primary ∷ rest) w some_event same up e =
        explained _
          (make_report-IsReport rows ordered_rows primary rest _ same up e (length-take 20 _))

    analyze-IsExplained :
        (rows ordered_rows : List Event) (w : World p)
        → ((q : Event → Bool) → count_by q ordered_rows ≡ count_by q rows)
        → IsAscending older ordered_rows
        → IsExplained rows (analyze analyst p sort id ordered_rows w).0
    analyze-IsExplained rows [] w same up = missing (sym (count_all rows) ∙ sym (same (λ _. true)))
    analyze-IsExplained rows (e ∷ es) w same up =
        explain-IsExplained rows (e ∷ es) (keep is_failing (e ∷ es)) w (omega arith) same up refl

    -- The analysis of a workflow always answers: it finds no workflow only where it has no event, no
    -- failure only where it has events and none of them is failed, dead-lettered or retrying, and
    -- otherwise it reports a failing event of the workflow before which none of them fails; the numbers of events and of failing ones are those of the
    -- workflow, and of twenty similar failures at most each counts as recovered or as dead-lettered.
    pub root_cause_analysis-IsExplained :
        (w : World p)
        → IsExplained
            (p.tables.select (in_workflow id) w.db.events)
            (root_cause_analysis analyst p sort id w).0
    unfolding root_cause_analysis
    root_cause_analysis-IsExplained w =
        let rows = p.tables.select (in_workflow id) w.db.events in
        analyze-IsExplained rows (sort.order_by older w.tick rows) (record w { tick = w.tick + 1 })
          (λ q. sort.count_by-order_by older w.tick q rows)
          (sort.order_by-IsAscending older
            (λ a b c. leb_trans a.created_at b.created_at c.created_at)
            (λ a b. leb_total a.created_at b.created_at) w.tick rows)
