-- ===== src/Summaries/Cached.antt =====
-- summarize_workflow of api/app/core/incident_summary.py and its cache.
use replay_forge.Base.{
  ◌+◌, ◌*◌, ◌≤◌, ◌<◌, ◌≡◌, refl, ap, sym, ◌∙◌, ◌⊎◌, inl, inr, String, Bool, true, not, List, [],
  ◌∷◌, ◌++◌, Option, none, some, ltb, str_eq, eq_iff, keep, head?, length, length-keep, count_by,
  count_by-append, sorted, count_by-sorted, length-sorted, Option-cases, Bool-cases, arith, ltb→lt,
  lt→ltb,
}
use replay_forge.Models.{IncidentSummary}
use replay_forge.Service.World.{Platform, World, Result, ok}
use replay_forge.Summaries.{
  Writer, is_cached, newest_first, recent_or_new, summarize_anew, summarize_workflow,
}

module _ {A : Type 0} where
  head?-some : (xs : List A) → 0 < length xs → (a : A) × (head? xs ≡ some a)
  head?-some [] h = absurd (omega arith)
  head?-some (x ∷ xs) h = (x, refl)

  head?-count_by :
      (q : A → Bool) (xs : List A) (a : A) → head? xs ≡ some a → q a ≡ true → 0 < count_by q xs
  head?-count_by q [] a h e = cc
  head?-count_by q (x ∷ xs) a h e = let same : x ≡ a = cc in rw (same, e) (omega arith)

  count_by-keep_le : (p q : A → Bool) (xs : List A) → count_by q (keep p xs) ≤ count_by q xs
  count_by-keep_le p q [] = omega arith
  count_by-keep_le p q (x ∷ xs) = ground (arith, count_by-keep_le p q xs)

  count_by-kept : (p : A → Bool) (xs : List A) → count_by (λ x. not (p x)) (keep p xs) ≡ 0
  count_by-kept p [] = refl
  count_by-kept p (x ∷ xs) = ground (arith, count_by-kept p xs)

  module _ (le : A → A → Bool) where
    -- The first of the sorted rows that pass a test passes it, and is among all rows.
    first-kept :
        (p : A → Bool) (xs : List A) (a : A) → head? (sorted le (keep p xs)) ≡ some a → p a ≡ true
    first-kept p xs a h = elim (Bool-cases (p a)) [
      | inl good ↦ good
      | inr bad ↦
          let some_bad =
            head?-count_by (λ x. not (p x)) (sorted le (keep p xs)) a h (rw bad refl) in
          absurd (
            omega (
              arith,
              some_bad,
              count_by-sorted le (λ x. not (p x)) (keep p xs),
              count_by-kept p xs,
            ))
    ]

    first-count_by :
        (p q : A → Bool) (xs : List A) (a : A)
        → head? (sorted le (keep p xs)) ≡ some a
        → q a ≡ true
        → 0 < count_by q xs
    first-count_by p q xs a h e = omega (
      arith,
      head?-count_by q (sorted le (keep p xs)) a h e,
      count_by-sorted le q (keep p xs),
      count_by-keep_le p q xs,
    )

    first-some :
        (p : A → Bool) (xs : List A)
        → 0 < count_by p xs
        → (a : A) × (head? (sorted le (keep p xs)) ≡ some a)
    first-some p xs h =
        head?-some (sorted le (keep p xs))
          (omega (arith, h, length-keep p xs, length-sorted le (keep p xs)))

    first-none :
        (p : A → Bool) (xs : List A) → head? (sorted le (keep p xs)) ≡ none → count_by p xs ≡ 0
    first-none p xs h = elim (Bool-cases (ltb 0 (count_by p xs))) [
      | inl some_row ↦
          let (a, e) = first-some p xs (ltb→lt 0 (count_by p xs) some_row) in absurd (cc)
      | inr no_row ↦ ground arith
    ]

module _ (p : Platform) (writer : Writer) (workflow_id : String) where
  abbrev summaries : World p → List IncidentSummary
  summaries w = p.tables.rows w.db.incident_summaries

  -- What a call does: it gives a recent row and writes nothing, or, if there was none, it adds the
  -- row that it gives.
  pub record Gives (w : World p) (s : IncidentSummary) (w' : World p) : Type 0 where
    pub answer : summarize_workflow p writer workflow_id w ≡ (ok s, w')
    pub same_workflow : str_eq s.workflow_id workflow_id ≡ true
    pub kept : (q : IncidentSummary → Bool) → q s ≡ true → 0 < count_by q (summaries w')
    pub written :
        ((w'.db ≡ w.db) × (is_cached workflow_id (p.clock w.tick) s ≡ true))
        ⊎ ((count_by (is_cached workflow_id (p.clock w.tick)) (summaries w) ≡ 0)
            × (summaries w' ≡ summaries w ++ s ∷ []))

  abbrev after_read : World p → World p
  after_read w = record w { tick = w.tick + 1 }

  abbrev newest : World p → Option IncidentSummary
  newest w =
      head? (sorted newest_first (keep (is_cached workflow_id (p.clock w.tick)) (summaries w)))

  recent_or_new_step :
      (w : World p) (o : Option IncidentSummary)
      → newest w ≡ o
      → summarize_workflow p writer workflow_id w
        ≡ recent_or_new p writer workflow_id o (after_read w)
  unfolding summarize_workflow
  recent_or_new_step w o e =
      ap
        (λ rows.
          recent_or_new p writer workflow_id (head? (sorted newest_first rows)) (after_read w))
        (p.tables.select-rows (is_cached workflow_id (p.clock w.tick)) w.db.incident_summaries)
      ∙ ap (λ r. recent_or_new p writer workflow_id r (after_read w)) e

  pub summarize_workflow-Gives :
      (w : World p) → (s : IncidentSummary) × (w' : World p) × Gives w s w'
  unfolding summarize_anew
  summarize_workflow-Gives w =
      let q = is_cached workflow_id (p.clock w.tick) in
      let rows = summaries w in
      elim (Option-cases (newest w)) [
        | inr (s, e) ↦
            let recent = first-kept newest_first q rows s e in
            (
              s,
              after_read w,
              record {
                answer = recent_or_new_step w (some s) e;
                same_workflow = ground arith;
                kept = λ r h. first-count_by newest_first q r rows s e h;
                written = inl (refl, recent);
              },
            )
        | inl e ↦ (
          _,
          _,
          record {
            answer = recent_or_new_step w none e;
            same_workflow = (eq_iff workflow_id workflow_id).1 refl;
            kept = λ r h. rw p.tables.rows-add (rw count_by-append (ground arith));
            written = inr (first-none newest_first q rows e, p.tables.rows-add _ _);
          },
        )
      ]

-- A summary of a workflow that was given is not made twice: as long as the tables stay, a further
-- call that reads the clock less than a minute after that row was made answers with a row of the
-- workflow that is less than a minute old, and writes nothing.
pub summarize_workflow_twice :
    (p : Platform) (writer : Writer) (workflow_id : String) (w v w' : World p) (s : IncidentSummary)
    → summarize_workflow p writer workflow_id w ≡ (ok s, w')
    → v.db ≡ w'.db
    → p.clock v.tick < s.created_at + 1000000 * 60
    → (t : IncidentSummary) × (v' : World p) × (summarize_workflow p writer workflow_id v
        ≡ (ok t, v'))
      × (is_cached workflow_id (p.clock v.tick) t ≡ true)
      × (v'.db ≡ v.db)
summarize_workflow_twice p writer workflow_id w v w' s done same early =
    let (s1, w1, first) = summarize_workflow-Gives p writer workflow_id w in
    let (t, v', second) = summarize_workflow-Gives p writer workflow_id v in
    let q = is_cached workflow_id (p.clock v.tick) in
    let both : Path (Result IncidentSummary × World p) (ok s1, w1) (ok s, w') =
      sym first.answer ∙ done in
    let same_row : s1 ≡ s = cc in
    let same_world : w1 ≡ w' = ap (λ r. r.1) both in
    let cached : q s1 ≡ true = rw (first.same_workflow, same_row) (lt→ltb _ _ early) in
    let there : 0 < count_by q (p.tables.rows v.db.incident_summaries) =
      rw (same, ← same_world) (first.kept q cached) in
    (
      t,
      v',
      second.answer,
      elim second.written [
        | inl (unchanged, recent) ↦ recent
        | inr (nothing, added) ↦ absurd (omega (arith, there, nothing))
      ],
      elim second.written [
        | inl (unchanged, recent) ↦ unchanged
        | inr (nothing, added) ↦ absurd (omega (arith, there, nothing))
      ],
    )
