-- ===== src/Service/Tables.antt =====
-- A relational store as SQLAlchemy's session shows it: the statements that api/app uses, with what
-- SQL documents of each in terms of the rows.
use replay_forge.Base.{
  ◌≡◌, Bool, true, false, not, List, [], ◌∷◌, ◌++◌, Option, none, some, keep, update_by, count_by,
  ◌==◌,
}
use replay_forge.Models.{Application, Event, EventAttempt, DeadLetter, Worker, IncidentSummary}

pub record Tables : Type 1 where
  pub Table : Type 0 → Type 0
  -- The rows of a table, in the order in which they are returned.
  pub rows : {A : Type 0} → Table A → List A
  -- `select(Model).where(p)`
  pub select : {A : Type 0} → (A → Bool) → Table A → List A
  -- `db.add(row)` and the flush
  pub add : {A : Type 0} → A → Table A → Table A
  -- The same under a unique constraint, where `p` tests for the new row's key: `none` is the
  -- `IntegrityError`.
  pub add_unique : {A : Type 0} → (A → Bool) → A → Table A → Option (Table A)
  -- `update(Model).where(p)`, and the flush of a changed object, whose row is found by its id
  pub update : {A : Type 0} → (A → Bool) → (A → A) → Table A → Table A
  -- `delete(Model).where(p)`
  pub delete : {A : Type 0} → (A → Bool) → Table A → Table A
  pub select-rows : {A : Type 0} (p : A → Bool) (t : Table A) → select p t ≡ keep p (rows t)
  pub rows-add : {A : Type 0} (a : A) (t : Table A) → rows (add a t) ≡ rows t ++ a ∷ []
  pub rows-update :
      {A : Type 0} (p : A → Bool) (f : A → A) (t : Table A)
      → rows (update p f t) ≡ update_by p f (rows t)
  pub rows-delete :
      {A : Type 0} (p : A → Bool) (t : Table A) → rows (delete p t) ≡ keep (λ a. not (p a)) (rows t)
  -- A row whose key is taken is refused, and any other is added.
  pub add_unique-taken :
      {A : Type 0} (p : A → Bool) (a : A) (t : Table A)
      → (count_by p (rows t) == 0) ≡ false
      → add_unique p a t ≡ none
  pub add_unique-free :
      {A : Type 0} (p : A → Bool) (a : A) (t : Table A)
      → (count_by p (rows t) == 0) ≡ true
      → add_unique p a t ≡ some (add a t)

-- The tables of the program.
pub record Db (ts : Tables) : Type 0 where
  pub applications : ts.Table Application
  pub events : ts.Table Event
  pub attempts : ts.Table EventAttempt
  pub dead_letters : ts.Table DeadLetter
  pub workers : ts.Table Worker
  pub incident_summaries : ts.Table IncidentSummary
