-- ===== src/Tests/Services.antt =====
-- Services that meet the laws of Service: tables as lists, and a Redis that can be told to refuse.
use replay_forge.Base.{
  ℕ, ◌+◌, ◌*◌, ◌/◌, ◌≤◌, ◌≡◌, ◌∙◌, ap, refl, Bool, true, false, not, ◌&&◌, List, [], ◌∷◌, ◌++◌,
  Option, none, some, arith, keep, update_by, count_by, ◌==◌, leb, if◌then◌else◌,
}
use replay_forge.Service.Tables.{Tables}
use replay_forge.Service.Redis.{Redis, Stream, Message}
use replay_forge.Service.World.{Platform}

abbrev pub list_add_unique : {A : Type 0} → (A → Bool) → A → List A → Option (List A)
list_add_unique p a t = if count_by p t == 0 then some (t ++ a ∷ []) else none

pub list_add_unique-taken :
    {A : Type 0} (p : A → Bool) (a : A) (t : List A)
    → (count_by p t == 0) ≡ false
    → list_add_unique p a t ≡ none
list_add_unique-taken p a t h = rw h

pub list_add_unique-free :
    {A : Type 0} (p : A → Bool) (a : A) (t : List A)
    → (count_by p t == 0) ≡ true
    → list_add_unique p a t ≡ some (t ++ a ∷ [])
list_add_unique-free p a t h = rw h

abbrev pub list_tables : Tables
list_tables = record {
  Table = List;
  rows = λ t. t;
  select = λ p t. keep p t;
  add = λ a t. t ++ a ∷ [];
  add_unique = λ p a t. list_add_unique p a t;
  update = λ p f t. update_by p f t;
  delete = λ p t. keep (λ a. not (p a)) t;
  select-rows = λ p t. refl;
  rows-add = λ a t. refl;
  rows-update = λ p f t. refl;
  rows-delete = λ p t. refl;
  add_unique-taken = list_add_unique-taken;
  add_unique-free = list_add_unique-free;
}

abbrev pub stream_eq : Stream → Stream → Bool
stream_eq Stream.incoming Stream.incoming = true
stream_eq Stream.retry Stream.retry = true
stream_eq Stream.deadletter Stream.deadletter = true
stream_eq _ _ = false

-- `up` is whether writes are taken, `acks` whether acknowledgements are.
pub record Fake : Type 0 where
  pub log : Stream → List Message
  pub waiting : Stream → ℕ → Bool
  pub members : List ℕ
  pub scores : ℕ → Option ℕ
  pub up : Bool
  pub acks : Bool

abbrev pub fake_xadd : Stream → Message → Fake → Option Fake
fake_xadd s m r =
    if r.up
    then some (record r { log = λ t. if stream_eq s t then r.log t ++ m ∷ [] else r.log t })
    else none

abbrev pub fake_xack : Stream → ℕ → Fake → Option Fake
fake_xack s id r =
    if r.acks
    then some
        (record r { waiting = λ t j. if stream_eq s t && id == j then false else r.waiting t j })
    else none

abbrev pub fake_zadd : ℕ → ℕ → Fake → Option Fake
fake_zadd m x r =
    if r.up
    then some
        (record r { members = m ∷ r.members; scores = λ k. if m == k then some x else r.scores k })
    else none

abbrev pub is_some : Option ℕ → Bool
is_some none = false
is_some (some x) = true

abbrev pub fake_zrem : ℕ → Fake → Option (Bool × Fake)
fake_zrem m r =
    if r.up
    then some (is_some (r.scores m), record r { scores = λ k. if m == k then none else r.scores k })
    else none

abbrev pub is_due : ℕ → Option ℕ → Bool
is_due limit none = false
is_due limit (some x) = leb x limit

abbrev pub fake_zrange : ℕ → Fake → Option (List ℕ)
fake_zrange limit r = if r.up then some (keep (λ m. is_due limit (r.scores m)) r.members) else none

-- A call that answers was taken, and answers with its state.
taken : {A : Type 0} (b : Bool) {x y : A} → (if b then some x else none) ≡ some y → y ≡ x
taken true h = cc
taken false h = cc

stream_eq_refl : (s : Stream) → stream_eq s s ≡ true
stream_eq_refl Stream.incoming = refl
stream_eq_refl Stream.retry = refl
stream_eq_refl Stream.deadletter = refl

module _ (s : Stream) (m : Message) (r : Fake) {r' : Fake} (h : fake_xadd s m r ≡ some r') where
  pub fake_xadd-entries : (kept : List Message) × (r'.log s ≡ kept ++ m ∷ [])
  fake_xadd-entries =
      (r.log s, ap (λ (q : Fake). q.log s) (taken r.up h) ∙ ground (arith, stream_eq_refl s))

  pub fake_xadd-score : (k : ℕ) → r'.scores k ≡ r.scores k
  fake_xadd-score k = ap (λ (q : Fake). q.scores k) (taken r.up h)

  pub fake_xadd-is_pending : (t : Stream) (id : ℕ) → r'.waiting t id ≡ r.waiting t id
  fake_xadd-is_pending t id = ap (λ (q : Fake). q.waiting t id) (taken r.up h)

module _ (s : Stream) (id : ℕ) (r : Fake) {r' : Fake} (h : fake_xack s id r ≡ some r') where
  pub fake_xack-is_pending : r'.waiting s id ≡ false
  fake_xack-is_pending =
      ap (λ (q : Fake). q.waiting s id) (taken r.acks h) ∙ ground (arith, stream_eq_refl s)

  pub fake_xack-score : (k : ℕ) → r'.scores k ≡ r.scores k
  fake_xack-score k = ap (λ (q : Fake). q.scores k) (taken r.acks h)

pub fake_zadd-score :
    (m x : ℕ) (r : Fake) {r' : Fake}
    → fake_zadd m x r ≡ some r'
    → (k : ℕ) → r'.scores k ≡ (if m == k then some x else r.scores k)
fake_zadd-score m x r h k = ap (λ (q : Fake). q.scores k) (taken r.up h)

pub fake_zrem-score :
    (m : ℕ) (r : Fake) {b : Bool} {r' : Fake}
    → fake_zrem m r ≡ some (b, r')
    → (k : ℕ) → r'.scores k ≡ (if m == k then none else r.scores k)
fake_zrem-score m r {b} {r'} h k =
    ap (λ (q : Bool × Fake). q.1.scores k) (taken r.up {y = (b, r')} h)

pub fake_zrem-entries :
    (m : ℕ) (r : Fake) {b : Bool} {r' : Fake}
    → fake_zrem m r ≡ some (b, r')
    → (s : Stream) → r'.log s ≡ r.log s
fake_zrem-entries m r {b} {r'} h s =
    ap (λ (q : Bool × Fake). q.1.log s) (taken r.up {y = (b, r')} h)

abbrev pub fake_redis : Redis
fake_redis = record {
  Server = Fake;
  entries = λ s r. r.log s;
  is_pending = λ s id r. r.waiting s id;
  score = λ k r. r.scores k;
  xadd = fake_xadd;
  xack = fake_xack;
  zadd = fake_zadd;
  zrem = fake_zrem;
  zrangebyscore = fake_zrange;
  xadd-entries = fake_xadd-entries;
  xadd-score = fake_xadd-score;
  xadd-is_pending = fake_xadd-is_pending;
  xack-is_pending = fake_xack-is_pending;
  xack-score = fake_xack-score;
  zadd-score = fake_zadd-score;
  zrem-score = fake_zrem-score;
  zrem-entries = fake_zrem-entries;
}

-- The middle of the range.
pub middle_bounds :
    (k low high : ℕ) → low ≤ high → (low ≤ (low + high) / 2) × ((low + high) / 2 ≤ high)
middle_bounds k low high h = omega arith

-- Draws that fail nothing: the first random number is the largest.
abbrev pub platform : Platform
platform = record {
  tables = list_tables;
  redis = fake_redis;
  clock = λ k. 1000000 * k;
  uuid4 = λ k. 1000 + k;
  uniform = λ k low high. (low + high) / 2;
  first_random = λ seed. 9007199254740991;
  redis_message = "connection refused";
  uniform_bounds = middle_bounds;
}
