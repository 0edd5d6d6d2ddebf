-- ===== src/Service/Hoare.antt =====
-- Rules for what a step keeps, however it ends.
use replay_forge.Base.{Bool, true, false, if◌then◌else◌, ◌≡◌, refl}
use replay_forge.Service.World.{M, Result, ok, raise, Error, ◌>>=◌, catch}

-- The step takes every state that satisfies `P` to one that satisfies `Q`, whether it returns or raises.
abbrev pub Takes : {W A : Type 0} → (W → Type 0) → M W A → (W → Type 0) → Type 0
Takes {W} P m Q = (w : W) → P w → Q (m w).1

abbrev pub Keeps : {W A : Type 0} → (W → Type 0) → M W A → Type 0
Keeps P m = Takes P m P

module _ {W : Type 0} {P Q R : W → Type 0} where
  pub takes-bind :
      {A B : Type 0} (m : M W A) (f : A → M W B)
      → ((w : W) → Q w → R w)
      → Takes P m Q
      → ((a : A) → Takes Q (f a) R)
      → Takes P (m >>= f) R
  takes-bind {A = A} {B = B} m f weaken hm hf w h = go (m w).0 (m w).1 (hm w h)
    where
      go :
          (r : Result A) (w' : W)
          → Q w'
          → R (elim r as (λ _. Result B × W) [ ok a ↦ f a w' | raise e ↦ (raise e, w') ]).1
      go (ok a) w' q = hf a w' q
      go (raise e) w' q = weaken w' q

  pub takes-catch :
      {A : Type 0} (m : M W A) (h : Error → M W A)
      → ((w : W) → Q w → R w)
      → Takes P m Q
      → ((e : Error) → Takes Q (h e) R)
      → Takes P (catch m h) R
  takes-catch {A = A} m h weaken hm hh w hp = go (m w).0 (m w).1 (hm w hp)
    where
      go :
          (r : Result A) (w' : W)
          → Q w'
          → R (elim r as (λ _. Result A × W) [ ok a ↦ (ok a, w') | raise e ↦ h e w' ]).1
      go (ok a) w' q = weaken w' q
      go (raise e) w' q = hh e w' q

-- The same as a type of its own, so that the rule for a sequence finds its parts in the goal.
pub record Preserves {W A : Type 0} (P : W → Type 0) (m : M W A) : Type 0 where
  pub run : (w : W) → P w → P (m w).1

pub Preserves-bind :
    {W A B : Type 0} {P : W → Type 0} {m : M W A} {f : A → M W B}
    → Preserves P m
    → ((a : A) → Preserves P (f a))
    → Preserves P (m >>= f)
Preserves-bind {P} {m} {f} hm hf = record {
  run = takes-bind {Q = P} m f (λ _ h. h) hm.run (λ a. (hf a).run);
}

pub Preserves-if :
    {W A : Type 0} {P : W → Type 0} {m n : M W A} (b : Bool)
    → Preserves P m
    → Preserves P n
    → Preserves P (if b then m else n)
Preserves-if true hm hn = hm
Preserves-if false hm hn = hn

-- Where the step returns, the state after it satisfies `Q`.
abbrev pub Ensures : {W A : Type 0} → (W → Type 0) → M W A → (W → Type 0) → Type 0
Ensures {W} {A} P m Q = (w : W) → P w → (a : A) → (m w).0 ≡ ok a → Q (m w).1

module _ {W : Type 0} {P : W → Type 0} (Q R : W → Type 0) where
  pub ensures-bind :
      {A B : Type 0} (m : M W A) (f : A → M W B)
      → Ensures P m Q
      → ((a : A) → Ensures Q (f a) R)
      → Ensures P (m >>= f) R
  ensures-bind {A = A} {B = B} m f hm hf w h b = go (m w).0 (m w).1 (hm w h)
    where
      go :
          (r : Result A) (w' : W)
          → ((a : A) → r ≡ ok a → Q w')
          → (elim r as (λ _. Result B × W) [ ok a ↦ f a w' | raise e ↦ (raise e, w') ]).0 ≡ ok b
          → R (elim r as (λ _. Result B × W) [ ok a ↦ f a w' | raise e ↦ (raise e, w') ]).1
      go (ok a) w' q e = hf a w' (q a refl) b e
      go (raise x) w' q e = absurd (cc e)

  -- `Q` is what holds where the block raises.
  pub ensures-catch :
      {A : Type 0} (m : M W A) (h : Error → M W A)
      → Ensures P m R
      → Takes P m Q
      → ((e : Error) → Ensures Q (h e) R)
      → Ensures P (catch m h) R
  ensures-catch {A = A} m h hm ht hh w hp b = go (m w).0 (m w).1 (hm w hp) (ht w hp)
    where
      go :
          (r : Result A) (w' : W)
          → ((a : A) → r ≡ ok a → R w')
          → Q w'
          → (elim r as (λ _. Result A × W) [ ok a ↦ (ok a, w') | raise e ↦ h e w' ]).0 ≡ ok b
          → R (elim r as (λ _. Result A × W) [ ok a ↦ (ok a, w') | raise e ↦ h e w' ]).1
      go (ok a) w' q _ e = q a refl
      go (raise x) w' _ q e = hh x w' q b e
