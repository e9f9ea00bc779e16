-- ===== src/Prelude/Options.antt =====
-- Results that may be missing: one after the other, and what holds of those that are there.
use mathlib.Core.Option.{Option, none, some}

module _ {ℓ κ} {A : Type ℓ} {B : Type κ} where
  -- The second call, on the result of the first.
  abbrev pub bind : Option A → (A → Option B) → Option B
  bind none f = none
  bind (some a) f = f a

-- The result, if there is one, meets the predicate.
abbrev pub IfSome {ℓ κ} : {A : Type ℓ} → (A → Type κ) → Option A → Type κ
IfSome P none = Unit
IfSome P (some a) = P a

pub IfSome-bind {ℓ κ ι μ} :
    {A : Type ℓ} {B : Type κ} {P : A → Type ι} (Q : B → Type μ) (o : Option A) (f : A → Option B)
    → IfSome P o
    → ((a : A) → P a → IfSome Q (f a))
    → IfSome Q (bind o f)
IfSome-bind Q none f h k = tt
IfSome-bind Q (some a) f h k = k a h

pub IfSome-map {ℓ κ ι} :
    {A : Type ℓ} {P : A → Type κ} (Q : A → Type ι) (o : Option A)
    → ((a : A) → P a → Q a)
    → IfSome P o
    → IfSome Q o
IfSome-map Q none f h = tt
IfSome-map Q (some a) f h = f a h
