-- ===== src/Base/Panics.antt =====
-- What holds of the result of a computation that may panic, if it returns.
use mathlib.Core.Path.{◌≡◌, subst}
use mathlib.Core.Bool.{Bool, true, false}
use mathlib.Core.Option.{Option, none, some}
use bare_metal_blasterball.Base.Tests.{◌>>=◌, if◌then◌else◌}

abbrev pub Returns {ℓ κ} : {A : Type ℓ} → (A → Type κ) → Option A → Type κ
Returns P none = Unit
Returns P (some a) = P a

pub Returns-bind {ℓ ℓ' κ κ'} :
    {A : Type ℓ} {B : Type ℓ'} (Q : A → Type κ') (P : B → Type κ) (m : Option A) (k : A → Option B)
    → Returns Q m
    → ((a : A) → Q a → Returns P (k a))
    → Returns P (m >>= k)
Returns-bind Q P none k h f = tt
Returns-bind Q P (some a) k h f = f a h

-- Where nothing is needed of the first step.
pub Returns-then {ℓ ℓ' κ} :
    {A : Type ℓ} {B : Type ℓ'} (P : B → Type κ) (m : Option A) (k : A → Option B)
    → ((a : A) → Returns P (k a))
    → Returns P (m >>= k)
Returns-then P none k f = tt
Returns-then P (some a) k f = f a

pub Returns-if {ℓ κ} :
    {A : Type ℓ} (P : A → Type κ) (b : Bool) (x y : Option A)
    → Returns P x
    → Returns P y
    → Returns P (if b then x else y)
Returns-if P true x y h k = h
Returns-if P false x y h k = k

pub Returns-result {ℓ κ} :
    {A : Type ℓ} (P : A → Type κ) (o : Option A) (a : A) → Returns P o → o ≡ some a → P a
Returns-result P o a h e = subst (Returns P) e h

pub Returns-if_true {ℓ κ} :
    {A : Type ℓ} (P : A → Type κ) (b : Bool) (x y : Option A)
    → b ≡ true
    → Returns P x
    → Returns P (if b then x else y)
Returns-if_true P true x y e h = h
Returns-if_true P false x y e h = absurd cc
