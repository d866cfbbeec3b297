-- ===== src/Prelude/Options.antt =====
-- Sequencing of steps that may stop.
use mathlib.Core.Path.{◌≡◌, refl}
use mathlib.Core.Logic.{◌⊎◌, inl, inr}
use mathlib.Core.Bool.{Bool, true, false}
use fos_simple_os.Prelude.Tests.{if◌then◌else◌}
use mathlib.Core.Option.{Option, none, some}

infixl 5 ◌>>=◌
abbrev pub ◌>>=◌ {ℓ κ} : {A : Type ℓ} {B : Type κ} → Option A → (A → Option B) → Option B
none >>= f = none
some a >>= f = f a

pub option_cases {ℓ} : {A : Type ℓ} (o : Option A) → (o ≡ none) ⊎ ((a : A) × (o ≡ some a))
option_cases none = inl refl
option_cases (some a) = inr (a, refl)

-- A property of the result of a step, if it returns.
abbrev pub Each {ℓ κ} : {A : Type ℓ} → (A → Type κ) → Option A → Type κ
Each P none = Unit
Each P (some a) = P a

pub Each-bind {ℓ κ μ ν} :
    {A : Type ℓ} {B : Type κ} (P : A → Type μ) (Q : B → Type ν) (o : Option A) (k : A → Option B)
    → Each P o
    → ((a : A) → P a → Each Q (k a))
    → Each Q (o >>= k)
Each-bind P Q none k h g = tt
Each-bind P Q (some a) k h g = g a h

pub Each-if {ℓ κ} :
    {A : Type ℓ} (P : A → Type κ) (b : Bool) (x y : Option A)
    → (b ≡ true → Each P x)
    → (b ≡ false → Each P y)
    → Each P (if b then x else y)
Each-if P true x y h k = h refl
Each-if P false x y h k = k refl
