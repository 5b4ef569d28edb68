-- ===== src/Common/Aborts.antt =====
-- Code that may abort: a failed `assert` is `none`, and what follows it does not run.
use mathlib.Core.Path.{◌≡◌, refl}
use mathlib.Core.Bool.{Bool, true, false}
use disasteros.Common.Tests.{if◌then◌else◌}
use mathlib.Core.Option.{Option, none, some}

infixl 5 ◌>>=◌
abbrev pub ◌>>=◌ {ℓ κ} : {A : Type ℓ} {B : Type κ} → Option A → (A → Option B) → Option B
none >>= f = none
some a >>= f = f a

-- Inversion of a chain that has a result.
pub >>=-eq-some {ℓ κ} :
    {A : Type ℓ} {B : Type κ} (m : Option A) (f : A → Option B) {b : B}
    → (m >>= f) ≡ some b
    → (a : A) × (m ≡ some a) × (f a ≡ some b)
>>=-eq-some none f h = cc
>>=-eq-some (some a) f h = (a, refl, h)

pub some_inj {ℓ} : {A : Type ℓ} {x y : A} → some x ≡ some y → x ≡ y
some_inj h = cc

-- Inversion of a guard that aborts.
pub guard-eq-some {ℓ} :
    {A : Type ℓ} (b : Bool) {o : Option A} {y : A}
    → (if b then none else o) ≡ some y
    → (b ≡ false) × (o ≡ some y)
guard-eq-some true h = cc
guard-eq-some false h = (refl, h)
