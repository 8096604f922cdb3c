-- ===== src/Prelude/Options.antt =====
-- Chains of steps that may fail, as `do` blocks over `Option`.
use mathlib.Core.Path.{◌≡◌, refl}
use mathlib.Core.Bool.{Bool, true, false}
use mathlib.Core.Option.{Option, none, some}
use mathlib.Core.List.{List, [], ◌∷◌}

infixl 5 ◌>>=◌ ◌>>◌
abbrev pub ◌>>=◌ {ℓ κ} : {A : Type ℓ} {B : Type κ} → Option A → (A → Option B) → Option B
none >>= f = none
some a >>= f = f a

abbrev pub ◌>>◌ {ℓ} : {B : Type ℓ} → Option (Unit {0}) → Option B → Option B
m >> k = m >>= λ _. k

-- Fails unless the test holds.
abbrev pub require : Bool → Option (Unit {0})
require true = some tt
require false = none

abbrev pub or_default {ℓ} : {A : Type ℓ} → Option A → A → A
or_default none d = d
or_default (some a) d = a

-- `[f(x) for x in xs]` where `f` may fail.
unfoldable pub traverse {ℓ κ} :
    {A : Type ℓ} {B : Type κ} → (A → Option B) → List A → Option (List B)
traverse f [] = some []
traverse f (x ∷ xs) = f x >>= λ y. traverse f xs >>= λ ys. some (y ∷ ys)

pub >>=-eq-some {ℓ κ} :
    {A : Type ℓ} {B : Type κ} (m : Option A) (f : A → Option B) {b : B}
    → (m >>= f) ≡ some b
    → (a : A) × (m ≡ some a) × (f a ≡ some b)
>>=-eq-some none f h = cc
>>=-eq-some (some a) f h = (a, refl, h)

pub >>-eq-some {ℓ} :
    {B : Type ℓ} (t : Bool) (k : Option B) {b : B}
    → (require t >> k) ≡ some b
    → (t ≡ true) × (k ≡ some b)
>>-eq-some true k h = (refl, h)
>>-eq-some false k h = cc
