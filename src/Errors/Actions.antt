-- ===== src/Errors/Actions.antt =====
-- Code that may raise and that changes a state, as `do` blocks.
use fly_desk.Prelude.{◌≡◌, refl, ap, Option, none, some}
use fly_desk.Errors.{Exception, Outcome, returned, raised}

abbrev pub Action : Type 0 → Type 0 → Type 0
Action S A = S → Outcome A × S

module _ {S A : Type 0} where
  abbrev pub pure : A → Action S A
  pure a s = (returned a, s)

  abbrev pub raise : Exception → Action S A
  raise e s = (raised e, s)

  -- Raises where there is no value.
  abbrev pub or_raise : Exception → Option A → Action S A
  or_raise e none = raise e
  or_raise e (some a) = pure a

module _ {S A B : Type 0} where
  abbrev pub continue : (A → Action S B) → Outcome A × S → Outcome B × S
  continue f (returned a, s) = f a s
  continue f (raised e, s) = (raised e, s)

  infixl 5 ◌>>=◌
  abbrev pub ◌>>=◌ : Action S A → (A → Action S B) → Action S B
  ◌>>=◌ m f s = continue f (m s)

-- A call ends well, or with an exception of the kind `P`.
abbrev pub OnlyRaises {ℓ} : {S A : Type 0} → (Exception → Type ℓ) → Outcome A × S → Type ℓ
OnlyRaises P (returned a, s) = Unit
OnlyRaises P (raised e, s) = P e

pub or_raise-OnlyRaises {ℓ} :
    {S A : Type 0} (P : Exception → Type ℓ) (e : Exception) (o : Option A) (s : S)
    → P e
    → OnlyRaises P (or_raise e o s)
or_raise-OnlyRaises P e none s h = h
or_raise-OnlyRaises P e (some a) s h = tt

pub continue-OnlyRaises {ℓ} :
    {S A B : Type 0} (P : Exception → Type ℓ) (f : A → Action S B) (x : Outcome A × S)
    → OnlyRaises P x
    → ((a : A) (s : S) → OnlyRaises P (f a s))
    → OnlyRaises P (continue f x)
continue-OnlyRaises P f (returned a, s) h k = k a s
continue-OnlyRaises P f (raised e, s) h k = h

-- What a successful chain went through.
pub continue-eq-returned :
    {S A B : Type 0} (f : A → Action S B) (x : Outcome A × S) (b : B) (s' : S)
    → continue f x ≡ (returned b, s')
    → (a : A) × (s : S) × (x ≡ (returned a, s)) × (f a s ≡ (returned b, s'))
continue-eq-returned f (returned a, s) b s' e = (a, s, refl, e)
continue-eq-returned f (raised e', s) b s' e =
    let bad : raised e' ≡ returned b = ap (λ x. x.0) e in cc

pub or_raise-eq-returned :
    {S A : Type 0} (e : Exception) (o : Option A) (s s' : S) (a : A)
    → or_raise e o s ≡ (returned a, s')
    → (o ≡ some a) × (s ≡ s')
or_raise-eq-returned e none s s' a h = let bad : raised e ≡ returned a = ap (λ x. x.0) h in cc
or_raise-eq-returned e (some b) s s' a h =
    let same : returned b ≡ returned a = ap (λ x. x.0) h in (cc, ap (λ x. x.1) h)

-- A chain ends in the state of its first part if the rest only computes.
pub continue-state :
    {S A B : Type 0} (f : A → Action S B) (x : Outcome A × S)
    → ((a : A) (s : S) → (f a s).1 ≡ s)
    → (continue f x).1 ≡ x.1
continue-state f (returned a, s) h = h a s
continue-state f (raised e, s) h = refl

pub or_raise-state : {S A : Type 0} (e : Exception) (o : Option A) (s : S) → (or_raise e o s).1 ≡ s
or_raise-state e none s = refl
or_raise-state e (some a) s = refl
