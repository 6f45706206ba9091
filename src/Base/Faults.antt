-- ===== src/Base/Faults.antt =====
-- The outcome of a piece of C: a value, an access that C leaves undefined, a failed assertion, or an
-- exhausted bound on the rounds of a loop.

use mathlib.Core.Path.{◌≡◌, refl}

pub data Outcome {ℓ} (A : Type ℓ) : Type ℓ where
  ok : A → Outcome A
  fault : Outcome A
  aborted : Outcome A
  out_of_fuel : Outcome A

infixl 5 ◌>>=◌ ◌>>◌
abbrev pub ◌>>=◌ {ℓ κ} : {A : Type ℓ} {B : Type κ} → Outcome A → (A → Outcome B) → Outcome B
ok a >>= f = f a
fault >>= f = fault
aborted >>= f = aborted
out_of_fuel >>= f = out_of_fuel

abbrev pub ◌>>◌ {ℓ} : {B : Type ℓ} → Outcome (Unit {0}) → Outcome B → Outcome B
m >> k = m >>= λ _. k

-- The run ends within its bound: with a fault, a failed assertion, or a value of which `P` holds.
abbrev pub Ends {ℓ} : {A : Type ℓ} → (A → Type 0) → Outcome A → Type 0
Ends P (ok a) = P a
Ends P fault = Unit
Ends P aborted = Unit
Ends P out_of_fuel = ⊥

pub Ends-bind {ℓ} :
    {A : Type ℓ} {B : Type ℓ} (P : A → Type 0) (Q : B → Type 0) (m : Outcome A) (f : A → Outcome B)
    → Ends P m
    → ((a : A) → P a → Ends Q (f a))
    → Ends Q (m >>= f)
Ends-bind P Q (ok a) f h k = k a h
Ends-bind P Q fault f h k = tt
Ends-bind P Q aborted f h k = tt
Ends-bind P Q out_of_fuel f h k = absurd h

-- A value, if there is one, is one of which `P` holds.
abbrev pub Yields {ℓ} : {A : Type ℓ} → (A → Type 0) → Outcome A → Type 0
Yields P (ok a) = P a
Yields P fault = Unit
Yields P aborted = Unit
Yields P out_of_fuel = Unit

pub Yields-bind {ℓ} :
    {A : Type ℓ} {B : Type ℓ} (P : A → Type 0) (Q : B → Type 0) (m : Outcome A) (f : A → Outcome B)
    → Yields P m
    → ((a : A) → P a → Yields Q (f a))
    → Yields Q (m >>= f)
Yields-bind P Q (ok a) f h k = k a h
Yields-bind P Q fault f h k = tt
Yields-bind P Q aborted f h k = tt
Yields-bind P Q out_of_fuel f h k = tt

pub Yields-any {ℓ} : {A : Type ℓ} (m : Outcome A) → Yields (λ a. Unit {0}) m
Yields-any (ok a) = tt
Yields-any fault = tt
Yields-any aborted = tt
Yields-any out_of_fuel = tt

pub Yields-intro {ℓ} :
    {A : Type ℓ} (P : A → Type 0) (m : Outcome A) → ((a : A) → m ≡ ok a → P a) → Yields P m
Yields-intro P (ok a) k = k a refl
Yields-intro P fault k = tt
Yields-intro P aborted k = tt
Yields-intro P out_of_fuel k = tt

-- The results 0 and -1 of a C function.
pub data Ret : Type 0 where
  success failure : Ret

pub Yields-mono {ℓ} :
    {A : Type ℓ} (P Q : A → Type 0) (m : Outcome A)
    → ((a : A) → P a → Q a)
    → Yields P m
    → Yields Q m
Yields-mono P Q (ok a) f h = f a h
Yields-mono P Q fault f h = tt
Yields-mono P Q aborted f h = tt
Yields-mono P Q out_of_fuel f h = tt

-- Continuations that agree.
pub bind-cong {ℓ} :
    {A : Type ℓ} {B : Type ℓ} (m : Outcome A) (f g : A → Outcome B)
    → ((a : A) → f a ≡ g a)
    → (m >>= f) ≡ (m >>= g)
bind-cong (ok a) f g h = h a
bind-cong fault f g h = refl
bind-cong aborted f g h = refl
bind-cong out_of_fuel f g h = refl

pub bind_assoc {ℓ} :
    {A : Type ℓ} {B : Type ℓ} {C : Type ℓ} (m : Outcome A) (f : A → Outcome B) (g : B → Outcome C)
    → ((m >>= f) >>= g) ≡ (m >>= λ a. f a >>= g)
bind_assoc (ok a) f g = refl
bind_assoc fault f g = refl
bind_assoc aborted f g = refl
bind_assoc out_of_fuel f g = refl

pub bind_ok {ℓ} : {A : Type ℓ} (m : Outcome A) → (m >>= λ a. ok a) ≡ m
bind_ok (ok a) = refl
bind_ok fault = refl
bind_ok aborted = refl
bind_ok out_of_fuel = refl

-- The same first step, and then two ways to go on that agree.
pub binds-cong {ℓ} :
    {A : Type ℓ} {B : Type ℓ} {B' : Type ℓ} {C : Type ℓ} (m : Outcome A) (f : A → Outcome B)
    (g : B → Outcome C) (f' : A → Outcome B') (g' : B' → Outcome C)
    → ((a : A) → (f a >>= g) ≡ (f' a >>= g'))
    → ((m >>= f) >>= g) ≡ ((m >>= f') >>= g')
binds-cong (ok a) f g f' g' h = h a
binds-cong fault f g f' g' h = refl
binds-cong aborted f g f' g' h = refl
binds-cong out_of_fuel f g f' g' h = refl
