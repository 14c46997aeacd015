-- ===== src/Base/Outcome.antt =====
-- The result of C code: a value, or a fault where the code has no defined behaviour (an access
-- outside an array, a division that traps).
use mathlib.Core.Path.{◌≡◌, refl}
use mathlib.Core.Option.{Option, none, some}
use mathlib.Core.Logic.{◌⊎◌, inl, inr}
use mathlib.Core.Bool.{Bool, true, false}

pub data Run {ℓ} (A : Type ℓ) : Type ℓ where
  done : A → Run A
  fault : Run A

infixl 5 ◌>>=◌ ◌>>◌
abbrev pub ◌>>=◌ {ℓ κ} : {A : Type ℓ} {B : Type κ} → Run A → (A → Run B) → Run B
done a >>= f = f a
fault >>= f = fault

abbrev pub ◌>>◌ {ℓ} : {B : Type ℓ} → Run (Unit {0}) → Run B → Run B
m >> k = m >>= λ _. k

-- An array access.
abbrev pub checked {ℓ} : {A : Type ℓ} → Option A → Run A
checked none = fault
checked (some a) = done a

-- Goes on only if the code has defined behaviour.
abbrev pub require : Bool → Run (Unit {0})
require true = done tt
require false = fault

-- The run ends normally, with a result that satisfies `P`.
abbrev pub Returns {ℓ} : {A : Type ℓ} → Run A → (A → Type 0) → Type 0
Returns (done a) P = P a
Returns fault _ = ⊥

pub Returns-done {ℓ} :
    {A : Type ℓ} (r : Run A) {P : A → Type 0} → Returns r P → (a : A) × (r ≡ done a) × P a
Returns-done (done a) h = (a, refl, h)
Returns-done fault h = absurd h

pub Returns-mono {ℓ} :
    {A : Type ℓ} (r : Run A) {P Q : A → Type 0} → ((a : A) → P a → Q a) → Returns r P → Returns r Q
Returns-mono (done a) f h = f a h
Returns-mono fault f h = h

pub Returns-bind {ℓ κ} :
    {A : Type ℓ} {B : Type κ} (r : Run A) (f : A → Run B) {P : A → Type 0} (Q : B → Type 0)
    → Returns r P
    → ((a : A) → P a → Returns (f a) Q)
    → Returns (r >>= f) Q
Returns-bind (done a) f Q h k = k a h
Returns-bind fault f Q h k = absurd h

-- If the run ends normally its result satisfies `P`.
abbrev pub Ensures {ℓ} : {A : Type ℓ} → Run A → (A → Type 0) → Type 0
Ensures (done a) P = P a
Ensures fault _ = Unit

pub Run-cases {ℓ} : {A : Type ℓ} (r : Run A) → (r ≡ fault) ⊎ ((a : A) × (r ≡ done a))
Run-cases (done a) = inr (a, refl)
Run-cases fault = inl refl
