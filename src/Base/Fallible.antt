-- ===== src/Base/Fallible.antt =====
-- Fallible, stateful code: a call returns its outcome beside the state it leaves, also when it
-- fails, since what was written before the failure stays written.

use mathlib.Core.Path.{◌≡◌, refl, ap}
use native.Mathlib.Omega.{arith}

-- `panic` is a failed assertion or an index out of range.
pub data Outcome {ℓ κ} (E : Type ℓ) (A : Type κ) : Type (ℓ ⊔ κ) where
  ok : A → Outcome E A
  err : E → Outcome E A
  panic : Outcome E A

-- Code over a state `S` that fails with an `E`: `&mut self`, and `Result<A, E>`.
abbrev pub M : Type 0 → Type 0 → Type 0 → Type 0
M S E A = S → Outcome E A × S

abbrev pub pure : {S E A : Type 0} → A → M S E A
pure a s = (ok a, s)

abbrev pub fail : {S E A : Type 0} → E → M S E A
fail e s = (err e, s)

abbrev pub get : {S E : Type 0} → M S E S
get s = (ok s, s)

abbrev pub put : {S E : Type 0} → S → M S E (Unit {0})
put s' s = (ok tt, s')

abbrev pub modify : {S E : Type 0} → (S → S) → M S E (Unit {0})
modify f s = (ok tt, f s)

-- What `?` does with the outcome of the first step.
abbrev pub bind : {S E A B : Type 0} → Outcome E A × S → (A → M S E B) → Outcome E B × S
bind (ok a, s) f = f a s
bind (err e, s) f = (err e, s)
bind (panic, s) f = (panic, s)

infixl 5 ◌>>=◌ ◌>>◌
abbrev pub ◌>>=◌ : {S E A B : Type 0} → M S E A → (A → M S E B) → M S E B
◌>>=◌ m f s = bind (m s) f

abbrev pub ◌>>◌ : {S E B : Type 0} → M S E (Unit {0}) → M S E B → M S E B
◌>>◌ m k s = bind (m s) (λ _. k)

module _ {S E A B : Type 0} where
  -- A property of states that the first step keeps, and then the rest from where it succeeds.
  pub bind-keeps :
      (P : S → Type 0) (r : Outcome E A × S) (f : A → M S E B)
      → P r.1
      → ((a : A) → r.0 ≡ ok a → P (f a r.1).1)
      → P (bind r f).1
  bind-keeps P (ok a, s) f p k = k a refl
  bind-keeps P (err e, s) f p k = p
  bind-keeps P (panic, s) f p k = p

  -- Inversion of a bind that succeeds.
  pub bind-eq-ok :
      (r : Outcome E A × S) (f : A → M S E B) {b : B} {s' : S}
      → bind r f ≡ (ok b, s')
      → (a : A) × (r ≡ (ok a, r.1)) × (f a r.1 ≡ (ok b, s'))
  bind-eq-ok (ok a, s) f h = (a, refl, h)
  bind-eq-ok (err e, s) f h = ground arith
  bind-eq-ok (panic, s) f h = ground arith

  -- A bind whose first step is known.
  pub bind_of_ok :
      (r : Outcome E A × S) (f : A → M S E B) {a : A} {s : S} → r ≡ (ok a, s) → bind r f ≡ f a s
  bind_of_ok r f h = ap (λ q. bind q f) h

module _ {S E A : Type 0} where
  pub outcome_eq : (r : Outcome E A × S) {a : A} → r.0 ≡ ok a → r ≡ (ok a, r.1)
  outcome_eq (o, s) h = ap (λ q. (q, s)) h
