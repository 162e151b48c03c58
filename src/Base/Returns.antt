-- ===== src/Base/Returns.antt =====
-- How a C function ends: its status, and the outcome of one that may call `panic`.
use mathlib.Core.Path.{◌≡◌, refl}

-- What a function reports by its `int`: 0, or a negative number.
pub data Status : Type 0 where
  ok failed : Status

-- `panics` is a call of `_panic`, which never returns; `no_fuel` is a recursion that the model cut.
pub data Outcome {ℓ} (A : Type ℓ) : Type ℓ where
  returns : A → Outcome A
  panics : Outcome A
  no_fuel : Outcome A

infixl 5 ◌>>=◌
abbrev pub ◌>>=◌ {ℓ κ} : {A : Type ℓ} {B : Type κ} → Outcome A → (A → Outcome B) → Outcome B
returns a >>= f = f a
panics >>= f = panics
no_fuel >>= f = no_fuel

pub >>=-eq-returns {ℓ κ} :
    {A : Type ℓ} {B : Type κ} (m : Outcome A) (f : A → Outcome B) {b : B}
    → (m >>= f) ≡ returns b
    → (a : A) × (m ≡ returns a) × (f a ≡ returns b)
>>=-eq-returns (returns a) f h = (a, refl, h)
>>=-eq-returns panics f h = cc
>>=-eq-returns no_fuel f h = cc
