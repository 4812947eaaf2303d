-- ===== src/Common/Outcome.antt =====
-- The outcome of a Python call: it returns a value or raises an exception.
use mathlib.Core.Path.{◌≡◌, refl}
use mathlib.Core.Bool.{Bool, true, false}

pub data Outcome {ℓ κ} (E : Type ℓ) (A : Type κ) : Type (ℓ ⊔ κ) where
  ok : A → Outcome E A
  raise : E → Outcome E A

-- Statements in sequence: a raise ends them.
infixl 5 ◌>>=◌ ◌>>◌
abbrev pub ◌>>=◌ {ℓ κ μ} :
    {E : Type ℓ} {A : Type κ} {B : Type μ} → Outcome E A → (A → Outcome E B) → Outcome E B
ok a >>= f = f a
raise e >>= f = raise e

abbrev pub ◌>>◌ {ℓ κ} : {E : Type ℓ} {B : Type κ} → Outcome E (Unit {0}) → Outcome E B → Outcome E B
m >> k = m >>= λ _. k

-- `if c: raise e`
abbrev pub raise_if {ℓ} : {E : Type ℓ} → Bool → E → Outcome E (Unit {0})
raise_if true e = raise e
raise_if false e = ok tt

abbrev pub is_ok {ℓ κ} : {E : Type ℓ} {A : Type κ} → Outcome E A → Bool
is_ok (ok _) = true
is_ok (raise _) = false

pub is_ok_some {ℓ κ} :
    {E : Type ℓ} {A : Type κ} (r : Outcome E A) → is_ok r ≡ true → (a : A) × (r ≡ ok a)
is_ok_some (ok a) h = (a, refl)
is_ok_some (raise e) h = cc

-- A sequence that returned: both of its parts did.
pub both_returned {ℓ κ μ} :
    {E : Type ℓ} {A : Type κ} {B : Type μ} {y : B} (next : A → Outcome E B) (r : Outcome E A)
    → (r >>= next) ≡ ok y
    → (x : A) × (next x ≡ ok y) × (r ≡ ok x)
both_returned next (raise x) came = cc
both_returned next (ok x) came = (x, came, refl)
