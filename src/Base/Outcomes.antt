-- ===== src/Base/Outcomes.antt =====
-- Go's `(value, error)` pairs: a value or an error, with bind, and its inversion.
use mathlib.Core.Path.{◌≡◌, refl}
use mathlib.Core.Logic.{◌⊎◌, inl, inr}
use mathlib.Core.Bool.{Bool, true, false}
use native.Mathlib.Omega.{arith}

pub data Result {ℓ κ} (E : Type ℓ) (A : Type κ) : Type (ℓ ⊔ κ) where
  ok : A → Result E A
  err : E → Result E A

infixl 5 ◌>>=◌ ◌>>◌
abbrev pub ◌>>=◌ {ℓ κ μ} :
    {E : Type ℓ} {A : Type κ} {B : Type μ} → Result E A → (A → Result E B) → Result E B
ok a >>= f = f a
err e >>= f = err e

abbrev pub ◌>>◌ {ℓ μ} : {E : Type ℓ} {B : Type μ} → Result E (Unit {0}) → Result E B → Result E B
m >> k = m >>= λ _. k

-- `if bad { return err }`
abbrev pub fail_if {ℓ} : {E : Type ℓ} → Bool → E → Result E (Unit {0})
fail_if true e = err e
fail_if false e = ok tt

pub Result-cases {ℓ κ} :
    {E : Type ℓ} {A : Type κ} (r : Result E A) → ((a : A) × (r ≡ ok a)) ⊎ ((e : E) × (r ≡ err e))
Result-cases (ok a) = inl (a, refl)
Result-cases (err e) = inr (e, refl)

-- Inversions of a chain that gave a value: each test was false, each step gave a value.
pub guard :
    {E A : Type 0} (b : Bool) (e : E) (k : Unit {0} → Result E A) (x : A)
    → (fail_if b e >>= k) ≡ ok x
    → (b ≡ false) × (k tt ≡ ok x)
guard true e k x h = ground arith
guard false e k x h = (refl, h)

pub not_guarded : {E : Type 0} (b : Bool) (e : E) → fail_if b e ≡ ok tt → b ≡ false
not_guarded b e h = ground arith

pub bind-ok :
    {E A B : Type 0} (m : Result E A) (k : A → Result E B) (x : B)
    → (m >>= k) ≡ ok x
    → (a : A) × (m ≡ ok a) × (k a ≡ ok x)
bind-ok (ok a) k x h = (a, refl, h)
bind-ok (err e) k x h = ground arith
