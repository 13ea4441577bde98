-- ===== src/Common/Results.antt =====
-- What a Go call does: it returns a value, returns an error, or panics.
use mathlib.Core.Path.{◌≡◌, refl}

pub data Outcome {ℓ κ} (E : Type κ) (A : Type ℓ) : Type (ℓ ⊔ κ) where
  ok : A → Outcome E A
  err : E → Outcome E A
  panic : Outcome E A

infixl 5 ◌>>=◌
abbrev pub ◌>>=◌ {ℓ ℓ' κ} :
    {E : Type κ} {A : Type ℓ} {B : Type ℓ'} → Outcome E A → (A → Outcome E B) → Outcome E B
panic >>= next = panic
err e >>= next = err e
ok value >>= next = next value

-- A chain that returned a value returned one from each of its calls.
pub >>=-eq-ok {ℓ ℓ' κ} :
    {E : Type κ} {A : Type ℓ} {B : Type ℓ'} (call : Outcome E A) (next : A → Outcome E B)
    {value : B}
    → (call >>= next) ≡ ok value
    → (mid : A) × (call ≡ ok mid) × (next mid ≡ ok value)
>>=-eq-ok panic next eq = cc
>>=-eq-ok (err e) next eq = cc
>>=-eq-ok (ok mid) next eq = (mid, refl, eq)
