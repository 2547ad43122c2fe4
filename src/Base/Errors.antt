-- ===== src/Base/Errors.antt =====
-- A Python function that may raise: its value, or the exception that it raised.
use mathlib.Core.Path.{◌≡◌, refl}
use mathlib.Core.Bool.{Bool, true, false}

pub data Result {ℓ} (E : Type 0) (A : Type ℓ) : Type ℓ where
  ok : A → Result E A
  err : E → Result E A

abbrev pub is_ok {ℓ} : {E : Type 0} {A : Type ℓ} → Result E A → Bool
is_ok (err raised) = false
is_ok (ok value) = true

infixl 5 ◌>>=◌ ◌>>◌
abbrev pub ◌>>=◌ {ℓ κ} :
    {E : Type 0} {A : Type ℓ} {B : Type κ} → Result E A → (A → Result E B) → Result E B
err raised >>= next = err raised
ok value >>= next = next value

abbrev pub ◌>>◌ {ℓ} : {E : Type 0} {B : Type ℓ} → Result E (Unit {0}) → Result E B → Result E B
err raised >> after = err raised
ok tt >> after = after

-- what a chain that succeeds went through
pub >>=-eq-ok {ℓ κ} :
    {E : Type 0} {A : Type ℓ} {B : Type κ} (first : Result E A) (next : A → Result E B) {b : B}
    → (first >>= next) ≡ ok b
    → (value : A) × (first ≡ ok value) × (next value ≡ ok b)
>>=-eq-ok (ok value) next h = (value, refl, h)
>>=-eq-ok (err raised) next h = cc

pub >>-eq-ok {ℓ} :
    {E : Type 0} {B : Type ℓ} (first : Result E (Unit {0})) (after : Result E B) {b : B}
    → (first >> after) ≡ ok b
    → (first ≡ ok tt) × (after ≡ ok b)
>>-eq-ok (ok tt) after h = (refl, h)
>>-eq-ok (err raised) after h = cc
