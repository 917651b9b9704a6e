-- ===== src/Common/Results.antt =====
-- A Go pair `(value, error)` in which one of the two is meant, and its inversion.
use mathlib.Core.Path.{◌≡◌, refl}
use mathlib.Core.Logic.{◌⊎◌, inl, inr}

pub data Result {ℓ} (E : Type 0) (A : Type ℓ) : Type ℓ where
  ok : A → Result E A
  err : E → Result E A

infixl 5 ◌>>=◌ ◌>>◌
abbrev pub ◌>>=◌ {κ ℓ} :
    {B : Type κ} {E : Type 0} {A : Type ℓ} → Result E A → (A → Result E B) → Result E B
err failure >>= next = err failure
ok value >>= next = next value

-- One step after another whose value says nothing.
abbrev pub ◌>>◌ {κ ℓ} :
    {B : Type κ} {E : Type 0} {A : Type ℓ} → Result E A → Result E B → Result E B
step >> then_do = step >>= λ _. then_do

-- A sequence that succeeds has succeeded in each of its two steps.
pub >>=-eq-ok {κ ℓ} :
    {B : Type κ} {E : Type 0} {A : Type ℓ} (r : Result E A) (next : A → Result E B) {y : B}
    → (r >>= next) ≡ ok y
    → (x : A) × (r ≡ ok x) × (next x ≡ ok y)
>>=-eq-ok (err failure) next whole = cc
>>=-eq-ok (ok x) next whole = (x, refl, whole)

pub Result-cases {ℓ} :
    {E : Type 0} {A : Type ℓ} (r : Result E A) → ((a : A) × (r ≡ ok a)) ⊎ ((e : E) × (r ≡ err e))
Result-cases (ok a) = inl (a, refl)
Result-cases (err e) = inr (e, refl)
