-- ===== src/Common/Results.antt =====
-- Go's `(value, error)` pairs: a result is a value, or an error of the package's own kinds.
use mathlib.Core.Path.{◌≡◌, refl}
use mathlib.Core.Logic.{◌⊎◌, inl, inr}

pub data Result {ℓ} (E : Type 0) (A : Type ℓ) : Type ℓ where
  ok : A → Result E A
  err : E → Result E A

infixl 5 ◌>>=◌
abbrev pub ◌>>=◌ {ℓ κ} :
    {E : Type 0} {A : Type ℓ} {B : Type κ} → Result E A → (A → Result E B) → Result E B
ok a >>= f = f a
err e >>= f = err e

-- A chain fails with the error of its first part, or with that of the rest.
pub >>=-eq-err {ℓ κ} :
    {E : Type 0} {A : Type ℓ} {B : Type κ} (m : Result E A) (f : A → Result E B) {e : E}
    → (m >>= f) ≡ err e
    → (m ≡ err e) ⊎ ((a : A) × (m ≡ ok a) × (f a ≡ err e))
>>=-eq-err (ok a) f h = inr (a, refl, h)
>>=-eq-err (err d) f h = inl (cc h)

pub >>=-eq-ok {ℓ κ} :
    {E : Type 0} {A : Type ℓ} {B : Type κ} {b : B} (m : Result E A) (f : A → Result E B)
    → (m >>= f) ≡ ok b
    → (a : A) × (f a ≡ ok b) × (m ≡ ok a)
>>=-eq-ok (err d) f h = absurd (cc h)
>>=-eq-ok (ok a) f h = (a, h, refl)

pub Result-cases {ℓ} :
    {E : Type 0} {A : Type ℓ} (r : Result E A) → ((a : A) × (r ≡ ok a)) ⊎ ((e : E) × (r ≡ err e))
Result-cases (ok a) = inl (a, refl)
Result-cases (err e) = inr (e, refl)

-- A statement about the value of a result.
abbrev pub Yields {ℓ} : {E : Type 0} {A : Type ℓ} → (A → Type 0) → Result E A → Type 0
Yields P (ok a) = P a
Yields P (err e) = Unit

pub Yields-then {ℓ κ} :
    {E : Type 0} {A : Type ℓ} {B : Type κ} (Q : A → Type 0) (P : B → Type 0) (m : Result E A)
    (f : A → Result E B)
    → Yields Q m
    → ((a : A) → Q a → Yields P (f a))
    → Yields P (m >>= f)
Yields-then Q P (ok a) f q h = h a q
Yields-then Q P (err e) f q h = tt

pub Yields-bind {ℓ κ} :
    {E : Type 0} {A : Type ℓ} {B : Type κ} (P : B → Type 0) (m : Result E A) (f : A → Result E B)
    → ((a : A) → Yields P (f a))
    → Yields P (m >>= f)
Yields-bind P (ok a) f h = h a
Yields-bind P (err e) f h = tt
