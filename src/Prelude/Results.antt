-- ===== src/Prelude/Results.antt =====
-- A Go call that returns a value or a non-nil error.
use mathlib.Core.Path.{◌≡◌, refl}
use mathlib.Core.Logic.{◌⊎◌, inl, inr}

pub data Result {ℓ κ} (E : Type κ) (A : Type ℓ) : Type (ℓ ⊔ κ) where
  ok : A → Result E A
  err : E → Result E A

module _ {ℓ κ μ} {E : Type κ} {A : Type ℓ} {B : Type μ} where
  infixl 5 ◌>>=◌
  abbrev pub ◌>>=◌ : Result E A → (A → Result E B) → Result E B
  ok a >>= f = f a
  err e >>= f = err e

-- A returned value has the property; an error says nothing.
abbrev pub Returned {ℓ κ μ} : {E : Type κ} {A : Type ℓ} → (A → Type μ) → Result E A → Type μ
Returned P (ok a) = P a
Returned P (err e) = Unit

pub Result-cases {ℓ κ} :
    {E : Type κ} {A : Type ℓ} (r : Result E A) → ((a : A) × (r ≡ ok a)) ⊎ ((e : E) × (r ≡ err e))
Result-cases (ok a) = inl (a, refl)
Result-cases (err e) = inr (e, refl)
