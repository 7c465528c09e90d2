-- ===== src/Prelude/Fallible.antt =====
-- `Result<A, E>`, with the error first.
use mathlib.Core.Path.{◌≡◌, refl}
use mathlib.Core.Logic.{◌⊎◌, inl, inr}
use mathlib.Core.Option.{Option, none, some}

pub data Result {ℓ κ} (E : Type κ) (A : Type ℓ) : Type (ℓ ⊔ κ) where
  ok : A → Result E A
  err : E → Result E A

infixl 5 ◌>>=◌
abbrev pub ◌>>=◌ {ℓ κ ι} :
    {E : Type κ} {A : Type ℓ} {B : Type ι} → Result E A → (A → Result E B) → Result E B
ok a >>= f = f a
err e >>= f = err e

-- `Option::ok_or_else`.
abbrev pub ok_or {ℓ κ} : {E : Type κ} {A : Type ℓ} → Option A → E → Result E A
ok_or none e = err e
ok_or (some a) e = ok a

pub Result-cases {ℓ κ} :
    {E : Type κ} {A : Type ℓ} (r : Result E A) → ((a : A) × (r ≡ ok a)) ⊎ ((e : E) × (r ≡ err e))
Result-cases (ok a) = inl (a, refl)
Result-cases (err e) = inr (e, refl)
