-- ===== src/Base/Errors.antt =====
-- A Go call that returns a value and an error.
use mathlib.Core.Logic.{◌⊎◌, inl, inr}
use mathlib.Core.Path.{◌≡◌, refl}

pub data Result {ℓ} (E A : Type ℓ) : Type ℓ where
  err : E → Result E A
  ok : A → Result E A

-- `if err != nil { return err }`
infixl 5 ◌>>=◌
abbrev pub ◌>>=◌ {ℓ} : {E A B : Type ℓ} → Result E A → (A → Result E B) → Result E B
err failure >>= rest = err failure
ok value >>= rest = rest value

pub bind-eq-ok {ℓ} :
    {E A B : Type ℓ} {value : B} (call : Result E A) (rest : A → Result E B)
    → (call >>= rest) ≡ ok value
    → (x : A) × (call ≡ ok x) × (rest x ≡ ok value)
bind-eq-ok (ok x) rest h = (x, refl, h)
bind-eq-ok (err why) rest h = cc

pub Result-cases {ℓ} :
    {E A : Type ℓ} (r : Result E A) → ((e : E) × (r ≡ err e)) ⊎ ((a : A) × (r ≡ ok a))
Result-cases (err e) = inl (e, refl)
Result-cases (ok a) = inr (a, refl)
