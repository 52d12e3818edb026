-- ===== src/Prelude/Result.antt =====
-- Fallible code returns a `Result`; `do` blocks run through its bind.
use mathlib.Core.Bool.{Bool, true, false}
use mathlib.Core.Logic.{◌⊎◌, inl, inr}
use mathlib.Core.Path.{◌≡◌, refl, sym}

pub data Result {ℓ κ} (E : Type κ) (A : Type ℓ) : Type (ℓ ⊔ κ) where
  ok : A → Result E A
  err : E → Result E A

-- `if bad { bail!(e) }`
abbrev pub refuse_if {κ} : {E : Type κ} → Bool → E → Result E (Unit {0})
refuse_if bad e = elim bad [ true ↦ err e | false ↦ ok tt ]

module _ {κ μ} {E : Type κ} {B : Type μ} where
  infixl 5 ◌>>◌ ◌>>=◌
  abbrev pub ◌>>◌ : Result E (Unit {0}) → Result E B → Result E B
  err e >> rest = err e
  ok _ >> rest = rest

  -- `?`
  abbrev pub ◌>>=◌ {ℓ} : {A : Type ℓ} → Result E A → (A → Result E B) → Result E B
  err e >>= rest = err e
  ok value >>= rest = rest value

module _ {E A : Type 0} where
  pub Result-cases : (r : Result E A) → ((e : E) × (r ≡ err e)) ⊎ ((a : A) × (r ≡ ok a))
  Result-cases (err e) = inl (e, refl)
  Result-cases (ok a) = inr (a, refl)

  pub ok_injective : {a b : A} → ◌≡◌ {A = Result E A} (ok a) (ok b) → a ≡ b
  ok_injective h = cc

  pub ok_not_err : {a : A} {e : E} → ◌≡◌ {A = Result E A} (ok a) (err e) → ⊥
  ok_not_err h = cc

-- A chain that succeeds has succeeded at its first link.
pub bind_ok :
    {E A B : Type 0} (r : Result E A) (rest : A → Result E B) (b : B)
    → (r >>= rest) ≡ ok b
    → (a : A) × (r ≡ ok a) × (rest a ≡ ok b)
bind_ok (ok a) rest b h = (a, refl, h)
bind_ok (err e) rest b h = absurd (ok_not_err (sym h))

pub then_ok :
    {E B : Type 0} (r : Result E (Unit {0})) (rest : Result E B) (b : B)
    → (r >> rest) ≡ ok b
    → rest ≡ ok b
then_ok (ok a) rest b h = h
then_ok (err e) rest b h = absurd (ok_not_err (sym h))
