-- ===== src/Prelude/Results.antt =====
-- Exceptions as values: what a call raises, or what it returns.
use mathlib.Core.Path.{◌≡◌, refl}
use mathlib.Core.Logic.{◌⊎◌, inl, inr}

pub data Result {ℓ κ} (Raised : Type ℓ) (Value : Type κ) : Type (ℓ ⊔ κ) where
  err : Raised → Result Raised Value
  ok : Value → Result Raised Value

module _ {ℓ κ} {Raised : Type ℓ} {Value : Type κ} where
  pub ok-inj : (x y : Value) → ◌≡◌ {A = Result Raised Value} (ok x) (ok y) → x ≡ y
  ok-inj x y same = cc

  pub Result-cases :
      (outcome : Result Raised Value)
      → ((raised : Raised) × (outcome ≡ err raised)) ⊎ ((x : Value) × (outcome ≡ ok x))
  Result-cases (err raised) = inl (raised, refl)
  Result-cases (ok x) = inr (x, refl)

infixl 5 ◌>>=◌ ◌>>◌
-- The rest of a function runs if the call has returned.
abbrev pub ◌>>=◌ {ℓ κ μ} :
    {Raised : Type ℓ} {Value : Type κ} {Next : Type μ}
    → Result Raised Value
    → (Value → Result Raised Next)
    → Result Raised Next
err raised >>= rest = err raised
ok x >>= rest = rest x

-- The same after a call that returns nothing.
abbrev pub ◌>>◌ {ℓ κ} :
    {Raised : Type ℓ} {Next : Type κ}
    → Result Raised (Unit {0})
    → Result Raised Next
    → Result Raised Next
first >> rest = first >>= λ done. rest

-- If the whole has returned, so have the call and the rest.
pub >>=-eq-ok {ℓ κ μ} :
    {Raised : Type ℓ} {Value : Type κ} {Next : Type μ} (outcome : Result Raised Value)
    (rest : Value → Result Raised Next) {y : Next}
    → (outcome >>= rest) ≡ ok y
    → (x : Value) × (outcome ≡ ok x) × (rest x ≡ ok y)
>>=-eq-ok (err raised) rest returned = cc
>>=-eq-ok (ok x) rest returned = (x, refl, returned)
