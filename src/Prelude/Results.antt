-- ===== src/Prelude/Results.antt =====
-- `anyhow::Result`: the errors are named by the place that raises them.
use mathlib.Core.Path.{◌≡◌, refl}
use mathlib.Core.Logic.{◌⊎◌, inl, inr}

pub data Result {ℓ κ} (E : Type κ) (A : Type ℓ) : Type (ℓ ⊔ κ) where
  ok : A → Result E A
  err : E → Result E A

module _ {ℓ κ μ} {E : Type μ} {A : Type ℓ} {B : Type κ} where
  infixl 5 ◌>>=◌
  -- the `?` operator
  abbrev pub ◌>>=◌ : Result E A → (A → Result E B) → Result E B
  err failure >>= next = err failure
  ok value >>= next = next value

  -- both steps of a chain that succeeds have succeeded
  pub >>=-eq-ok :
      (first : Result E A) (next : A → Result E B) {b : B}
      → (first >>= next) ≡ ok b
      → (value : A) × (first ≡ ok value) × (next value ≡ ok b)
  >>=-eq-ok (err failure) next chain = cc
  >>=-eq-ok (ok value) next chain = (value, refl, chain)

  -- one of the steps of a chain that fails has failed
  pub >>=-eq-err :
      (first : Result E A) (next : A → Result E B) {e : E}
      → (first >>= next) ≡ err e
      → (first ≡ err e) ⊎ ((value : A) × (first ≡ ok value) × (next value ≡ err e))
  >>=-eq-err (err failure) next chain = inl (cc)
  >>=-eq-err (ok value) next chain = inr (value, refl, chain)

pub ok-injective {ℓ μ} :
    {E : Type μ} {A : Type ℓ} {a b : A} → ◌≡◌ {A = Result E A} (ok a) (ok b) → a ≡ b
ok-injective p = cc
