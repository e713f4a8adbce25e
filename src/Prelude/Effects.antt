-- ===== src/Prelude/Effects.antt =====
-- Code that changes a state and may fail: an error keeps the state that it left behind.
use mathlib.Core.Path.{◌≡◌, refl, ap}
use narwal_publisher.Prelude.Results.{Result, ok, err}

module _ {ℓ} {S : Type ℓ} {E : Type ℓ} {A : Type ℓ} where
  abbrev pub return : A → S → Result E A × S
  return a s = (ok a, s)

  abbrev pub fail : E → S → Result E A × S
  fail e s = (err e, s)

  -- a computation that does not touch the state
  abbrev pub lift : Result E A → S → Result E A × S
  lift r s = (r, s)

  abbrev pub continue {κ} :
      {B : Type κ} → Result E A × S → (A → S → Result E B × S) → Result E B × S
  continue (ok a, s) next = next a s
  continue (err e, s) next = (err e, s)

  -- a chain that succeeds is its second step, from what the first one left
  pub continue-eq-ok {κ} :
      {B : Type κ} (p : Result E A × S) (next : A → S → Result E B × S) {b : B}
      → (continue p next).0 ≡ ok b
      → (a : A) × (p.0 ≡ ok a) × (continue p next ≡ next a p.1)
  continue-eq-ok (ok a, t) next h = (a, refl, refl)
  continue-eq-ok (err e, t) next h = cc

  pub continue_after {κ} :
      {B : Type κ} (p : Result E A × S) (next : A → S → Result E B × S) (a : A) (t : S)
      → p ≡ (ok a, t)
      → continue p next ≡ next a t
  continue_after p next a t e = ap (λ (q : Result E A × S). continue q next) e

infixl 5 ◌>>=◌
abbrev pub ◌>>=◌ {ℓ κ} :
    {S E A : Type ℓ} {B : Type κ}
    → (S → Result E A × S)
    → (A → S → Result E B × S)
    → S
    → Result E B × S
(step >>= next) s = continue (step s) next
