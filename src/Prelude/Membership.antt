-- ===== src/Prelude/Membership.antt =====
-- `HashSet<String>` and `Vec<String>::contains` as a Boolean test, and `HashMap<String, V>` as an
-- association list that is read at its first entry of a key.
use mathlib.Core.Path.{◌≡◌, refl}
use mathlib.Core.Logic.{◌↔◌, ◌⊎◌}
use mathlib.Core.Bool.{Bool, true, false, ◌||◌}
use mathlib.Core.Option.{Option, none, some}
use mathlib.Core.List.{List, [], ◌∷◌, ◌++◌}
use native.Mathlib.Omega.{arith}
use narwal_publisher.Prelude.Tests.{if◌then◌else◌}
use narwal_publisher.Prelude.Texts.{Text, text_eq, text_eq_iff}

unfoldable pub mem : Text → List Text → Bool
mem x [] = false
mem x (y ∷ ys) = text_eq x y || mem x ys

abbrev pub Has : List Text → Text → Type 0
Has xs x = mem x xs ≡ true

abbrev pub Lacks : List Text → Text → Type 0
Lacks xs x = mem x xs ≡ false

pub mem-append : (x : Text) (xs ys : List Text) → mem x (xs ++ ys) ≡ (mem x xs || mem x ys)
unfolding mem
mem-append x [] ys = refl
mem-append x (y ∷ xs) ys = ground (arith, mem-append x xs ys)

pub mem-cons : (x y : Text) (ys : List Text) → Has (y ∷ ys) x ↔ ((x ≡ y) ⊎ Has ys x)
unfolding mem
mem-cons x y ys = ground (arith, text_eq_iff x y)

pub Has-append : (x : Text) (xs ys : List Text) → Has (xs ++ ys) x ↔ (Has xs x ⊎ Has ys x)
Has-append x xs ys = ground (arith, mem-append x xs ys)

pub Has-singleton : (x y : Text) → Has (y ∷ []) x → x ≡ y
unfolding mem
Has-singleton x y m = ground (arith, text_eq_iff x y)

pub Has-concat : (x y : Text) (xs : List Text) → Has (xs ++ y ∷ []) x ↔ (Has xs x ⊎ (x ≡ y))
unfolding mem
Has-concat x y xs = ground (arith, mem-append x xs (y ∷ []), text_eq_iff x y)

pub not-Has-Lacks : (xs : List Text) (x : Text) → Lacks xs x → ¬ Has xs x
not-Has-Lacks xs x l h = cc

module _ {ℓ} {V : Type ℓ} where
  unfoldable pub get : Text → List (Text × V) → Option V
  get k [] = none
  get k ((j, v) ∷ m) = if text_eq k j then some v else get k m

  unfoldable pub insert : Text → V → List (Text × V) → List (Text × V)
  insert k v m = (k, v) ∷ m

  pub get-insert :
      (k j : Text) (v : V) (m : List (Text × V))
      → get j (insert k v m) ≡ (if text_eq j k then some v else get j m)
  unfolding get insert
  get-insert k j v m = refl
