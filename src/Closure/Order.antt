-- ===== src/Closure/Order.antt =====
-- src/closure.rs: what `topo_sort` promises of the order of its result.
pub mod Cases
pub mod Gray
pub mod Visit
pub mod Total
use narwal_publisher.Prelude.{
  subst, sym, append_assoc, append-nil, ◌≡◌, List, [], ◌∷◌, ◌++◌, some, Text, ◌⊎◌, inl, inr, refl,
  arith, Bool-cases, false, ◌||◌, text_eq_iff,
}
use narwal_publisher.Prelude.Membership.{Has, Lacks, mem, get, Has-append, mem-cons, mem-append}
use narwal_publisher.Closure.{ClosureEntry, Closure}

-- the hash part has an entry
abbrev pub IsKey : Closure → Text → Type 0
IsKey closure x = (e : ClosureEntry) × (get x closure ≡ some e)

-- the entry of `x` refers to `y`, which has an entry too
pub record DependsOn (closure : Closure) (x y : Text) : Type 0 where
  pub entry : ClosureEntry
  pub stored : get x closure ≡ some entry
  pub refers : Has entry.references y
  pub key : IsKey closure y

-- the result is the entries of these hash parts, in this order
abbrev pub Emits : Closure → List Text → List ClosureEntry → Type 0
Emits closure [] [] = Unit
Emits closure (x ∷ xs) (e ∷ es) = (get x closure ≡ some e) × Emits closure xs es
Emits closure xs es = ⊥

abbrev pub IsDistinct : List Text → Type 0
IsDistinct [] = Unit
IsDistinct (x ∷ xs) = Lacks xs x × IsDistinct xs

-- all that `x` depends on stands before it
abbrev pub IsReady : Closure → List Text → Text → Type 0
IsReady closure before x = (y : Text) → DependsOn closure x y → Has before y

-- dependencies first, behind the hash parts of `before`
abbrev pub IsOrdered : Closure → List Text → List Text → Type 0
IsOrdered closure before [] = Unit
IsOrdered closure before (x ∷ xs) =
    IsReady closure before x × IsOrdered closure (before ++ x ∷ []) xs

module _ (closure : Closure) where
  pub Emits-append :
      (xs : List Text) (es : List ClosureEntry) (x : Text) (e : ClosureEntry)
      → Emits closure xs es
      → get x closure ≡ some e
      → Emits closure (xs ++ x ∷ []) (es ++ e ∷ [])
  Emits-append [] [] x e h k = (k, tt)
  Emits-append [] (e' ∷ es) x e h k = absurd h
  Emits-append (x' ∷ xs) [] x e h k = absurd h
  Emits-append (x' ∷ xs) (e' ∷ es) x e h k = (h.0, Emits-append xs es x e h.1 k)

  pub Emits-IsKey :
      (xs : List Text) (es : List ClosureEntry) (x : Text)
      → Emits closure xs es
      → Has xs x
      → IsKey closure x
  unfolding mem
  Emits-IsKey [] es x h m = cc
  Emits-IsKey (x' ∷ xs) [] x h m = absurd h
  Emits-IsKey (x' ∷ xs) (e ∷ es) x h m = elim ((mem-cons x x' xs).0 m) [
    | inl same ↦ (e, subst (λ y. get y closure ≡ some e) (sym same) h.0)
    | inr later ↦ Emits-IsKey xs es x h.1 later
  ]

  pub IsOrdered-append :
      (before xs : List Text) (x : Text)
      → IsOrdered closure before xs
      → IsReady closure (before ++ xs) x
      → IsOrdered closure before (xs ++ x ∷ [])
  IsOrdered-append before [] x h ready = (λ y d. rw append-nil at (ready y d), tt)
  IsOrdered-append before (x' ∷ xs) x h ready =
      (h.0, IsOrdered-append (before ++ x' ∷ []) xs x h.1 (λ y d. rw append_assoc (ready y d)))

  pub IsOrdered-closed :
      (before xs : List Text) (x y : Text)
      → IsOrdered closure before xs
      → Has xs x
      → DependsOn closure x y
      → Has (before ++ xs) y
  unfolding mem
  IsOrdered-closed before [] x y h m d = cc
  IsOrdered-closed before (x' ∷ xs) x y h m d = elim ((mem-cons x x' xs).0 m) [
    | inl same ↦
        (Has-append y before (x' ∷ xs)).1 (inl (h.0 y (subst (λ z. DependsOn closure z y) same d)))
    | inr later ↦ rw append_assoc at (IsOrdered-closed (before ++ x' ∷ []) xs x y h.1 later d)
  ]

pub IsDistinct-append :
    (xs : List Text) (x : Text) → IsDistinct xs → Lacks xs x → IsDistinct (xs ++ x ∷ [])
unfolding mem
IsDistinct-append [] x h new = (refl, tt)
IsDistinct-append (y ∷ xs) x h new = (
  ground (arith, mem-append y xs (x ∷ []), text_eq_iff x y, text_eq_iff y x),
  IsDistinct-append xs x h.1 (ground arith),
)
