-- ===== src/Closure/Resolve.antt =====
-- src/closure.rs: what `resolve` returns: the paths that references lead to, dependencies first.
use narwal_publisher.Prelude.{
  ℕ, suc, ◌<◌, ◌≡◌, ◌↔◌, ◌⊎◌, inl, inr, refl, List, [], ◌∷◌, ◌++◌, some, Text, arith, length,
  Result, ok, length-append,
}
use mathlib.Core.List.{reverse, reverse-cons}
use narwal_publisher.Prelude.Membership.{mem, Has, get, mem-cons, mem-append}
use narwal_publisher.Closure.{ClosureEntry, Closure, ClosureError, dfs, topo_sort}
use narwal_publisher.Closure.Graph.{Reach}
use narwal_publisher.Closure.Order.{IsKey, DependsOn, Emits, IsDistinct, IsOrdered}
use narwal_publisher.Closure.Order.Visit.{dfs_all-After, dfs-After}
use narwal_publisher.Closure.Order.Total.{roots_visited}

-- The result of the sort is the entries of `done`: each once, dependencies first, the roots that
-- have an entry among them.
pub record Sorted (closure : Closure) (roots : List Text) (entries : List ClosureEntry)
    : Type 0 where
  pub done : List Text
  pub emits : Emits closure done entries
  pub ordered : IsOrdered closure [] done
  pub distinct : IsDistinct done
  pub roots_done : (x : Text) → Has roots x → IsKey closure x → Has done x

-- The sort of a closure without a cycle of references ends within its fuel, with each entry at most
-- once, each behind the entries it depends on, and with the entry of every root that has one.
pub topo_sort_correct :
    (closure : Closure) (rank : Text → ℕ)
    → ((x y : Text) → DependsOn closure x y → rank y < rank x)
    → (roots : List Text)
    → (entries : List ClosureEntry) × (topo_sort closure roots ≡ some entries)
      × Sorted closure roots entries
unfolding topo_sort mem
topo_sort_correct closure rank acyclic roots =
    let t = roots_visited closure roots in
    let a =
      dfs_all-After closure rank acyclic [] (dfs (suc (length closure)) closure)
        (dfs-After closure rank acyclic (suc (length closure)) []) roots [] ([], []) t.after
        (λ x m k g n. cc)
        (record {
          emits = tt;
          ordered = tt;
          distinct = tt;
          done_visited = λ x m. m;
          gray_visited = λ x m. m;
          done_not_gray = λ x m. refl;
          visited_done = λ x m k. cc;
        })
        t.ended in
    (
      t.after.1,
      rw (t.ended, topo_sort) refl,
      record {
        done = a.done;
        emits = a.inv.emits;
        ordered = a.inv.ordered;
        distinct = a.inv.distinct;
        roots_done = λ x m k. not_gray x a.done (a.inv.visited_done x (a.reached x m) k);
      },
    )
  where
    not_gray : (x : Text) (done : List Text) → Has done x ⊎ Has [] x → Has done x
    not_gray x done (inl d) = d
    not_gray x done (inr g) = cc

pub Has-reverse : (x : Text) (xs : List Text) → mem x (reverse xs) ≡ mem x xs
unfolding mem
Has-reverse x [] = refl
Has-reverse x (y ∷ ys) =
    rw reverse-cons (ground (arith, mem-append x (reverse ys) (y ∷ []), Has-reverse x ys))

pub length-reverse : (xs : List Text) → length (reverse xs) ≡ length xs
length-reverse [] = refl
length-reverse (x ∷ xs) =
    rw reverse-cons (omega (arith, length-append (reverse xs) (x ∷ []), length-reverse xs))

module _ (scan : Text → Result ClosureError ClosureEntry) where
  -- the entries are those that the scans of these hash parts give, in this order
  abbrev pub IsScanned : List Text → List ClosureEntry → Type 0
  IsScanned [] [] = Unit
  IsScanned (x ∷ xs) (e ∷ es) = (scan x ≡ ok e) × IsScanned xs es
  IsScanned xs es = ⊥

  -- every reference of `x` stands before it
  abbrev pub RefersTo : List Text → Text → Type 0
  RefersTo before x =
      (e : ClosureEntry) (y : Text) → scan x ≡ ok e → Has e.references y → Has before y

  abbrev pub IsTopological : List Text → List Text → Type 0
  IsTopological before [] = Unit
  IsTopological before (x ∷ xs) = RefersTo before x × IsTopological (before ++ x ∷ []) xs

  -- the closure of the roots as `resolve` promises it
  pub record Resolved (roots : List Text) (entries : List ClosureEntry) : Type 0 where
    pub order : List Text
    pub scanned : IsScanned order entries
    pub topological : IsTopological [] order
    pub distinct : IsDistinct order
    pub exact : (x : Text) → Has order x ↔ Reach scan roots x

  pub IsScanned-Emits :
      (closure : Closure)
      → ((x : Text) (e : ClosureEntry) → get x closure ≡ some e → scan x ≡ ok e)
      → (xs : List Text) (es : List ClosureEntry) → Emits closure xs es
      → IsScanned xs es
  IsScanned-Emits closure agree [] [] h = tt
  IsScanned-Emits closure agree [] (e ∷ es) h = absurd h
  IsScanned-Emits closure agree (x ∷ xs) [] h = absurd h
  IsScanned-Emits closure agree (x ∷ xs) (e ∷ es) h =
      (agree x e h.0, IsScanned-Emits closure agree xs es h.1)

  pub IsTopological-IsOrdered :
      (closure : Closure)
      → (before xs : List Text)
      → ((x y : Text) (e : ClosureEntry)
          → Has xs x
          → scan x ≡ ok e
          → Has e.references y
          → DependsOn closure x y)
      → IsOrdered closure before xs
      → IsTopological before xs
  IsTopological-IsOrdered closure before [] depends h = tt
  IsTopological-IsOrdered closure before (x ∷ xs) depends h = (
    λ e y scans m. h.0 y (depends x y e ((mem-cons x x xs).1 (inl refl)) scans m),
    IsTopological-IsOrdered closure (before ++ x ∷ []) xs
        (λ x' y e m. depends x' y e ((mem-cons x' x xs).1 (inr m))) h.1,
  )
