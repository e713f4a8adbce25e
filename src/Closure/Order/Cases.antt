-- ===== src/Closure/Order/Cases.antt =====
-- src/closure.rs: what one visit does, case by case.
use narwal_publisher.Prelude.{ℕ, suc, ◌≡◌, refl, ap, List, [], ◌∷◌, ◌++◌, Option, none, some, Text}
use mathlib.Core.Option.{some-injective}
use narwal_publisher.Prelude.Membership.{Has, Lacks, get}
use narwal_publisher.Closure.{ClosureEntry, Closure, Dfs, dfs, dfs_all, emit}

-- the three cases of a visit
module _ (fuel : ℕ) (closure : Closure) (hp : Text) (visited : List Text)
    (result : List ClosureEntry) where
  pub dfs_seen :
      Has visited hp → dfs (suc fuel) closure hp (visited, result) ≡ some (visited, result)
  unfolding dfs
  dfs_seen seen = rw (seen, dfs)

  pub dfs_absent :
      Lacks visited hp
      → get hp closure ≡ none
      → dfs (suc fuel) closure hp (visited, result) ≡ some (hp ∷ visited, result)
  unfolding dfs
  dfs_absent new absent = rw (new, dfs) (rw absent)

  pub dfs_entry :
      (e : ClosureEntry)
      → Lacks visited hp
      → get hp closure ≡ some e
      → dfs (suc fuel) closure hp (visited, result)
        ≡ emit e (dfs_all (dfs fuel closure) e.references (hp ∷ visited, result))
  unfolding dfs
  dfs_entry e new stored = rw (new, dfs) (rw stored)

pub emit-eq-some :
    (e : ClosureEntry) (o : Option Dfs) (s : Dfs)
    → emit e o ≡ some s
    → (visited : List Text) × (result : List ClosureEntry) × (o ≡ some (visited, result))
      × (visited ≡ s.0)
      × (result ++ e ∷ [] ≡ s.1)
unfolding emit
emit-eq-some e none s h = cc
emit-eq-some e (some (visited, result)) s h =
    let same = some-injective _ s h in
    (visited, result, refl, ap (λ (x : Dfs). x.0) same, ap (λ (x : Dfs). x.1) same)
