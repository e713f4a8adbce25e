-- ===== src/Closure/Steps.antt =====
-- src/closure.rs: what one round of the worklist search does, case by case.
use narwal_publisher.Prelude.{
  ℕ, zero, suc, ◌≡◌, ◌↔◌, ◌⊎◌, inl, inr, refl, List, [], ◌∷◌, Text, text_eq_iff, Result, ok, err,
  arith, if◌then◌else◌, ◌>>=◌,
}
use narwal_publisher.Prelude.Membership.{mem, Has, Lacks, insert}
use narwal_publisher.Closure.{
  ClosureEntry, ClosureError, Bfs, push_unvisited, expand, bfs, out_of_fuel,
}

pub List-cases : (xs : List Text) → (xs ≡ []) ⊎ ((x : Text) × (rest : List Text) × (xs ≡ x ∷ rest))
List-cases [] = inl refl
List-cases (x ∷ xs) = inr (x, xs, refl)

pub Has-push_unvisited :
    (visited refs worklist : List Text) (x : Text)
    → Has (push_unvisited visited refs worklist) x
      ↔ (Has worklist x ⊎ (Has refs x × Lacks visited x))
unfolding push_unvisited mem
Has-push_unvisited visited [] worklist x = ground arith
Has-push_unvisited visited (r ∷ refs) worklist x = ground (
  arith,
  Has-push_unvisited visited refs (if mem r visited then worklist else r ∷ worklist) x,
  text_eq_iff x r,
)

module _ (scan : Text → Result ClosureError ClosureEntry) where
  pub bfs_empty : (fuel : ℕ) (s : Bfs) → s.worklist ≡ [] → bfs scan fuel s ≡ ok s.closure
  unfolding bfs
  bfs_empty zero s empty = rw (empty, bfs)
  bfs_empty (suc fuel) s empty = rw (empty, bfs)

  module _ (s : Bfs) (hp : Text) (rest : List Text) (top : s.worklist ≡ hp ∷ rest) where
    pub bfs_zero : bfs scan 0 s ≡ err out_of_fuel
    unfolding bfs
    bfs_zero = rw (top, bfs)

    pub bfs_old :
        (fuel : ℕ)
        → Has s.visited hp
        → bfs scan (suc fuel) s ≡ bfs scan fuel (record s { worklist = rest })
    unfolding bfs
    bfs_old fuel old = ground (arith, top)

    pub bfs_new :
        (fuel : ℕ)
        → Lacks s.visited hp
        → bfs scan (suc fuel) s ≡ (expand scan hp rest s >>= bfs scan fuel)
    unfolding bfs
    bfs_new fuel new = ground (arith, top)

  abbrev pub expanded : Bfs → Text → List Text → ClosureEntry → Bfs
  expanded s hp rest entry = record {
    closure = insert hp entry s.closure;
    worklist = push_unvisited (hp ∷ s.visited) entry.references rest;
    visited = hp ∷ s.visited;
  }

  pub expand_ok :
      (s : Bfs) (hp : Text) (rest : List Text) (entry : ClosureEntry)
      → scan hp ≡ ok entry
      → expand scan hp rest s ≡ ok (expanded s hp rest entry)
  unfolding expand
  expand_ok s hp rest entry scans = rw scans

  pub expand_err :
      (s : Bfs) (hp : Text) (rest : List Text) (e : ClosureError)
      → scan hp ≡ err e
      → expand scan hp rest s ≡ err e
  unfolding expand
  expand_err s hp rest e scans = rw scans

pub Result-cases :
    (r : Result ClosureError ClosureEntry)
    → ((entry : ClosureEntry) × (r ≡ ok entry)) ⊎ ((e : ClosureError) × (r ≡ err e))
Result-cases (ok entry) = inl (entry, refl)
Result-cases (err e) = inr (e, refl)
