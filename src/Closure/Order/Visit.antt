-- ===== src/Closure/Order/Visit.antt =====
-- src/closure.rs: what a depth-first visit keeps, when references do not form a cycle.
use narwal_publisher.Prelude.{
  ℕ, zero, suc, ◌<◌, ◌≡◌, inl, inr, refl, ap, sym, subst, ◌∙◌, List, [], ◌∷◌, ◌++◌, Option, some,
  Text, arith, Bool-cases, Option-cases,
}
use mathlib.Core.Option.{some-injective}
use narwal_publisher.Prelude.Membership.{mem, Has, Lacks, get, mem-cons, Has-concat, Has-singleton}
use mathlib.Core.Path.{subst₂}
use narwal_publisher.Closure.{ClosureEntry, Closure, Dfs, dfs, dfs_all}
use narwal_publisher.Closure.Order.{
  DependsOn, IsReady, Emits-append, IsOrdered-append, IsDistinct-append,
}
use narwal_publisher.Closure.Order.Cases.{dfs_seen, dfs_absent, dfs_entry, emit-eq-some}
use narwal_publisher.Closure.Order.Gray.{Inv, Below, After, absent-After, Inv-enter, seen-After}

module _ (closure : Closure) (rank : Text → ℕ)
    (acyclic : (x y : Text) → DependsOn closure x y → rank y < rank x) where
  -- one visit keeps the invariant
  abbrev pub Visits : List Text → (Text → Dfs → Option Dfs) → Type 0
  Visits gray visit =
      (hp : Text) (done : List Text) (s s' : Dfs)
      → Below closure rank gray hp
      → Inv closure rank gray done s
      → visit hp s ≡ some s'
      → After closure rank gray (hp ∷ []) s s'

  After-refl :
      (gray done : List Text) (s : Dfs)
      → Inv closure rank gray done s
      → After closure rank gray [] s s
  unfolding mem
  After-refl gray done s h = record { done = done; inv = h; reached = λ x m. cc; grows = λ x v. v }

  pub dfs_all-After :
      (gray : List Text) (visit : Text → Dfs → Option Dfs)
      → Visits gray visit
      → (hps done : List Text) (s s' : Dfs) → ((x : Text) → Has hps x → Below closure rank gray x)
      → Inv closure rank gray done s
      → dfs_all visit hps s ≡ some s'
      → After closure rank gray hps s s'
  unfolding dfs_all
  dfs_all-After gray visit one [] done s s' below h e =
      subst (After closure rank gray [] s) (some-injective s s' e) (After-refl gray done s h)
  dfs_all-After gray visit one (hp ∷ hps) done s s' below h e = elim (Option-cases (visit hp s)) [
    | inl stuck ↦ cc (rw (stuck, dfs_all) at e)
    | inr (t, visits) ↦
        let a = one hp done s t (below hp ((mem-cons hp hp hps).1 (inl refl))) h visits in
        let b =
          dfs_all-After gray visit one hps a.done t s'
            (λ x m. below x ((mem-cons x hp hps).1 (inr m))) a.inv (rw (visits, dfs_all) at e) in
        record {
          done = b.done;
          inv = b.inv;
          reached = λ x m. elim ((mem-cons x hp hps).0 m) [
            | inl same ↦ b.grows x (a.reached x ((mem-cons x hp []).1 (inl same)))
            | inr later ↦ b.reached x later
          ];
          grows = λ x v. b.grows x (a.grows x v);
        }
  ]

  module _ (gray : List Text) (hp : Text) (e : ClosureEntry) (stored : get hp closure ≡ some e)
      (below : Below closure rank gray hp) where
    -- what `hp` refers to ranks below all that is gray
    references-Below : (x : Text) → Has e.references x → Below closure rank (hp ∷ gray) x
    references-Below x m key g is_gray =
        let lower = acyclic hp x (record { entry = e; stored = stored; refers = m; key = key }) in
        elim ((mem-cons g hp gray).0 is_gray) [
          | inl same ↦ subst (λ y. rank x < rank y) (sym same) lower
          | inr old ↦ omega (arith, below (e, stored) g old, lower)
        ]

    not_gray : (y : Text) → DependsOn closure hp y → Has (hp ∷ gray) y → ⊥
    not_gray y d is_gray =
        let lower = acyclic hp y d in
        elim ((mem-cons y hp gray).0 is_gray) [
          | inl same ↦ absurd (omega (arith, lower, ap rank same))
          | inr old ↦ absurd (omega (arith, lower, below (e, stored) y old))
        ]

    -- all references are visited, so `hp` may be emitted
    ready :
        (s t : Dfs) (a : After closure rank (hp ∷ gray) e.references s t)
        → IsReady closure a.done hp
    ready s t a y d =
        let same = some-injective d.entry e (sym d.stored ∙ stored) in
        let seen = a.reached y (subst (λ (x : ClosureEntry). Has x.references y) same d.refers) in
        elim (a.inv.visited_done y seen d.key) [
          | inl is_done ↦ is_done
          | inr is_gray ↦ absurd (not_gray y d is_gray)
        ]

    emit-After :
        (s t : Dfs)
        → Lacks s.0 hp
        → ((g : Text) → Has gray g → Has s.0 g)
        → After closure rank (hp ∷ gray) e.references (hp ∷ s.0, s.1) t
        → After closure rank gray (hp ∷ []) s (t.0, t.1 ++ e ∷ [])
    emit-After s t new gray_seen a = record {
      done = a.done ++ hp ∷ [];
      inv = record {
        emits = Emits-append closure a.done t.1 hp e a.inv.emits stored;
        ordered = IsOrdered-append closure [] a.done hp a.inv.ordered (ready (hp ∷ s.0, s.1) t a);
        distinct = IsDistinct-append a.done hp a.inv.distinct fresh;
        done_visited = λ x d. elim ((Has-concat x hp a.done).0 d) [
          | inl old ↦ a.inv.done_visited x old
          | inr same ↦ subst (Has t.0) (sym same) top
        ];
        gray_visited = λ x g. a.inv.gray_visited x ((mem-cons x hp gray).1 (inr g));
        done_not_gray = λ x d. elim (Bool-cases (mem x gray)) [
          | inl is_gray ↦ elim ((Has-concat x hp a.done).0 d) [
            | inl old ↦ cc (a.inv.done_not_gray x old, (mem-cons x hp gray).1 (inr is_gray))
            | inr same ↦ cc (gray_seen x is_gray, ap (λ y. mem y s.0) same)
          ]
          | inr not_gray ↦ not_gray
        ];
        visited_done = λ x v k. elim (a.inv.visited_done x v k) [
          | inl d ↦ inl ((Has-concat x hp a.done).1 (inl d))
          | inr is_gray ↦ elim ((mem-cons x hp gray).0 is_gray) [
            | inl same ↦ inl ((Has-concat x hp a.done).1 (inr same))
            | inr old ↦ inr old
          ]
        ];
      };
      reached = λ x m. subst (Has t.0) (sym (Has-singleton x hp m)) top;
      grows = λ x v. a.grows x ((mem-cons x hp s.0).1 (inr v));
    }
      where
        top : Has t.0 hp
        top = a.grows hp ((mem-cons hp hp s.0).1 (inl refl))

        fresh : Lacks a.done hp
        fresh = elim (Bool-cases (mem hp a.done)) [
          | inl is_done ↦ cc (a.inv.done_not_gray hp is_done, (mem-cons hp hp gray).1 (inl refl))
          | inr not_done ↦ not_done
        ]

  -- A visit keeps the invariant at every fuel at which it ends.
  pub dfs-After : (fuel : ℕ) (gray : List Text) → Visits gray (dfs fuel closure)
  unfolding dfs
  dfs-After zero gray hp done s s' below h e = cc
  dfs-After (suc fuel) gray hp done (visited, result) s' below h e =
      elim (Bool-cases (mem hp visited)) [
        | inl seen ↦
            subst (After closure rank gray (hp ∷ []) (visited, result))
              (some-injective (visited, result) s'
                (sym (dfs_seen fuel closure hp visited result seen) ∙ e))
              (seen-After closure rank gray done hp (visited, result) seen h)
        | inr new ↦ elim (Option-cases (get hp closure)) [
          | inl absent ↦
              subst (After closure rank gray (hp ∷ []) (visited, result))
                (some-injective (hp ∷ visited, result) s'
                  (sym (dfs_absent fuel closure hp visited result new absent) ∙ e))
                (absent-After closure rank gray done hp (visited, result) absent h)
          | inr (entry, stored) ↦
              let (v, r, all, same_v, same_r) =
                emit-eq-some entry
                  (dfs_all (dfs fuel closure) entry.references (hp ∷ visited, result)) s'
                  (sym (dfs_entry fuel closure hp visited result entry new stored) ∙ e) in
              let a =
                dfs_all-After (hp ∷ gray) (dfs fuel closure) (dfs-After fuel (hp ∷ gray))
                  entry.references done (hp ∷ visited, result) (v, r)
                  (references-Below gray hp entry stored below)
                  (Inv-enter closure rank gray done hp (visited, result) new h) all in
              subst₂ (λ x y. After closure rank gray (hp ∷ []) (visited, result) (x, y)) same_v
                same_r
                (emit-After gray hp entry stored below (visited, result) (v, r) new h.gray_visited
                  a)
        ]
      ]
