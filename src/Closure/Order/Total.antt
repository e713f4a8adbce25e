-- ===== src/Closure/Order/Total.antt =====
-- src/closure.rs: the depth-first visit ends, cycles or not: a visit goes deeper only at a key that
-- was not visited before.
use narwal_publisher.Prelude.{
  ℕ, zero, suc, ◌+◌, ◌≤◌, ◌<◌, ◌≡◌, inl, inr, refl, ap, ◌∙◌, List, [], ◌∷◌, ◌++◌, Option, some,
  Text, text_eq, text_eq_iff, arith, Bool-cases, Option-cases, length, if◌then◌else◌,
}
use narwal_publisher.Prelude.Membership.{mem, Lacks, get}
use narwal_publisher.Closure.{ClosureEntry, Closure, Dfs, dfs, dfs_all, emit}
use narwal_publisher.Closure.Order.Cases.{dfs_seen, dfs_absent, dfs_entry}

-- the entries whose keys are not visited
pub unvisited : Closure → List Text → ℕ
unvisited [] visited = 0
unvisited ((k, e) ∷ closure) visited = (if mem k visited then 0 else 1) + unvisited closure visited

unvisited-length :
    (closure : Closure) (visited : List Text) → unvisited closure visited ≤ length closure
unfolding unvisited
unvisited-length [] visited = omega arith
unvisited-length ((k, e) ∷ closure) visited = ground (arith, unvisited-length closure visited)

unvisited_mono :
    (closure : Closure) (visited : List Text) (hp : Text)
    → unvisited closure (hp ∷ visited) ≤ unvisited closure visited
unfolding unvisited mem
unvisited_mono [] visited hp = omega arith
unvisited_mono ((k, e) ∷ closure) visited hp = ground (arith, unvisited_mono closure visited hp)

unvisited_enter :
    (closure : Closure) (visited : List Text) (hp : Text) (e : ClosureEntry)
    → Lacks visited hp
    → get hp closure ≡ some e
    → unvisited closure (hp ∷ visited) < unvisited closure visited
unfolding unvisited mem get
unvisited_enter [] visited hp e new stored = cc
unvisited_enter ((k, e') ∷ closure) visited hp e new stored = elim (Bool-cases (text_eq hp k)) [
  | inl same ↦
      let s = (text_eq_iff hp k).0 same in
      ground (arith, unvisited_mono closure visited hp, text_eq_iff k hp, ap (λ y. mem y visited) s)
  | inr other ↦
      ground (arith, unvisited_enter closure visited hp e, text_eq_iff hp k, text_eq_iff k hp)
]

module _ (closure : Closure) where
  -- the visit ends in a state with no more keys unvisited than before
  pub record Ends (before : List Text) (o : Option Dfs) : Type 0 where
    pub after : Dfs
    pub ended : o ≡ some after
    pub fewer : unvisited closure after.0 ≤ unvisited closure before

  abbrev pub IsTotal : ℕ → (Text → Dfs → Option Dfs) → Type 0
  IsTotal fuel visit = (hp : Text) (s : Dfs) → unvisited closure s.0 < fuel → Ends s.0 (visit hp s)

  pub dfs_all_terminates :
      (fuel : ℕ) (visit : Text → Dfs → Option Dfs)
      → IsTotal fuel visit
      → (hps : List Text) (s : Dfs) → unvisited closure s.0 < fuel
      → Ends s.0 (dfs_all visit hps s)
  unfolding dfs_all
  dfs_all_terminates fuel visit one [] s enough = record {
    after = s;
    ended = refl;
    fewer = omega arith;
  }
  dfs_all_terminates fuel visit one (hp ∷ hps) s enough =
      let a = one hp s enough in
      let b = dfs_all_terminates fuel visit one hps a.after (omega (arith, a.fewer)) in
      record {
        after = b.after;
        ended = rw (a.ended, dfs_all) b.ended;
        fewer = omega (arith, a.fewer, b.fewer);
      }

  pub dfs_terminates : (fuel : ℕ) → IsTotal fuel (dfs fuel closure)
  unfolding emit
  dfs_terminates zero hp s enough = absurd (omega arith)
  dfs_terminates (suc fuel) hp (visited, result) enough = elim (Bool-cases (mem hp visited)) [
    | inl seen ↦ record {
      after = (visited, result);
      ended = dfs_seen fuel closure hp visited result seen;
      fewer = omega arith;
    }
    | inr new ↦ elim (Option-cases (get hp closure)) [
      | inl absent ↦ record {
        after = (hp ∷ visited, result);
        ended = dfs_absent fuel closure hp visited result new absent;
        fewer = unvisited_mono closure visited hp;
      }
      | inr (e, stored) ↦
          let deeper = unvisited_enter closure visited hp e new stored in
          let a =
            dfs_all_terminates fuel (dfs fuel closure) (dfs_terminates fuel) e.references
              (hp ∷ visited, result) (omega (arith, deeper)) in
          record {
            after = (a.after.0, a.after.1 ++ e ∷ []);
            ended = dfs_entry fuel closure hp visited result e new stored ∙ ap (emit e) a.ended;
            fewer = omega (arith, deeper, a.fewer);
          }
    ]
  ]

  pub roots_visited :
      (roots : List Text) → Ends [] (dfs_all (dfs (suc (length closure)) closure) roots ([], []))
  roots_visited roots =
      dfs_all_terminates (suc (length closure)) (dfs (suc (length closure)) closure)
        (dfs_terminates (suc (length closure))) roots ([], [])
        (omega (arith, unvisited-length closure []))
