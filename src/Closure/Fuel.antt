-- ===== src/Closure/Fuel.antt =====
-- src/closure.rs: the worklist loop ends. Every round pops one hash part, and the references of a
-- candidate are pushed only once.
use narwal_publisher.Prelude.{
  ℕ, zero, suc, ◌+◌, ◌≤◌, ◌≡◌, ◌≢◌, inl, inr, ap, sym, ◌∙◌, List, [], ◌∷◌, Text, text_eq,
  text_eq_iff, length, Result, ok, err, arith, if◌then◌else◌, Bool-cases,
}
use narwal_publisher.Prelude.Membership.{mem, Has, Lacks}
use narwal_publisher.Closure.{
  ClosureEntry, ClosureError, Closure, Bfs, scanned_references, push_unvisited, bfs, out_of_fuel,
}
use narwal_publisher.Closure.Steps.{
  List-cases, Result-cases, bfs_empty, bfs_old, bfs_new, expanded, expand_ok, expand_err,
}

length-push_unvisited :
    (visited refs worklist : List Text)
    → length (push_unvisited visited refs worklist) ≤ length refs + length worklist
unfolding push_unvisited
length-push_unvisited visited [] worklist = omega arith
length-push_unvisited visited (r ∷ refs) worklist = ground (
  arith,
  length-push_unvisited visited refs worklist,
  length-push_unvisited visited refs (r ∷ worklist),
)

same_error :
    (e : ClosureError)
    → ◌≡◌ {A = Result ClosureError Closure} (err e) (err out_of_fuel)
    → ◌≡◌ {A = Result ClosureError ClosureEntry} (err e) (err out_of_fuel)
same_error e h = cc

module _ (scan : Text → Result ClosureError ClosureEntry) where
  -- the references of the candidates that are still to be visited
  unfoldable pub unpushed : List Text → List Text → ℕ
  unfolding scanned_references
  unpushed [] visited = 0
  unpushed (u ∷ us) visited =
      (if mem u visited then 0 else scanned_references (scan u)) + unpushed us visited

  unpushed_mono :
      (us visited : List Text) (hp : Text) → unpushed us (hp ∷ visited) ≤ unpushed us visited
  unfolding unpushed mem
  unpushed_mono [] visited hp = omega arith
  unpushed_mono (u ∷ us) visited hp = ground (arith, unpushed_mono us visited hp)

  unpushed_visit :
      (us visited : List Text) (hp : Text) (entry : ClosureEntry)
      → Has us hp
      → Lacks visited hp
      → scan hp ≡ ok entry
      → unpushed us (hp ∷ visited) + length entry.references ≤ unpushed us visited
  unfolding unpushed mem
  unpushed_visit [] visited hp entry known new scans = cc
  unpushed_visit (u ∷ us) visited hp entry known new scans = elim (Bool-cases (text_eq hp u)) [
    | inl same ↦
        let e = (text_eq_iff hp u).0 same in
        ground (
          arith,
          unpushed_mono us visited hp,
          text_eq_iff u hp,
          ap (λ y. mem y visited) e,
          ap (scanned_references) (ap scan (sym e) ∙ scans),
        )
    | inr other ↦
        ground (arith, unpushed_visit us visited hp entry, text_eq_iff hp u, text_eq_iff u hp)
  ]

  -- With fuel for every hash part on the worklist and every reference still to be pushed the search
  -- does not run out of it, whatever the scans return.
  pub bfs_terminates :
      (us : List Text) (fuel : ℕ) (s : Bfs)
      → ((hp : Text) (entry : ClosureEntry) → scan hp ≡ ok entry → Has us hp)
      → ((hp : Text) → scan hp ≢ err out_of_fuel)
      → length s.worklist + unpushed us s.visited ≤ fuel
      → bfs scan fuel s ≢ err out_of_fuel
  bfs_terminates us zero s known sound enough = elim (List-cases s.worklist) [
    | inl empty ↦ λ h. cc (bfs_empty scan 0 s empty)
    | inr (hp, rest, top) ↦ absurd (omega (arith, ap length top))
  ]
  bfs_terminates us (suc fuel) s known sound enough = elim (List-cases s.worklist) [
    | inl empty ↦ λ h. cc (bfs_empty scan (suc fuel) s empty)
    | inr (hp, rest, top) ↦ elim (Bool-cases (mem hp s.visited)) [
      | inl old ↦ rw (bfs_old scan s hp rest top fuel old) (
          bfs_terminates us fuel (record s { worklist = rest }) known sound
            (omega (arith, ap length top)))
      | inr new ↦ elim (Result-cases (scan hp)) [
        | inl (entry, scans) ↦
            rw (bfs_new scan s hp rest top fuel new, expand_ok scan s hp rest entry scans)
              (bfs_terminates us fuel (expanded scan s hp rest entry) known sound (
                omega (
                  arith,
                  ap length top,
                  unpushed_visit us s.visited hp entry (known hp entry scans) new scans,
                  length-push_unvisited (hp ∷ s.visited) entry.references rest,
                )))
        | inr (e, fails) ↦
            rw (bfs_new scan s hp rest top fuel new, expand_err scan s hp rest e fails)
              (λ h. sound hp (fails ∙ same_error e h))
      ]
    ]
  ]
