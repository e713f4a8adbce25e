-- ===== src/Closure/Ending.antt =====
-- src/closure.rs: `resolve` ends: neither the search nor the sort runs out of the fuel they are given.
use narwal_publisher.Prelude.{
  ℕ, zero, suc, ◌+◌, ◌≡◌, ◌≢◌, inl, inr, refl, List, [], ◌∷◌, map, Option, none, some, Text, arith,
  Option-cases, length, ok, err, >>=-eq-err,
}
use mathlib.Core.List.{reverse}
use narwal_publisher.Prelude.Membership.{mem, Has}
use narwal_publisher.Closure.{
  ClosureEntry, Closure, Candidate, ReferenceScan, topo_sort, resolve_inputs, find_closure,
  sorted_or_err, check_inputs, scan_hashpart, out_of_fuel, all_references, find_candidate,
  scan_candidate, references_of, hashpart_at,
}
use narwal_publisher.Closure.Fuel.{unpushed, bfs_terminates}
use narwal_publisher.Closure.Order.Total.{roots_visited}
use narwal_publisher.Closure.Resolve.{length-reverse}

pub find_candidate-eq-some :
    (hp : Text) (cs : List Candidate) (c : Candidate)
    → find_candidate hp cs ≡ some c
    → Has (map (λ x. x.hashpart) cs) hp
unfolding find_candidate mem
find_candidate-eq-some hp [] c found = cc
find_candidate-eq-some hp (c' ∷ cs) c found = elim (Option-cases (find_candidate hp cs)) [
  | inl absent ↦ ground (arith, absent)
  | inr (later, found_later) ↦ ground (arith, find_candidate-eq-some hp cs later found_later)
]

hashpart_at_sound : (cs : List Candidate) (i : ℕ) → hashpart_at cs i ≢ err out_of_fuel
unfolding hashpart_at
hashpart_at_sound [] i h = cc
hashpart_at_sound (c ∷ cs) zero h = cc
hashpart_at_sound (c ∷ cs) (suc i) h = hashpart_at_sound cs i h

references_of_sound :
    (hp : Text) (candidates : List Candidate) (matches : List ℕ)
    → references_of hp candidates matches ≢ err out_of_fuel
unfolding references_of
references_of_sound hp candidates [] h = cc
references_of_sound hp candidates (i ∷ matches) h =
    elim (>>=-eq-err (hashpart_at candidates i) _ h) [
      | inl here ↦ hashpart_at_sound candidates i here
      | inr (found, _, later) ↦ elim (>>=-eq-err (references_of hp candidates matches) _ later) [
        | inl there ↦ references_of_sound hp candidates matches there
        | inr (rest, _, never) ↦ cc
      ]
    ]

check_inputs_sound :
    (candidates : List Candidate) (hps : List Text) → check_inputs candidates hps ≢ err out_of_fuel
unfolding check_inputs
check_inputs_sound candidates [] h = cc
check_inputs_sound candidates (hp ∷ hps) h = ground (arith, check_inputs_sound candidates hps)

topo_sort_ends :
    (closure : Closure) (roots : List Text)
    → sorted_or_err (topo_sort closure roots) ≢ err out_of_fuel
unfolding topo_sort sorted_or_err
topo_sort_ends closure roots h =
    let t = roots_visited closure roots in cc (rw (t.ended, topo_sort) at h)

scan_candidate_sound :
    (candidates : List Candidate) (hp : Text) (c : Candidate) (found : Option ReferenceScan)
    → scan_candidate candidates hp c found ≢ err out_of_fuel
unfolding scan_candidate
scan_candidate_sound candidates hp c none h = cc
scan_candidate_sound candidates hp c (some found) h =
    elim (>>=-eq-err (references_of hp candidates found.matches) _ h) [
      | inl inside ↦ references_of_sound hp candidates found.matches inside
      | inr (references, _, never) ↦ cc
    ]

module _ (scan_path : List Text → Text → Option ReferenceScan) (candidates : List Candidate) where
  scan_known :
      (hp : Text) (entry : ClosureEntry)
      → scan_hashpart scan_path candidates hp ≡ ok entry
      → Has (map (λ x. x.hashpart) candidates) hp
  unfolding scan_hashpart
  scan_known hp entry scans = elim (Option-cases (find_candidate hp candidates)) [
    | inl absent ↦ cc (rw (absent, scan_hashpart) at scans)
    | inr (c, found) ↦ find_candidate-eq-some hp candidates c found
  ]

  scan_sound : (hp : Text) → scan_hashpart scan_path candidates hp ≢ err out_of_fuel
  unfolding scan_hashpart
  scan_sound hp h = elim (Option-cases (find_candidate hp candidates)) [
    | inl absent ↦ cc (rw (absent, scan_hashpart) at h)
    | inr (c, found) ↦
        scan_candidate_sound candidates hp c (scan_path (map (λ x. x.hashpart) candidates) c.path)
          (rw (found, scan_hashpart) at h)
  ]

  unpushed-all_references :
      (cs : List Candidate)
      → unpushed (scan_hashpart scan_path candidates) (map (λ x. x.hashpart) cs) []
        ≡ all_references scan_path candidates cs
  unfolding unpushed all_references mem
  unpushed-all_references [] = refl
  unpushed-all_references (c ∷ cs) = omega (arith, unpushed-all_references cs)

  find_closure_ends : (hps : List Text) → find_closure scan_path candidates hps ≢ err out_of_fuel
  unfolding find_closure mem
  find_closure_ends hps =
      bfs_terminates (scan_hashpart scan_path candidates) (map (λ x. x.hashpart) candidates)
        (length hps + all_references scan_path candidates candidates)
        (record { closure = []; worklist = reverse hps; visited = [] }) scan_known scan_sound
        (omega (arith, length-reverse hps, unpushed-all_references candidates))

  -- Whatever the scans find, the search and the sort end within the fuel that the model gives them:
  -- the error that stands for a loop without an end is never returned.
  pub resolve_inputs_terminates :
      (hps : List Text) → resolve_inputs scan_path candidates hps ≢ err out_of_fuel
  unfolding resolve_inputs
  resolve_inputs_terminates hps h = elim (>>=-eq-err (check_inputs candidates hps) _ h) [
    | inl unknown ↦ check_inputs_sound candidates hps unknown
    | inr (_, _, later) ↦ elim (>>=-eq-err (find_closure scan_path candidates hps) _ later) [
      | inl stuck ↦ find_closure_ends hps stuck
      | inr (closure, _, sorts) ↦ topo_sort_ends closure hps sorts
    ]
  ]
