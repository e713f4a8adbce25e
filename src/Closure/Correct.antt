-- ===== src/Closure/Correct.antt =====
-- src/closure.rs: the search and the sort together.
use narwal_publisher.Prelude.{
  ℕ, ◌+◌, ◌<◌, ◌≡◌, ◌↔◌, ap, sym, subst, ◌∙◌, List, [], Option, some, Text, arith, length, Result,
  ok, >>=-eq-ok, ok-injective,
}
use mathlib.Core.List.{reverse}
use narwal_publisher.Prelude.Membership.{Has, get}
use narwal_publisher.Closure.{
  ClosureEntry, Closure, Candidate, ClosureError, ReferenceScan, resolve_inputs, find_closure,
  sorted_or_err, check_inputs, scan_hashpart, bfs, all_references,
}
use narwal_publisher.Closure.Graph.{Reach, root, step}
use narwal_publisher.Closure.Search.{bfs_correct, bfs_entry}
use narwal_publisher.Closure.Order.{IsKey, DependsOn, Emits-IsKey, IsOrdered-closed}
use narwal_publisher.Closure.Resolve.{
  Sorted, topo_sort_correct, Has-reverse, Resolved, IsScanned-Emits, IsTopological-IsOrdered,
}

-- what a finished search gives the sort
module _ (scan : Text → Result ClosureError ClosureEntry) (roots : List Text) (fuel : ℕ)
    (closure : Closure)
    (finished : bfs scan fuel (record { closure = []; worklist = reverse roots; visited = [] })
      ≡ ok closure) where
  same : (x : Text) → Has (reverse roots) x ↔ Has roots x
  same x = ground (arith, Has-reverse x roots)

  stored_scan : (x : Text) (e : ClosureEntry) → get x closure ≡ some e → scan x ≡ ok e
  stored_scan x e found =
      (bfs_entry scan roots fuel (reverse roots) closure x e same finished found).0

  stored_reached : (x : Text) (e : ClosureEntry) → get x closure ≡ some e → Reach scan roots x
  stored_reached x e found =
      (bfs_entry scan roots fuel (reverse roots) closure x e same finished found).1

  reached-IsKey : (x : Text) → Reach scan roots x → IsKey closure x
  reached-IsKey x r =
      let (e, found, k) =
        (bfs_correct scan roots fuel (reverse roots) closure x same finished).0 r in
      (e, found)

  reached_stored :
      (x : Text) (e : ClosureEntry) → Reach scan roots x → scan x ≡ ok e → get x closure ≡ some e
  reached_stored x e r scans =
      let (e', found) = reached-IsKey x r in
      found ∙ ap some (ok-injective (sym (stored_scan x e' found) ∙ scans))

  reached_depends :
      (x y : Text) (e : ClosureEntry)
      → Reach scan roots x
      → scan x ≡ ok e
      → Has e.references y
      → DependsOn closure x y
  reached_depends x y e r scans m = record {
    entry = e;
    stored = reached_stored x e r scans;
    refers = m;
    key = reached-IsKey y (step x e r scans m);
  }

  module _ (entries : List ClosureEntry) (s : Sorted closure roots entries) where
    done_reached : (x : Text) → Has s.done x → Reach scan roots x
    done_reached x m =
        let (e, found) = Emits-IsKey closure s.done entries x s.emits m in stored_reached x e found

    reached_done : {x : Text} → Reach scan roots x → Has s.done x
    reached_done (root {x} m) = s.roots_done x m (reached-IsKey x (root m))
    reached_done (step {x} u e r scans m) =
        IsOrdered-closed closure [] s.done u x s.ordered (reached_done r)
          (reached_depends u x e r scans m)

    Resolved-Sorted : Resolved scan roots entries
    Resolved-Sorted = record {
      order = s.done;
      scanned = IsScanned-Emits scan closure stored_scan s.done entries s.emits;
      topological =
          IsTopological-IsOrdered scan closure [] s.done
            (λ x y e m k n. reached_depends x y e (done_reached x m) k n) s.ordered;
      distinct = s.distinct;
      exact = λ x. (done_reached x, reached_done);
    }

module _ (scan_path : List Text → Text → Option ReferenceScan) (candidates : List Candidate) where
  -- Where the references that the scans find form no cycle, what `resolve` returns is the entry of
  -- each path that references lead to from the inputs, of no other path, once, and behind the
  -- entries of all its references.
  pub resolve_inputs_correct :
      (hps : List Text) (entries : List ClosureEntry) (rank : Text → ℕ)
      → ((x y : Text) (e : ClosureEntry)
          → scan_hashpart scan_path candidates x ≡ ok e
          → Has e.references y
          → rank y < rank x)
      → resolve_inputs scan_path candidates hps ≡ ok entries
      → Resolved (scan_hashpart scan_path candidates) hps entries
  unfolding resolve_inputs find_closure sorted_or_err
  resolve_inputs_correct hps entries rank acyclic done =
      let (_, _, rest) = >>=-eq-ok (check_inputs candidates hps) _ done in
      let (closure, finished, ends) = >>=-eq-ok (find_closure scan_path candidates hps) _ rest in
      let fuel = length hps + all_references scan_path candidates candidates in
      let (sorted, sorts, s) =
        topo_sort_correct closure rank
          (λ x y d.
            acyclic x y d.entry
              (stored_scan (scan_hashpart scan_path candidates) hps fuel closure finished x d.entry
                d.stored)
              d.refers)
          hps in
      subst (Resolved (scan_hashpart scan_path candidates) hps)
        (ok-injective (sym (ap sorted_or_err sorts) ∙ ends))
        (Resolved-Sorted (scan_hashpart scan_path candidates) hps fuel closure finished sorted s)
