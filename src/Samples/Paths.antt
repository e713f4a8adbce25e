-- ===== src/Samples/Paths.antt =====
-- Samples for src/closure.rs.
use narwal_publisher.Prelude.{
  ℕ, ◌<◌, ◌≡◌, ◌≢◌, refl, List, [], ◌∷◌, Option, some, Text, text, text_eq, text_eq_iff, arith, ok,
  err, if◌then◌else◌,
}
use narwal_publisher.Prelude.Membership.{mem, Has, get, insert}
use narwal_publisher.Closure.{
  ClosureEntry, Candidate, ReferenceScan, out_of_fuel, scan_hashpart, resolve_inputs, find_closure,
  topo_sort, check_inputs, bfs, references_of, hashpart_at, find_candidate, scan_candidate,
  all_references, dfs, sorted_or_err, expand, push_unvisited, scanned_references, dfs_all, emit,
}
use narwal_publisher.Closure.Resolve.{Resolved}
use narwal_publisher.Closure.Correct.{resolve_inputs_correct}
use narwal_publisher.Closure.Ending.{resolve_inputs_terminates}

abbrev app : Text
app = text "app"

abbrev lib : Text
lib = text "lib"

abbrev other : Text
other = text "other"

abbrev candidates : List Candidate
candidates =
    record { hashpart = lib; path = text "/lib" }
    ∷ record { hashpart = app; path = text "/app" }
    ∷ record { hashpart = other; path = text "/other" }
    ∷ []

-- the application refers to itself and to the library
abbrev scan_path : List Text → Text → Option ReferenceScan
unfolding text_eq
scan_path hps path = some (record {
  matches = if text_eq path (text "/app") then 0 ∷ 1 ∷ [] else [];
  nar_sha256 = path;
  nar_size = 8;
})

abbrev app_entry : ClosureEntry
app_entry = record {
  path = text "/app";
  nar_hash = text "/app";
  nar_size = 8;
  references = lib ∷ [];
}

abbrev lib_entry : ClosureEntry
lib_entry = record { path = text "/lib"; nar_hash = text "/lib"; nar_size = 8; references = [] }

app_resolved : resolve_inputs scan_path candidates (app ∷ []) ≡ ok (lib_entry ∷ app_entry ∷ [])
unfolding resolve_inputs find_closure topo_sort check_inputs bfs references_of hashpart_at
    find_candidate scan_candidate scan_hashpart all_references dfs sorted_or_err expand
    push_unvisited scanned_references dfs_all emit text_eq mem get insert
app_resolved = refl

abbrev rank : Text → ℕ
rank x = if text_eq x app then 1 else 0

no_cycle :
    (x y : Text) (e : ClosureEntry)
    → scan_hashpart scan_path candidates x ≡ ok e
    → Has e.references y
    → rank y < rank x
unfolding scan_hashpart scan_candidate find_candidate references_of hashpart_at text_eq mem
no_cycle x y e scans m = ground (arith, text_eq_iff x app, text_eq_iff y lib)

resolve_inputs_correct_example :
    Resolved (scan_hashpart scan_path candidates) (app ∷ []) (lib_entry ∷ app_entry ∷ [])
resolve_inputs_correct_example =
    resolve_inputs_correct scan_path candidates (app ∷ []) (lib_entry ∷ app_entry ∷ []) rank
      no_cycle app_resolved

resolve_inputs_terminates_example : resolve_inputs scan_path candidates (app ∷ []) ≢ err out_of_fuel
resolve_inputs_terminates_example = resolve_inputs_terminates scan_path candidates (app ∷ [])
