-- ===== src/Closure.antt =====
-- src/closure.rs: the closure of the input paths by reference scanning, and its topological sort.
-- The directory listing and the scan of `nix_archive` are parameters.
pub mod Graph
pub mod Steps
pub mod SearchInv
pub mod Search
pub mod Fuel
pub mod Order
pub mod Resolve
pub mod Correct
pub mod Ending
use narwal_publisher.Prelude.{
  ℕ, zero, suc, ◌+◌, List, [], ◌∷◌, ◌++◌, map, Bool, true, false, not, Option, none, some, Bytes,
  Text, text, text_eq, length, ◌==◌, if◌then◌else◌, Result, ok, err, ◌>>=◌,
}
use narwal_publisher.Prelude.Membership.{mem, get, insert}
use narwal_publisher.StorePath.{find_dash, split_first}
use narwal_publisher.Prelude.{take}
use mathlib.Core.List.{reverse}

pub record ClosureEntry : Type 0 where
  pub path : Text
  pub nar_hash : Bytes
  pub nar_size : ℕ
  pub references : List Text

pub record Candidate : Type 0 where
  pub hashpart : Text
  pub path : Text

-- `ReferenceScan`: the indices of the candidates that occur, and the NAR's hash and size
pub record ReferenceScan : Type 0 where
  pub matches : List ℕ
  pub nar_sha256 : Bytes
  pub nar_size : ℕ

pub data ClosureError : Type 0 where
  unreadable_store : ClosureError
  bad_pattern : ClosureError
  invalid_path : Text → ClosureError
  not_in_store : Text → ClosureError
  scan_failed : Text → ClosureError
  -- a panic of the code: an index out of bounds, a key that is not in the map
  panic : ClosureError
  out_of_fuel : ClosureError

-- the separator of `Path::join`, which a path has that is empty or ends in one
unfoldable pub separator : Text → Text
separator [] = []
separator (c ∷ []) = if c == b'/' then [] else text "/"
separator (c ∷ d ∷ cs) = separator (d ∷ cs)

-- `entry.path()`: the name joined to the directory that was read
unfoldable pub join_path : Text → Text → Text
unfolding separator
join_path store_dir name = store_dir ++ separator store_dir ++ name

-- one round of the loop of `read_store_candidates`: the candidates of a name, one or none
unfoldable pub candidate_of : Text → Text → List Candidate
unfolding find_dash join_path
candidate_of store_dir name = elim (find_dash name) [
  | none ↦ []
  | some idx ↦
      let hashpart = take idx name in
      if length hashpart == 32
      then record { hashpart = hashpart; path = join_path store_dir name } ∷ []
      else []
]

-- the listing: `none` for an entry that cannot be read, which ends the loop by `?`
unfoldable pub read_entries : Text → List (Option Text) → Result ClosureError (List Candidate)
unfolding candidate_of
read_entries store_dir [] = ok []
read_entries store_dir (none ∷ names) = err unreadable_store
read_entries store_dir (some name ∷ names) = do
  rest ← read_entries store_dir names
  ok (candidate_of store_dir name ++ rest)

unfoldable pub read_store_candidates :
    Text → Option (List (Option Text)) → Result ClosureError (List Candidate)
unfolding read_entries
read_store_candidates store_dir none = err unreadable_store
read_store_candidates store_dir (some names) = read_entries store_dir names

-- `hashpart_to_idx` and the candidate at that index: collecting into a map keeps the last of
-- several candidates with one hash part
unfoldable pub find_candidate : Text → List Candidate → Option Candidate
find_candidate hp [] = none
find_candidate hp (c ∷ cs) = elim (find_candidate hp cs) [
  | some later ↦ some later
  | none ↦ if text_eq hp c.hashpart then some c else none
]

-- `candidates[i].hashpart` for each match, less the path itself
unfoldable pub hashpart_at : List Candidate → ℕ → Result ClosureError Text
hashpart_at [] i = err panic
hashpart_at (c ∷ cs) zero = ok c.hashpart
hashpart_at (c ∷ cs) (suc i) = hashpart_at cs i

unfoldable pub references_of : Text → List Candidate → List ℕ → Result ClosureError (List Text)
unfolding hashpart_at
references_of hp candidates [] = ok []
references_of hp candidates (i ∷ matches) = do
  found ← hashpart_at candidates i
  rest ← references_of hp candidates matches
  ok (if text_eq found hp then rest else found ∷ rest)

-- The input paths: the file name of each, `none` where a path has none.
unfoldable pub input_hashparts_of : List (Text × Option Text) → Result ClosureError (List Text)
input_hashparts_of [] = ok []
input_hashparts_of ((path, none) ∷ inputs) = err (invalid_path path)
input_hashparts_of ((path, some name) ∷ inputs) = do
  rest ← input_hashparts_of inputs
  ok (split_first name ∷ rest)

-- `for (i, hp) in input_hashparts`: every input must be a candidate
unfoldable pub check_inputs : List Candidate → List Text → Result ClosureError (Unit {0})
unfolding find_candidate
check_inputs candidates [] = ok tt
check_inputs candidates (hp ∷ hps) = elim (find_candidate hp candidates) [
  | none ↦ err (not_in_store hp)
  | some c ↦ check_inputs candidates hps
]

abbrev pub Closure : Type 0
Closure = List (Text × ClosureEntry)

-- `closure`, `worklist` (its end, where it is pushed and popped, first) and `visited`
pub record Bfs : Type 0 where
  pub closure : Closure
  pub worklist : List Text
  pub visited : List Text

-- `for ref_hp in &references`: what is not visited is pushed
unfoldable pub push_unvisited : List Text → List Text → List Text → List Text
push_unvisited visited [] worklist = worklist
push_unvisited visited (r ∷ rs) worklist =
    push_unvisited visited rs (if mem r visited then worklist else r ∷ worklist)

-- `scan` is the scan of one hash part: its candidate's path, NAR hash and size, and references
module _ (scan : Text → Result ClosureError ClosureEntry) where
  -- what a round does with a hash part that was not visited before
  unfoldable pub expand : Text → List Text → Bfs → Result ClosureError Bfs
  unfolding push_unvisited
  expand hp rest s = do
    let visited = hp ∷ s.visited
    entry ← scan hp
    ok (record {
      closure = insert hp entry s.closure;
      worklist = push_unvisited visited entry.references rest;
      visited = visited;
    })

  unfoldable pub bfs : ℕ → Bfs → Result ClosureError Closure
  unfolding expand
  bfs zero s = elim s.worklist [ [] ↦ ok s.closure | _ ∷ _ ↦ err out_of_fuel ]
  bfs (suc fuel) s = elim s.worklist [
    | [] ↦ ok s.closure
    | hp ∷ rest ↦ elim (mem hp s.visited) [
      | true ↦ bfs fuel (record s { worklist = rest })
      | false ↦ expand hp rest s >>= bfs fuel
    ]
  ]

-- The depth-first visit: the hash parts visited and the entries emitted, `none` when the fuel runs out.
abbrev pub Dfs : Type 0
Dfs = List Text × List ClosureEntry

-- `for ref_hp in &entry.references { dfs(..)?; }`
unfoldable pub dfs_all : (Text → Dfs → Option Dfs) → List Text → Dfs → Option Dfs
dfs_all visit [] s = some s
dfs_all visit (hp ∷ hps) s = elim (visit hp s) [ none ↦ none | some s' ↦ dfs_all visit hps s' ]

unfoldable pub emit : ClosureEntry → Option Dfs → Option Dfs
emit entry none = none
emit entry (some (visited, result)) = some (visited, result ++ entry ∷ [])

unfoldable pub dfs : ℕ → Closure → Text → Dfs → Option Dfs
unfolding dfs_all emit
dfs zero closure hp s = none
dfs (suc fuel) closure hp (visited, result) = elim (mem hp visited) [
  | true ↦ some (visited, result)
  | false ↦ elim (get hp closure) [
    | none ↦ some (hp ∷ visited, result)
    | some entry ↦ emit entry (dfs_all (dfs fuel closure) entry.references (hp ∷ visited, result))
  ]
]

-- a visit goes no deeper than there are entries in the closure
unfoldable pub topo_sort : Closure → List Text → Option (List ClosureEntry)
unfolding dfs
topo_sort closure roots = elim (dfs_all (dfs (suc (length closure)) closure) roots ([], [])) [
  | none ↦ none
  | some (visited, result) ↦ some result
]

unfoldable pub sorted_or_err : Option (List ClosureEntry) → Result ClosureError (List ClosureEntry)
sorted_or_err none = err out_of_fuel
sorted_or_err (some entries) = ok entries

unfoldable pub scanned_references : Result ClosureError ClosureEntry → ℕ
scanned_references (ok entry) = length entry.references
scanned_references (err e) = 0

-- `pattern_ok` is `ReferencePattern::new` on the candidates' hash parts
unfoldable pub check_pattern : (List Text → Bool) → List Candidate → Result ClosureError (Unit {0})
check_pattern pattern_ok candidates =
    if pattern_ok (map (λ x. x.hashpart) candidates) then ok tt else err bad_pattern

unfoldable pub scan_candidate :
    List Candidate → Text → Candidate → Option ReferenceScan → Result ClosureError ClosureEntry
unfolding references_of
scan_candidate candidates hp c none = err (scan_failed c.path)
scan_candidate candidates hp c (some found) = do
  references ← references_of hp candidates found.matches
  ok (record {
    path = c.path;
    nar_hash = found.nar_sha256;
    nar_size = found.nar_size;
    references = references;
  })

-- `scan_path` on the pattern's hash parts and a path
module _ (scan_path : List Text → Text → Option ReferenceScan) where
  unfoldable pub scan_hashpart : List Candidate → Text → Result ClosureError ClosureEntry
  unfolding scan_candidate find_candidate
  scan_hashpart candidates hp = elim (find_candidate hp candidates) [
    | none ↦ err panic
    | some c ↦ scan_candidate candidates hp c (scan_path (map (λ x. x.hashpart) candidates) c.path)
  ]

  -- the rounds of the search: one for each input, and one for each reference of a candidate
  unfoldable pub all_references : List Candidate → List Candidate → ℕ
  unfolding scan_hashpart scanned_references
  all_references candidates [] = 0
  all_references candidates (c ∷ cs) =
      scanned_references (scan_hashpart candidates c.hashpart) + all_references candidates cs

  -- the search from the input hash parts; `worklist.pop()` takes the last of them first
  unfoldable pub find_closure : List Candidate → List Text → Result ClosureError Closure
  unfolding bfs scan_hashpart all_references
  find_closure candidates hps =
      bfs (scan_hashpart candidates) (length hps + all_references candidates candidates)
        (record { closure = []; worklist = reverse hps; visited = [] })

  unfoldable pub resolve_inputs :
      List Candidate → List Text → Result ClosureError (List ClosureEntry)
  unfolding find_closure topo_sort sorted_or_err check_inputs
  resolve_inputs candidates hps = do
    checked ← check_inputs candidates hps
    closure ← find_closure candidates hps
    sorted_or_err (topo_sort closure hps)

  unfoldable pub resolve :
      (List Text → Bool)
      → List (Text × Option Text)
      → Text
      → Option (List (Option Text))
      → Result ClosureError (List ClosureEntry)
  unfolding read_store_candidates check_pattern input_hashparts_of resolve_inputs
  resolve pattern_ok [] store_dir listing = ok []
  resolve pattern_ok (input ∷ inputs) store_dir listing = do
    candidates ← read_store_candidates store_dir listing
    pattern_built ← check_pattern pattern_ok candidates
    hps ← input_hashparts_of (input ∷ inputs)
    resolve_inputs candidates hps
