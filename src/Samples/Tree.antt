-- ===== src/Samples/Tree.antt =====
-- Samples for src/manifest.rs, src/tree_reader.rs and src/blossom_fetch.rs.
use mathlib.Core.Option
use mathlib.Core.Option.{get_or}
use narwal_publisher.Prelude.{
  ℕ, zero, suc, ◌+◌, ◌*◌, ◌%◌, ◌≡◌, refl, List, [], ◌∷◌, some, Bytes, Text, text, text_eq, arith,
  length, replicate, All, ok, if◌then◌else◌,
}
use mathlib.Core.List
use mathlib.Core.List.{Perm}
use narwal_publisher.Manifest.{DirEntry, sort_entries, build_directory_tree, build_directory_node}
use narwal_publisher.Manifest.Sorting.{HasDistinctNames}
use narwal_publisher.Manifest.Levels.{IsTree, build_directory_tree-IsTree}
use narwal_publisher.Manifest.Agreement.{build_directory_tree-eq-node, build_directory_tree-perm}
use narwal_publisher.BlossomFetch.{Reply, replied, blob_url, fetch}
use narwal_publisher.TreeReader.{flatten_tree}
use narwal_publisher.TreeReader.RoundTrip.{Holds, flatten_tree-build_directory_tree}
use narwal_publisher.Samples.Codec.{put_node, get_node, get_node-put_node}

abbrev mix : Bytes → ℕ
mix [] = 7
mix (b ∷ bs) = (b + 31 * mix bs) % 1000003

-- 32 numbers, different for the few blobs of the samples
abbrev pub toy_sha256 : Bytes → Bytes
toy_sha256 bytes = mix bytes ∷ replicate 31 0

abbrev pub toy_hex : Bytes → Text
toy_hex bytes = bytes

abbrev pub entry : ℕ → DirEntry
entry i = record { name = i ∷ []; hash = i ∷ replicate 31 0; size = i }

-- entries n, …, 1, in falling order
abbrev pub entries_down : ℕ → List DirEntry
entries_down zero = []
entries_down (suc n) = entry (suc n) ∷ entries_down n

abbrev pub sample_entries : List DirEntry
sample_entries = entries_down 3

abbrev sample_tree : List (Bytes × Bytes) × Bytes
unfolding build_directory_tree blob_url text_eq
sample_tree = get_or (build_directory_tree put_node toy_sha256 sample_entries) ([], [])

abbrev pub server : Text
server = text "http://blossom:3000/"

-- a server that holds the nodes
abbrev serve : List (Bytes × Bytes) → Text → Reply
serve [] url = replied 404 (some [])
serve (n ∷ nodes) url =
    let rest = serve nodes url in
    if text_eq url (blob_url server (toy_hex n.1)) then replied 200 (some n.0) else rest

-- 175 entries do not fit in one node: two leaves and the root over them
one_over_max_links :
    Option.map
      (λ (t : List (Bytes × Bytes) × Bytes). length t.0)
      (build_directory_tree put_node toy_sha256 (entries_down 175))
    ≡ some 3
unfolding build_directory_tree blob_url text_eq
one_over_max_links = refl

sample_held : Holds (serve sample_tree.0) toy_hex server sample_tree.0
unfolding build_directory_tree blob_url text_eq
sample_held = (refl, tt)

sized : (n : ℕ) → All (λ e. length e.hash ≡ 32) (entries_down n)
sized zero = tt
sized (suc n) = (refl, sized n)

sample_built : build_directory_tree put_node toy_sha256 sample_entries ≡ some sample_tree
unfolding build_directory_tree blob_url text_eq
sample_built = refl

flatten_tree-build_directory_tree_example :
    flatten_tree get_node toy_hex
      (fetch (serve sample_tree.0) toy_sha256 toy_hex (server ∷ []))
      4
      sample_tree.1
    ≡ ok (sort_entries sample_entries)
unfolding build_directory_tree blob_url text_eq
flatten_tree-build_directory_tree_example =
    flatten_tree-build_directory_tree put_node get_node toy_sha256 toy_hex (serve sample_tree.0)
      get_node-put_node sample_entries sample_tree.0 sample_tree.1 server [] 4 sample_built
      sample_held (sized 3) (omega arith)

abbrev same_entries : List DirEntry
same_entries = entry 2 ∷ entry 1 ∷ entry 3 ∷ []

build_directory_tree-IsTree_example :
    (nodes : List (Bytes × Bytes)) × (root_hash : Bytes) × (build_directory_tree put_node toy_sha256
        sample_entries
      ≡ some (nodes, root_hash))
    × IsTree put_node toy_sha256 nodes root_hash
build_directory_tree-IsTree_example = build_directory_tree-IsTree put_node toy_sha256 sample_entries

build_directory_tree-eq-node_example :
    build_directory_tree put_node toy_sha256 sample_entries
    ≡ some (
      build_directory_node put_node toy_sha256 sample_entries ∷ [],
      (build_directory_node put_node toy_sha256 sample_entries).1,
    )
build_directory_tree-eq-node_example =
    build_directory_tree-eq-node put_node toy_sha256 sample_entries (omega arith)

same_entries-Perm : Perm sample_entries same_entries
same_entries-Perm = List.Perm.symm (List.perm_append_singleton (entry 3) (entry 2 ∷ entry 1 ∷ []))

sample_distinct : HasDistinctNames sample_entries
sample_distinct = (((λ h. cc), ((λ h. cc), tt)), (((λ h. cc), tt), (tt, tt)))

build_directory_tree-perm_example :
    build_directory_tree put_node toy_sha256 sample_entries
    ≡ build_directory_tree put_node toy_sha256 same_entries
build_directory_tree-perm_example =
    build_directory_tree-perm put_node toy_sha256 sample_entries same_entries same_entries-Perm
      sample_distinct
