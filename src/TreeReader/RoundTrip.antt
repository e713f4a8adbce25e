-- ===== src/TreeReader/RoundTrip.antt =====
-- src/tree_reader.rs, src/manifest.rs: flattening a tree that was built gives its entries back.
use mathlib.Core.Option.{some-injective}
use narwal_publisher.Prelude.{
  ℕ, ◌<◌, ◌≡◌, refl, sym, ap, subst, ◌∙◌, List, [], ◌∷◌, Option, some, Bytes, Text, All, length, ok,
}
use narwal_publisher.Manifest.{WireTreeNode, DirEntry, sort_entries, build_directory_tree}
use narwal_publisher.Manifest.Levels.{IsNode, build_directory_tree-IsTree}
use narwal_publisher.BlossomFetch.{Reply, replied, blob_url, fetch}
use narwal_publisher.BlossomFetch.Laws.{fetch_decided}
use narwal_publisher.TreeReader.{flatten_tree}
use narwal_publisher.TreeReader.Reads.{tree_reads}

-- The server answers a GET of each node's address with the node.
abbrev pub Holds : (Text → Reply) → (Bytes → Text) → Text → List (Bytes × Bytes) → Type 0
Holds http_get hex server nodes =
    All (λ n. http_get (blob_url server (hex n.1)) ≡ replied 200 (some n.0)) nodes

module _ (to_vec_named : WireTreeNode → Bytes) (from_slice : Bytes → Option WireTreeNode)
    (sha256 : Bytes → Bytes) (hex : Bytes → Text) (http_get : Text → Reply)
    (decodes : (w : WireTreeNode) → from_slice (to_vec_named w) ≡ some w) where
  held_served :
      (server : Text) (others : List Text) (nodes : List (Bytes × Bytes))
      → All (IsNode to_vec_named sha256) nodes
      → Holds http_get hex server nodes
      → All (λ n. fetch http_get sha256 hex (server ∷ others) (hex n.1) ≡ ok n.0) nodes
  held_served server others [] valid holds = tt
  held_served server others (n ∷ nodes) valid holds = (
    fetch_decided http_get sha256 hex [] others server (hex n.1) 200 (some n.0) tt refl
        (ap hex (sym valid.0.addressed)) holds.0,
    held_served server others nodes valid.1 holds.1,
  )

  -- A tree that was built from entries with 32-byte hashes, and whose nodes the first server holds
  -- at their addresses, is read back as the entries in the order of their names, for every fuel
  -- above the number of entries.
  pub flatten_tree-build_directory_tree :
      (entries : List DirEntry) (nodes : List (Bytes × Bytes)) (root_hash : Bytes) (server : Text)
      (others : List Text) (fuel : ℕ)
      → build_directory_tree to_vec_named sha256 entries ≡ some (nodes, root_hash)
      → Holds http_get hex server nodes
      → All (λ e. length e.hash ≡ 32) entries
      → length entries < fuel
      → flatten_tree from_slice hex (fetch http_get sha256 hex (server ∷ others)) fuel root_hash
        ≡ ok (sort_entries entries)
  flatten_tree-build_directory_tree entries nodes root_hash server others fuel built holds sized
        deep =
      let (nodes', root', built', tree) = build_directory_tree-IsTree to_vec_named sha256 entries in
      let same = some-injective _ _ (sym built' ∙ built) in
      let valid =
        subst (λ (x : List (Bytes × Bytes) × Bytes). All (IsNode to_vec_named sha256) x.0) same
          tree.valid in
      tree_reads to_vec_named from_slice sha256 hex (fetch http_get sha256 hex (server ∷ others))
        decodes entries nodes root_hash fuel built (held_served server others nodes valid holds)
        sized deep
