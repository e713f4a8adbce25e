-- ===== src/Manifest/Agreement.antt =====
-- src/manifest.rs: the tree does not depend on the order of the entries, and agrees with the single
-- node on a small directory.
use mathlib.Core.List.{Perm}
use narwal_publisher.Prelude.{◌≤◌, ◌≡◌, refl, ap, List, [], ◌∷◌, map, some, Bytes, arith, length}
use narwal_publisher.Prelude.Chunks.{chunks, chunks-single}
use narwal_publisher.Manifest.{
  max_links, WireTreeNode, DirEntry, sort_entries, leaf_node, build_from_leaves,
  build_directory_tree, build_directory_node,
}
use narwal_publisher.Manifest.Sorting.{HasDistinctNames, sort_entries_unique, length-sort_entries}

module _ (to_vec_named : WireTreeNode → Bytes) (sha256 : Bytes → Bytes) where
  -- Entries with distinct names make the same nodes and the same root in whatever order they come.
  pub build_directory_tree-perm :
      (xs ys : List DirEntry)
      → Perm xs ys
      → HasDistinctNames xs
      → build_directory_tree to_vec_named sha256 xs ≡ build_directory_tree to_vec_named sha256 ys
  unfolding build_directory_tree
  build_directory_tree-perm xs ys p distinct =
      ap
        (λ (es : List DirEntry).
          build_from_leaves to_vec_named sha256
            (map (leaf_node to_vec_named sha256) (chunks max_links es)))
        (sort_entries_unique xs ys p distinct)

  -- the node over entries that are sorted already, and the tree over them
  small_tree :
      (sorted : List DirEntry)
      → length sorted ≤ max_links
      → build_from_leaves to_vec_named sha256
          (map (leaf_node to_vec_named sha256) (chunks max_links sorted))
        ≡ some (
          (
            (leaf_node to_vec_named sha256 sorted).bytes,
            (leaf_node to_vec_named sha256 sorted).hash,
          )
              ∷ [],
          (leaf_node to_vec_named sha256 sorted).hash,
        )
  unfolding build_from_leaves leaf_node chunks
  small_tree [] fits = refl
  small_tree (e ∷ es) fits =
      ap
        (λ (cs : List (List DirEntry)).
          build_from_leaves to_vec_named sha256 (map (leaf_node to_vec_named sha256) cs))
        (chunks-single max_links e es fits)

  -- Up to `max_links` entries the tree is the one node that `build_directory_node` makes, which is
  -- also its root.
  pub build_directory_tree-eq-node :
      (entries : List DirEntry)
      → length entries ≤ max_links
      → build_directory_tree to_vec_named sha256 entries
        ≡ some (
          build_directory_node to_vec_named sha256 entries ∷ [],
          (build_directory_node to_vec_named sha256 entries).1,
        )
  unfolding build_directory_tree build_directory_node leaf_node
  build_directory_tree-eq-node entries fits =
      small_tree (sort_entries entries) (omega (arith, length-sort_entries entries))
