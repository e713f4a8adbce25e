-- ===== src/Manifest.antt =====
-- src/manifest.rs: BUD-16 directory nodes and the chunked tree over them. The proofs are in the
-- modules below. `rmp_serde` and SHA-256 are parameters.
pub mod Sorting
pub mod Levels
pub mod Agreement
use narwal_publisher.Prelude.{
  ℕ, zero, suc, ◌+◌, ◌%◌, ◌^◌, List, [], ◌∷◌, ◌++◌, map, Option, none, some, Bytes, Text, ltb,
  length, head?, if◌then◌else◌,
}
use narwal_publisher.Prelude.ByteOrder.{bytes_le}
use narwal_publisher.Prelude.Chunks.{chunks}
use mathlib.Core.Option

-- const MAX_LINKS
abbrev pub max_links : ℕ
max_links = 174

pub record WireLink : Type 0 where
  pub h : Bytes
  pub n : Option Text
  pub s : ℕ
  pub t : ℕ

pub record WireTreeNode : Type 0 where
  pub l : List WireLink
  pub t : ℕ

pub record DirEntry : Type 0 where
  pub name : Text
  pub hash : Bytes
  pub size : ℕ

pub record BuiltNode : Type 0 where
  pub bytes : Bytes
  pub hash : Bytes
  pub size : ℕ

-- Link and node types of the wire format.
abbrev pub blob_type : ℕ
blob_type = 0

abbrev pub dir_type : ℕ
dir_type = 2

-- `sort_by` on the names is stable: an entry goes before the first one that is not less.
unfoldable pub insert_entry : DirEntry → List DirEntry → List DirEntry
unfolding bytes_le
insert_entry e [] = e ∷ []
insert_entry e (d ∷ ds) = if bytes_le e.name d.name then e ∷ d ∷ ds else d ∷ insert_entry e ds

unfoldable pub sort_entries : List DirEntry → List DirEntry
unfolding insert_entry
sort_entries [] = []
sort_entries (e ∷ es) = insert_entry e (sort_entries es)

-- `iter().map(|e| e.size).sum()` on u64, which wraps in a release build.
unfoldable pub total_size : List ℕ → ℕ
total_size [] = 0
total_size (s ∷ ss) = (s + total_size ss) % 2 ^ 64

unfoldable pub blob_link : DirEntry → WireLink
blob_link e = record { h = e.hash; n = some e.name; s = e.size; t = blob_type }

unfoldable pub dir_link : BuiltNode → WireLink
dir_link b = record { h = b.hash; n = none; s = b.size; t = dir_type }

abbrev pub dir_node : List WireLink → WireTreeNode
dir_node links = record { l = links; t = dir_type }

abbrev pub finish_tree : List BuiltNode × Bytes → List (Bytes × Bytes) × Bytes
finish_tree (all_nodes, root_hash) = (map (λ b. (b.bytes, b.hash)) all_nodes, root_hash)

module _ (to_vec_named : WireTreeNode → Bytes) (sha256 : Bytes → Bytes) where
  abbrev pub encode_node : WireTreeNode → ℕ → BuiltNode
  encode_node wire size =
      let bytes = to_vec_named wire in record { bytes = bytes; hash = sha256 bytes; size = size }

  -- one leaf of the tree
  unfoldable pub leaf_node : List DirEntry → BuiltNode
  unfolding blob_link total_size
  leaf_node chunk =
      encode_node (dir_node (map blob_link chunk)) (total_size (map (λ e. e.size) chunk))

  -- one directory above the leaves
  unfoldable pub parent_node : List BuiltNode → BuiltNode
  unfolding dir_link total_size
  parent_node chunk =
      encode_node (dir_node (map dir_link chunk)) (total_size (map (λ b. b.size) chunk))

  -- `while current_level.len() > 1`; `none` is fuel that ran out, or the last `expect`.
  unfoldable pub build_levels :
      ℕ → List BuiltNode → List BuiltNode → Option (List BuiltNode × Bytes)
  unfolding parent_node chunks
  build_levels zero all_nodes current_level = none
  build_levels (suc fuel) all_nodes current_level =
      let next_level = map parent_node (chunks max_links current_level) in
      let rest = build_levels fuel (all_nodes ++ next_level) next_level in
      if ltb 1 (length current_level)
      then rest
      else Option.map (λ root. (all_nodes, root.hash)) (head? current_level)

  -- `if current_level.is_empty()`, then the loop; every level has fewer nodes than the one below
  unfoldable pub build_from_leaves : List BuiltNode → Option (List (Bytes × Bytes) × Bytes)
  unfolding build_levels
  build_from_leaves [] =
      let empty = encode_node (dir_node []) 0 in some ((empty.bytes, empty.hash) ∷ [], empty.hash)
  build_from_leaves (leaf ∷ leaves) =
      Option.map finish_tree (build_levels (length (leaf ∷ leaves)) (leaf ∷ leaves) (leaf ∷ leaves))

  unfoldable pub build_directory_tree : List DirEntry → Option (List (Bytes × Bytes) × Bytes)
  unfolding build_from_leaves leaf_node sort_entries chunks
  build_directory_tree entries =
      build_from_leaves (map leaf_node (chunks max_links (sort_entries entries)))

  unfoldable pub build_directory_node : List DirEntry → Bytes × Bytes
  unfolding blob_link sort_entries
  build_directory_node entries =
      let node = encode_node (dir_node (map blob_link (sort_entries entries))) 0 in
      (node.bytes, node.hash)
