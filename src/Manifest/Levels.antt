-- ===== src/Manifest/Levels.antt =====
-- src/manifest.rs: the tree has a root, its nodes are addressed by their hashes and fit the fanout.
use mathlib.Core.Option.{some-injective}
use narwal_publisher.Prelude.{
  ℕ, zero, suc, ◌≤◌, ◌<◌, ◌≡◌, refl, ap, ◌∙◌, List, [], ◌∷◌, ◌++◌, map, some, Bytes, arith, subst,
  sym, get_last?-append, map-append, All, All-append, length, length-map, lt→ltb, get_last?,
}
use narwal_publisher.Prelude.Chunks.{chunks, length-chunks-lt, length-chunk-le, length-chunks-pos}
use narwal_publisher.Manifest.{
  max_links, WireTreeNode, DirEntry, BuiltNode, blob_link, dir_link, dir_node, sort_entries,
  leaf_node, parent_node, build_levels, finish_tree, build_from_leaves, build_directory_tree,
}

module _ (to_vec_named : WireTreeNode → Bytes) (sha256 : Bytes → Bytes) where
  -- what the code guarantees of each node that is uploaded
  pub record IsNode (node : Bytes × Bytes) : Type 0 where
    pub wire : WireTreeNode
    pub encoded : node.0 ≡ to_vec_named wire
    -- the type of a directory
    pub directory : wire.t ≡ 2
    pub addressed : node.1 ≡ sha256 node.0
    pub fanout : length wire.l ≤ max_links

  abbrev pair : BuiltNode → Bytes × Bytes
  pair b = (b.bytes, b.hash)

  leaf_node-IsNode :
      (c : List DirEntry) → length c ≤ max_links → IsNode (pair (leaf_node to_vec_named sha256 c))
  unfolding leaf_node
  leaf_node-IsNode c h = record {
    wire = dir_node (map blob_link c);
    encoded = refl;
    directory = refl;
    addressed = refl;
    fanout = omega (arith, length-map blob_link c);
  }

  parent_node-IsNode :
      (c : List BuiltNode)
      → length c ≤ max_links
      → IsNode (pair (parent_node to_vec_named sha256 c))
  unfolding parent_node
  parent_node-IsNode c h = record {
    wire = dir_node (map dir_link c);
    encoded = refl;
    directory = refl;
    addressed = refl;
    fanout = omega (arith, length-map dir_link c);
  }

  All-map-IsNode :
      {A : Type 0} (f : List A → BuiltNode) (cs : List (List A))
      → ((c : List A) → length c ≤ max_links → IsNode (pair (f c)))
      → All (λ c. length c ≤ max_links) cs
      → All (λ b. IsNode (pair b)) (map f cs)
  All-map-IsNode f [] good h = tt
  All-map-IsNode f (c ∷ cs) good h = (good c h.0, All-map-IsNode f cs good h.1)

  -- the level above
  abbrev pub next_level : List BuiltNode → List BuiltNode
  next_level level = map (parent_node to_vec_named sha256) (chunks max_links level)

  next_level-lt :
      (level : List BuiltNode) → 2 ≤ length level → length (next_level level) < length level
  next_level-lt level h = omega (
    arith,
    length-map (parent_node to_vec_named sha256) (chunks max_links level),
    length-chunks-lt max_links level (omega arith) h,
  )

  next_level-pos : (level : List BuiltNode) → 0 < length level → 0 < length (next_level level)
  next_level-pos level h = omega (
    arith,
    length-map (parent_node to_vec_named sha256) (chunks max_links level),
    length-chunks-pos max_links level h,
  )

  next_level-IsNode : (level : List BuiltNode) → All (λ b. IsNode (pair b)) (next_level level)
  next_level-IsNode level =
      All-map-IsNode (parent_node to_vec_named sha256) (chunks max_links level) parent_node-IsNode
        (length-chunk-le max_links level)

  -- one round of the loop
  pub build_levels_step :
      (fuel : ℕ) (all : List BuiltNode) (b c : BuiltNode) (level : List BuiltNode)
      → build_levels to_vec_named sha256 (suc fuel) all (b ∷ c ∷ level)
        ≡ build_levels to_vec_named sha256 fuel
            (all ++ next_level (b ∷ c ∷ level))
            (next_level (b ∷ c ∷ level))
  unfolding build_levels
  build_levels_step fuel all b c level = rw (lt→ltb 1 (length (b ∷ c ∷ level)) (omega arith))

  -- With as many rounds as nodes the loop ends with a root.
  build_levels_total :
      (fuel : ℕ) (all level : List BuiltNode)
      → 0 < length level
      → length level ≤ fuel
      → (r : List BuiltNode × Bytes) × (build_levels to_vec_named sha256 fuel all level ≡ some r)
  unfolding build_levels
  build_levels_total zero all level pos enough = absurd (omega arith)
  build_levels_total (suc fuel) all [] pos enough = absurd (omega arith)
  build_levels_total (suc fuel) all (b ∷ []) pos enough = ((all, b.hash), refl)
  build_levels_total (suc fuel) all (b ∷ c ∷ level) pos enough =
      rw (build_levels_step fuel all b c level) (
        build_levels_total fuel (all ++ next_level (b ∷ c ∷ level)) (next_level (b ∷ c ∷ level))
          (next_level-pos (b ∷ c ∷ level) (omega arith))
          (omega (arith, next_level-lt (b ∷ c ∷ level) (omega arith))))

  -- what holds of the first nodes, and of each level's nodes, holds of all nodes
  build_levels-All :
      (P : BuiltNode → Type 0)
      → ((level : List BuiltNode) → All P (next_level level))
      → (fuel : ℕ) (all level : List BuiltNode) (r : List BuiltNode × Bytes) → All P all
      → build_levels to_vec_named sha256 fuel all level ≡ some r
      → All P r.0
  unfolding build_levels
  build_levels-All P up zero all level r h e = cc
  build_levels-All P up (suc fuel) all [] r h e = cc
  build_levels-All P up (suc fuel) all (b ∷ []) r h e =
      subst (λ (x : List BuiltNode × Bytes). All P x.0) (some-injective _ r e) h
  build_levels-All P up (suc fuel) all (b ∷ c ∷ level) r h e =
      build_levels-All P up fuel (all ++ next_level (b ∷ c ∷ level)) (next_level (b ∷ c ∷ level)) r
        (All-append P all (next_level (b ∷ c ∷ level)) h (up (b ∷ c ∷ level)))
        (sym (build_levels_step fuel all b c level) ∙ e)

  -- the last node is the root
  EndsWithRoot : List BuiltNode × Bytes → Type 0
  EndsWithRoot r =
      (before : List BuiltNode) × (root : BuiltNode) × (r.0 ≡ before ++ root ∷ [])
      × (r.1 ≡ root.hash)

  build_levels-root :
      (fuel : ℕ) (before level : List BuiltNode) (r : List BuiltNode × Bytes)
      → build_levels to_vec_named sha256 fuel (before ++ level) level ≡ some r
      → EndsWithRoot r
  unfolding build_levels EndsWithRoot
  build_levels-root zero before level r e = cc
  build_levels-root (suc fuel) before [] r e = cc
  build_levels-root (suc fuel) before (b ∷ []) r e = (
    before,
    b,
    sym (ap (λ (x : List BuiltNode × Bytes). x.0) (some-injective _ r e)),
    sym (ap (λ (x : List BuiltNode × Bytes). x.1) (some-injective _ r e)),
  )
  build_levels-root (suc fuel) before (b ∷ c ∷ level) r e =
      build_levels-root fuel (before ++ b ∷ c ∷ level) (next_level (b ∷ c ∷ level)) r
        (sym (build_levels_step fuel (before ++ b ∷ c ∷ level) b c level) ∙ e)

  All-map-pair : (bs : List BuiltNode) → All (λ b. IsNode (pair b)) bs → All IsNode (map pair bs)
  All-map-pair [] h = tt
  All-map-pair (b ∷ bs) h = (h.0, All-map-pair bs h.1)

  -- the nodes to upload, and the root that is announced
  pub record IsTree (nodes : List (Bytes × Bytes)) (root_hash : Bytes) : Type 0 where
    pub valid : All IsNode nodes
    pub root_bytes : Bytes
    pub root_last : get_last? nodes ≡ some (root_bytes, root_hash)

  finish_tree-IsTree :
      (r : List BuiltNode × Bytes)
      → All (λ b. IsNode (pair b)) r.0
      → EndsWithRoot r
      → IsTree (finish_tree r).0 (finish_tree r).1
  unfolding EndsWithRoot
  finish_tree-IsTree r good (before, root, all, hash) = record {
    valid = All-map-pair r.0 good;
    root_bytes = root.bytes;
    root_last =
        rw (all, map-append, hash) (get_last?-append (map pair before) (root.bytes, root.hash));
  }

  -- what `build_from_leaves` makes of the leaves
  BuildsTree : List BuiltNode → Type 0
  BuildsTree leaves =
      (nodes : List (Bytes × Bytes)) × (root_hash : Bytes) × (build_from_leaves to_vec_named sha256
          leaves
        ≡ some (nodes, root_hash))
      × IsTree nodes root_hash

  leaves-BuildsTree :
      (leaves : List BuiltNode) → All (λ b. IsNode (pair b)) leaves → BuildsTree leaves
  unfolding build_from_leaves BuildsTree
  leaves-BuildsTree [] good =
      let wire = dir_node [] in
      let bytes = to_vec_named wire in
      (
        (bytes, sha256 bytes) ∷ [],
        sha256 bytes,
        refl,
        record {
          valid = (
            record {
              wire = wire;
              encoded = refl;
              directory = refl;
              addressed = refl;
              fanout = omega arith;
            },
            tt,
          );
          root_bytes = bytes;
          root_last = refl;
        },
      )
  leaves-BuildsTree (leaf ∷ leaves) good =
      let level = leaf ∷ leaves in
      let (r, ends) = build_levels_total (length level) level level (omega arith) (omega arith) in
      let nodes_good =
        build_levels-All (λ b. IsNode (pair b)) next_level-IsNode (length level) level level r good
          ends in
      (
        (finish_tree r).0,
        (finish_tree r).1,
        rw ends,
        finish_tree-IsTree r nodes_good (build_levels-root (length level) [] level r ends),
      )

  -- The loop of `build_directory_tree` always ends with a root. Every node to be uploaded is the
  -- encoding of a directory of at most `max_links` links under the SHA-256 of its own bytes, and
  -- the root hash is that of the last node.
  pub build_directory_tree-IsTree :
      (entries : List DirEntry)
      → (nodes : List (Bytes × Bytes)) × (root_hash : Bytes) × (build_directory_tree to_vec_named
            sha256 entries
          ≡ some (nodes, root_hash))
        × IsTree nodes root_hash
  unfolding build_directory_tree BuildsTree
  build_directory_tree-IsTree entries =
      let slices = chunks max_links (sort_entries entries) in
      leaves-BuildsTree (map (leaf_node to_vec_named sha256) slices) (
        All-map-IsNode (leaf_node to_vec_named sha256) slices leaf_node-IsNode
          (length-chunk-le max_links (sort_entries entries)))
