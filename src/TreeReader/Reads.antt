-- ===== src/TreeReader/Reads.antt =====
-- src/tree_reader.rs: reading the levels of a tree that src/manifest.rs built, from the root down.
use mathlib.Core.Option
use mathlib.Core.Option.{some-injective}
use narwal_publisher.Prelude.{
  ℕ, zero, suc, ◌≤◌, ◌<◌, ◌+◌, ◌≡◌, refl, length-map, sym, ap, ap₂, subst, ◌∙◌, List, [], ◌∷◌, ◌++◌,
  map, map-append, append-nil, append_assoc, Option, some, Bytes, Text, arith, All,
  All-append_right, All-of_concat, All-of_map, All-append_left, length, Result, ok, err, ◌>>=◌,
  concat, ==_iff,
}
use narwal_publisher.Prelude.Chunks.{chunks, concat-chunks, length-chunks-le}
use narwal_publisher.Manifest.{
  max_links, WireTreeNode, WireLink, DirEntry, BuiltNode, blob_link, dir_link, dir_node,
  sort_entries, leaf_node, parent_node, build_levels, build_from_leaves, build_directory_tree,
  finish_tree,
}
use narwal_publisher.Manifest.Sorting.{All-sort_entries, length-sort_entries}
use narwal_publisher.Manifest.Levels.{next_level, build_levels_step}
use narwal_publisher.BlossomFetch.{FetchError}
use narwal_publisher.TreeReader.{TreeError, read_link, read_links, flatten_node, flatten_tree}

abbrev Entries : Type 0
Entries = Result TreeError (List DirEntry)

-- entries read one after the other
abbrev join : Entries → Entries → Entries
join a b = do es ← a; rest ← b; ok (es ++ rest)

join-nil_left : (b : Entries) → join (ok []) b ≡ b
join-nil_left (ok es) = refl
join-nil_left (err e) = refl

join-nil_right : (a : Entries) → join a (ok []) ≡ a
join-nil_right (ok es) = rw append-nil
join-nil_right (err e) = refl

join_assoc : (a b c : Entries) → join (join a b) c ≡ join a (join b c)
join_assoc (err e) b c = refl
join_assoc (ok es) (err e) c = refl
join_assoc (ok es) (ok fs) (err e) = refl
join_assoc (ok es) (ok fs) (ok gs) = rw append_assoc

module _ (to_vec_named : WireTreeNode → Bytes) (from_slice : Bytes → Option WireTreeNode)
    (sha256 : Bytes → Bytes) (hex : Bytes → Text) (fetcher : Text → Result FetchError Bytes)
    (decodes : (w : WireTreeNode) → from_slice (to_vec_named w) ≡ some w) where
  -- the fetcher finds the node under its hash
  abbrev pub Served : BuiltNode → Type 0
  Served b = fetcher (hex b.hash) ≡ ok b.bytes

  -- the two readers of this development, with its parameters
  abbrev visit : ℕ → Text → Result TreeError (List DirEntry)
  visit = flatten_node from_slice hex fetcher

  abbrev links :
      (Text → Result TreeError (List DirEntry)) → List WireLink → Result TreeError (List DirEntry)
  links = read_links from_slice hex fetcher

  -- a level of the tree, read through links to its nodes
  abbrev read_level : ℕ → List BuiltNode → Result TreeError (List DirEntry)
  read_level fuel level = links (visit fuel) (map dir_link level)

  read_leaf :
      (v : Text → Result TreeError (List DirEntry)) (c : List DirEntry)
      → All (λ e. length e.hash ≡ 32) c
      → links v (map blob_link c) ≡ ok c
  unfolding read_links read_link blob_link
  read_leaf v [] h = refl
  read_leaf v (e ∷ c) h = rw ((==_iff (length e.hash) 32).1 h.0, read_leaf v c h.1)

  visit_node :
      (fuel : ℕ) (wire : WireTreeNode) (hash : Bytes)
      → fetcher (hex hash) ≡ ok (to_vec_named wire)
      → visit (suc fuel) (hex hash) ≡ links (visit fuel) wire.l
  unfolding flatten_node
  visit_node fuel wire hash served = rw (served, decodes wire)

  links-append :
      (v : Text → Entries) (xs ys : List WireLink)
      → links v (xs ++ ys) ≡ join (links v xs) (links v ys)
  unfolding read_links
  links-append v [] ys = sym (join-nil_left (links v ys))
  links-append v (x ∷ xs) ys =
      ap (join (read_link from_slice hex fetcher v x)) (links-append v xs ys)
      ∙ sym (join_assoc (read_link from_slice hex fetcher v x) (links v xs) (links v ys))

  read_leaves :
      (fuel : ℕ) (cs : List (List DirEntry))
      → All (λ c. All (λ e. length e.hash ≡ 32) c) cs
      → All Served (map (leaf_node to_vec_named sha256) cs)
      → read_level (suc fuel) (map (leaf_node to_vec_named sha256) cs) ≡ ok (concat cs)
  unfolding read_links read_link dir_link leaf_node
  read_leaves fuel [] h served = refl
  read_leaves fuel (c ∷ cs) h served =
      let wire = dir_node (map blob_link c) in
      rw (
        visit_node fuel wire (sha256 (to_vec_named wire)) served.0,
        read_leaf (visit fuel) c h.0,
        read_leaves fuel cs h.1 served.1,
      )

  read_parents :
      (fuel : ℕ) (cs : List (List BuiltNode))
      → All Served (map (parent_node to_vec_named sha256) cs)
      → read_level (suc fuel) (map (parent_node to_vec_named sha256) cs)
        ≡ read_level fuel (concat cs)
  unfolding parent_node read_links read_link dir_link
  read_parents fuel [] served = refl
  read_parents fuel (c ∷ cs) served =
      let wire = dir_node (map dir_link c) in
      ap₂ join (visit_node fuel wire (sha256 (to_vec_named wire)) served.0)
        (read_parents fuel cs served.1)
      ∙ sym (
          ap (links (visit fuel)) (map-append dir_link c (concat cs))
          ∙ links-append (visit fuel) (map dir_link c) (map dir_link (concat cs)))

  read_next_level :
      (fuel : ℕ) (level : List BuiltNode)
      → All Served (next_level to_vec_named sha256 level)
      → read_level (suc fuel) (next_level to_vec_named sha256 level) ≡ read_level fuel level
  read_next_level fuel level served =
      read_parents fuel (chunks max_links level) served
      ∙ ap (read_level fuel) (concat-chunks max_links level (omega arith))

  read_one : (fuel : ℕ) (b : BuiltNode) → read_level fuel (b ∷ []) ≡ visit fuel (hex b.hash)
  unfolding read_links read_link dir_link
  read_one fuel b = join-nil_right (visit fuel (hex b.hash))

  -- Reading at any fuel from `depth` on gives `es`.
  ReadsFrom : ℕ → (ℕ → Entries) → List DirEntry → Type 0
  ReadsFrom depth read es = (fuel : ℕ) → depth ≤ fuel → read fuel ≡ ok es

  ReadsFrom-next :
      (depth : ℕ) (level : List BuiltNode) (es : List DirEntry)
      → All Served (next_level to_vec_named sha256 level)
      → ReadsFrom depth (λ f. read_level f level) es
      → ReadsFrom (suc depth) (λ f. read_level f (next_level to_vec_named sha256 level)) es
  unfolding ReadsFrom
  ReadsFrom-next depth level es served h zero deep = absurd (omega arith)
  ReadsFrom-next depth level es served h (suc fuel) deep =
      read_next_level fuel level served ∙ h fuel (omega arith)

  ReadsFrom-leaves :
      (cs : List (List DirEntry))
      → All (λ c. All (λ e. length e.hash ≡ 32) c) cs
      → All Served (map (leaf_node to_vec_named sha256) cs)
      → ReadsFrom 1 (λ f. read_level f (map (leaf_node to_vec_named sha256) cs)) (concat cs)
  unfolding ReadsFrom
  ReadsFrom-leaves cs sized served zero deep = absurd (omega arith)
  ReadsFrom-leaves cs sized served (suc fuel) deep = read_leaves fuel cs sized served

  -- The nodes built so far are among the nodes of the result.
  built-Served :
      (fuel : ℕ) (all level : List BuiltNode) (r : List BuiltNode × Bytes)
      → build_levels to_vec_named sha256 fuel all level ≡ some r
      → All Served r.0
      → All Served all
  unfolding build_levels
  built-Served zero all level r e h = cc
  built-Served (suc fuel) all [] r e h = cc
  built-Served (suc fuel) all (b ∷ []) r e h =
      subst (λ (x : List BuiltNode × Bytes). All Served x.0) (sym (some-injective _ r e)) h
  built-Served (suc fuel) all (b ∷ c ∷ level) r e h =
      All-append_left Served all (next_level to_vec_named sha256 (b ∷ c ∷ level)) (
        built-Served fuel (all ++ next_level to_vec_named sha256 (b ∷ c ∷ level))
          (next_level to_vec_named sha256 (b ∷ c ∷ level)) r
          (sym (build_levels_step to_vec_named sha256 fuel all b c level) ∙ e) h)

  root_reads :
      (fuel depth : ℕ) (all level : List BuiltNode) (r : List BuiltNode × Bytes)
      (es : List DirEntry)
      → build_levels to_vec_named sha256 fuel all level ≡ some r
      → All Served r.0
      → ReadsFrom depth (λ f. read_level f level) es
      → ReadsFrom (depth + fuel) (λ f. visit f (hex r.1)) es
  unfolding build_levels ReadsFrom
  root_reads zero depth all level r es e served h = cc
  root_reads (suc fuel) depth all [] r es e served h = cc
  root_reads (suc fuel) depth all (b ∷ []) r es e served h = λ f deep.
      ap (λ (x : List BuiltNode × Bytes). visit f (hex x.1)) (sym (some-injective _ r e))
      ∙ sym (read_one f b)
      ∙ h f (omega arith)
  root_reads (suc fuel) depth all (b ∷ c ∷ level) r es e served h =
      let next = next_level to_vec_named sha256 (b ∷ c ∷ level) in
      let step = sym (build_levels_step to_vec_named sha256 fuel all b c level) ∙ e in
      let next_served =
        All-append_right Served all next (built-Served fuel (all ++ next) next r step served) in
      λ f deep.
        root_reads fuel (suc depth) (all ++ next) next r es step served
          (ReadsFrom-next depth (b ∷ c ∷ level) es next_served h) f (omega arith)

  leaves_read :
      (cs : List (List DirEntry)) (nodes : List (Bytes × Bytes)) (root_hash : Bytes) (fuel : ℕ)
      → build_from_leaves to_vec_named sha256 (map (leaf_node to_vec_named sha256) cs)
        ≡ some (nodes, root_hash)
      → All (λ n. fetcher (hex n.1) ≡ ok n.0) nodes
      → All (λ c. All (λ e. length e.hash ≡ 32) c) cs
      → length cs < fuel
      → visit fuel (hex root_hash) ≡ ok (concat cs)
  unfolding build_from_leaves ReadsFrom read_links
  leaves_read [] nodes root_hash zero e served sized deep = absurd (omega arith)
  leaves_read [] nodes root_hash (suc fuel) e served sized deep =
      let same = some-injective _ (nodes, root_hash) e in
      let bytes = to_vec_named (dir_node []) in
      ap (λ (x : List (Bytes × Bytes) × Bytes). visit (suc fuel) (hex x.1)) (sym same)
      ∙ visit_node fuel (dir_node []) (sha256 bytes)
          (subst (λ (x : List (Bytes × Bytes) × Bytes). All (λ n. fetcher (hex n.1) ≡ ok n.0) x.0)
            (sym same) served).0
  leaves_read (c ∷ cs) nodes root_hash fuel e served sized deep =
      let leaves = map (leaf_node to_vec_named sha256) (c ∷ cs) in
      let (r, built, done) =
        (Option.map-eq-some_iff finish_tree
            (build_levels to_vec_named sha256 (length leaves) leaves leaves)).0
          e in
      let r_served =
        All-of_map (λ (n : Bytes × Bytes). fetcher (hex n.1) ≡ ok n.0)
          (λ (b : BuiltNode). (b.bytes, b.hash)) r.0
          (subst (λ (x : List (Bytes × Bytes) × Bytes). All (λ n. fetcher (hex n.1) ≡ ok n.0) x.0)
            (sym done) served) in
      ap (λ (x : List (Bytes × Bytes) × Bytes). visit fuel (hex x.1)) (sym done)
      ∙ root_reads (length leaves) 1 leaves leaves r (concat (c ∷ cs)) built r_served
          (ReadsFrom-leaves (c ∷ cs) sized
            (built-Served (length leaves) leaves leaves r built r_served))
          fuel (omega (arith, length-map (leaf_node to_vec_named sha256) (c ∷ cs)))

  -- Whatever fetcher serves the nodes, the tree is read back as its sorted entries.
  pub tree_reads :
      (entries : List DirEntry) (nodes : List (Bytes × Bytes)) (root_hash : Bytes) (fuel : ℕ)
      → build_directory_tree to_vec_named sha256 entries ≡ some (nodes, root_hash)
      → All (λ n. fetcher (hex n.1) ≡ ok n.0) nodes
      → All (λ e. length e.hash ≡ 32) entries
      → length entries < fuel
      → flatten_tree from_slice hex fetcher fuel root_hash ≡ ok (sort_entries entries)
  unfolding build_directory_tree flatten_tree
  tree_reads entries nodes root_hash fuel built served sized deep =
      let sorted = sort_entries entries in
      let slices = chunks max_links sorted in
      let whole = concat-chunks max_links sorted (omega arith) in
      let sized_slices =
        All-of_concat (λ (e : DirEntry). length e.hash ≡ 32) slices
          (rw whole (All-sort_entries (λ e. length e.hash ≡ 32) entries sized)) in
      leaves_read slices nodes root_hash fuel built served sized_slices (
        omega (arith, length-chunks-le max_links sorted (omega arith), length-sort_entries entries))
      ∙ ap ok whole
