-- ===== src/TreeReader/Sized.antt =====
-- src/tree_reader.rs: the entries that are read from a tree have hashes of 32 bytes.
use narwal_publisher.Prelude.{
  ℕ, zero, suc, ◌≡◌, subst, List, [], ◌∷◌, Option, Bytes, Text, Result, ok, All, All-append, length,
  Bool-cases, ◌==◌, inl, inr, ok-injective, >>=-eq-ok, arith,
}
use narwal_publisher.Manifest.{WireTreeNode, WireLink, DirEntry, blob_type, dir_type}
use narwal_publisher.BlossomFetch.{FetchError}
use narwal_publisher.TreeReader.{
  TreeError, read_blob, lift_fetch, decode_or_err, read_link, read_links, flatten_node,
  flatten_tree,
}

-- the hash is one of SHA-256, by its length
abbrev pub IsSized : DirEntry → Type 0
IsSized e = length e.hash ≡ 32

read_blob-IsSized : (link : WireLink) (es : List DirEntry) → read_blob link ≡ ok es → All IsSized es
unfolding read_blob
read_blob-IsSized link es h = elim (Bool-cases (length link.h == 32)) [
  | inl sized ↦ subst (All IsSized) (ok-injective (rw sized at h)) (ground arith, tt)
  | inr other ↦ cc (rw other at h)
]

module _ (from_slice : Bytes → Option WireTreeNode) (hex : Bytes → Text)
    (fetcher : Text → Result FetchError Bytes) where
  module _ (visit : Text → Result TreeError (List DirEntry))
      (sized : (hash : Text) (es : List DirEntry) → visit hash ≡ ok es → All IsSized es) where
    read_link-IsSized :
        (link : WireLink) (es : List DirEntry)
        → read_link from_slice hex fetcher visit link ≡ ok es
        → All IsSized es
    unfolding read_link
    read_link-IsSized link es h = elim (Bool-cases (link.t == blob_type)) [
      | inl blob ↦ read_blob-IsSized link es (rw blob at h)
      | inr other ↦ elim (Bool-cases (link.t == dir_type)) [
        | inl dir ↦ sized (hex link.h) es (rw (other, dir) at h)
        | inr skipped ↦ subst (All IsSized) (ok-injective (rw (other, skipped) at h)) tt
      ]
    ]

    read_links-IsSized :
        (links : List WireLink) (es : List DirEntry)
        → read_links from_slice hex fetcher visit links ≡ ok es
        → All IsSized es
    unfolding read_links
    read_links-IsSized [] es h = subst (All IsSized) (ok-injective h) tt
    read_links-IsSized (link ∷ links) es h =
        let (first, read, e) = >>=-eq-ok (read_link from_slice hex fetcher visit link) _ h in
        let (rest, read_rest, f) = >>=-eq-ok (read_links from_slice hex fetcher visit links) _ e in
        subst (All IsSized) (ok-injective f) (
          All-append IsSized first rest (read_link-IsSized link first read)
            (read_links-IsSized links rest read_rest))

  flatten_node-IsSized :
      (fuel : ℕ) (hash : Text) (es : List DirEntry)
      → flatten_node from_slice hex fetcher fuel hash ≡ ok es
      → All IsSized es
  unfolding flatten_node
  flatten_node-IsSized zero hash es h = cc
  flatten_node-IsSized (suc fuel) hash es h =
      let (bytes, fetched, e) = >>=-eq-ok (lift_fetch (fetcher hash)) _ h in
      let (node, decoded, f) = >>=-eq-ok (decode_or_err hash (from_slice bytes)) _ e in
      read_links-IsSized (flatten_node from_slice hex fetcher fuel) (flatten_node-IsSized fuel)
        node.l es f

  -- every entry of a tree that is read has a hash of 32 bytes
  pub flatten_tree-IsSized :
      (fuel : ℕ) (root_hash : Bytes) (es : List DirEntry)
      → flatten_tree from_slice hex fetcher fuel root_hash ≡ ok es
      → All IsSized es
  unfolding flatten_tree
  flatten_tree-IsSized fuel root_hash es h = flatten_node-IsSized fuel (hex root_hash) es h
