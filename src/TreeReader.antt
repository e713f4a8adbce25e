-- ===== src/TreeReader.antt =====
-- src/tree_reader.rs: reading a hashtree back from Blossom, and the root hash out of an nhash URI.
-- `rmp_serde::from_slice`, `hex::encode` and the fetcher are parameters.
pub mod Reads
pub mod Sized
pub mod RoundTrip
use narwal_publisher.Prelude.{
  ℕ, zero, suc, List, [], ◌∷◌, ◌++◌, Option, none, some, Bytes, Text, length, Result, ok, err,
  ◌>>=◌, ◌==◌, if◌then◌else◌,
}
use narwal_publisher.Manifest.{DirEntry, WireLink, WireTreeNode, blob_type, dir_type}
use narwal_publisher.BlossomFetch.{FetchError}

pub data TreeError : Type 0 where
  fetch_failed : FetchError → TreeError
  undecodable : Text → TreeError
  bad_hash_length : Text → TreeError
  out_of_fuel : TreeError

-- `unwrap_or_default` on a name
unfoldable pub name_or_default : Option Text → Text
name_or_default none = []
name_or_default (some n) = n

unfoldable pub read_blob : WireLink → Result TreeError (List DirEntry)
unfolding name_or_default
read_blob link =
    let name = name_or_default link.n in
    if length link.h == 32
    then ok (record { name = name; hash = link.h; size = link.s } ∷ [])
    else err (bad_hash_length name)

unfoldable pub lift_fetch : Result FetchError Bytes → Result TreeError Bytes
lift_fetch (ok bytes) = ok bytes
lift_fetch (err e) = err (fetch_failed e)

unfoldable pub decode_or_err : Text → Option WireTreeNode → Result TreeError WireTreeNode
decode_or_err hash_hex none = err (undecodable hash_hex)
decode_or_err hash_hex (some node) = ok node

module _ (from_slice : Bytes → Option WireTreeNode) (hex : Bytes → Text)
    (fetcher : Text → Result FetchError Bytes) where
  -- `match link.t`: a blob is an entry, a directory is visited, any other type is skipped
  unfoldable pub read_link :
      (Text → Result TreeError (List DirEntry)) → WireLink → Result TreeError (List DirEntry)
  unfolding read_blob
  read_link visit link =
      if link.t == blob_type
      then read_blob link
      else if link.t == dir_type
      then visit (hex link.h)
      else ok []

  -- the loop over the links of a node
  unfoldable pub read_links :
      (Text → Result TreeError (List DirEntry)) → List WireLink → Result TreeError (List DirEntry)
  read_links visit [] = ok []
  read_links visit (link ∷ links) = do
    entries ← read_link visit link
    rest ← read_links visit links
    ok (entries ++ rest)

  -- the recursion follows the tree, whose depth the fuel bounds
  unfoldable pub flatten_node : ℕ → Text → Result TreeError (List DirEntry)
  unfolding lift_fetch decode_or_err
  flatten_node zero node_hash_hex = err out_of_fuel
  flatten_node (suc fuel) node_hash_hex = do
    bytes ← lift_fetch (fetcher node_hash_hex)
    node ← decode_or_err node_hash_hex (from_slice bytes)
    read_links (flatten_node fuel) node.l

  unfoldable pub flatten_tree : ℕ → Bytes → Result TreeError (List DirEntry)
  flatten_tree fuel root_hash = flatten_node fuel (hex root_hash)
