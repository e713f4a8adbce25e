-- ===== src/Publish.antt =====
-- src/lib.rs: the publish pipeline. What it does to the outside is a list of actions, the latest
-- first: a blob that the uploader stored or did not, and the root event that was announced.
pub mod Plan
pub mod Paths
pub mod Steps
pub mod Merge
pub mod Order
pub mod Outcome
pub mod Held
pub mod Produced
pub mod Made
pub mod Finish
pub mod Last
pub mod DryRun
pub mod Keeps
pub mod Existing
pub mod Lookup
pub mod Sized
pub mod NextRun
pub mod Again
pub mod CacheInfo
pub mod Uploads
pub mod Confirmed
use narwal_publisher.Prelude.{
  ℕ, List, [], ◌∷◌, ◌++◌, map, Bool, true, false, not, Option, none, some, Bytes, Text, text,
  text_eq, length, ◌==◌, Result, ok, err, if◌then◌else◌,
}
use narwal_publisher.Manifest.{DirEntry, WireTreeNode}
use narwal_publisher.Compress.{Compression, xz, zstd, uncompressed, CompressError}
use narwal_publisher.Closure.{ClosureEntry, ClosureError}
use narwal_publisher.Nostr.{NostrError}
use narwal_publisher.Nhash.{NhashError}
use narwal_publisher.TreeReader.{TreeError}
use narwal_publisher.Secrets.{SecretError}
use narwal_publisher.Nip46.Session.{PairingError}
use narwal_publisher.Nip46.Signer.{RpcError}
use narwal_publisher.Nip46.Transport.{Bunker}
use narwal_publisher.Nip46.Pairing.{PairError}
use narwal_publisher.Signing.{KeyError}
use narwal_publisher.Narinfo.{NarInfoError}

pub record PublishConfig : Type 0 where
  -- a path, and its file name where it has one
  pub store_paths : List (Text × Option Text)
  pub sec_file : Option Text
  pub bunker : Option Text
  pub qr : Bool
  pub pairing_file : Option Text
  pub bunker_relays : List Text
  pub blossom_servers : List Text
  pub relays : List Text
  pub channel : Option Text
  pub nix_sig_key : Option Text
  pub compression : Text
  pub dry_run : Bool
  pub store_dir : Text

pub data PublishError : Type 0 where
  no_store_paths : PublishError
  key_source : PublishError
  secret_error : SecretError → PublishError
  signer_error : PublishError
  pairing_error : PairingError → PublishError
  bunker_error : RpcError → PublishError
  pair_error : PairError → PublishError
  bad_store_dir : PublishError
  key_error : KeyError → PublishError
  unknown_compression : Text → PublishError
  nostr_error : NostrError → PublishError
  nhash_error : NhashError → PublishError
  tree_error : TreeError → PublishError
  closure_error : ClosureError → PublishError
  invalid_path : Text → PublishError
  hash_mismatch : Text → PublishError
  compress_error : CompressError → PublishError
  bad_basename : Text → PublishError
  narinfo_error : NarInfoError → PublishError
  upload_failed : PublishError
  -- the levels of a tree ran out, which does not happen
  tree_unfinished : PublishError

-- the signer that a key source gives
pub data Signer : Type 0 where
  local_keys : Text → Signer
  remote_signer : Bunker → Signer

unfoldable pub map_err {ℓ κ} :
    {E : Type κ} {A : Type ℓ} → (E → PublishError) → Result E A → Result PublishError A
map_err wrap (ok a) = ok a
map_err wrap (err e) = err (wrap e)

unfoldable pub or_err {ℓ} : {A : Type ℓ} → Option A → PublishError → Result PublishError A
or_err none e = err e
or_err (some a) e = ok a

unfoldable pub parse_compression : Text → Result PublishError Compression
parse_compression s =
    if text_eq s (text "xz")
    then ok xz
    else if text_eq s (text "zstd")
    then ok zstd
    else if text_eq s (text "none")
    then ok uncompressed
    else err (unknown_compression s)

-- `HashMap<String, DirEntry>`, one entry for a name
abbrev pub Entries : Type 0
Entries = List (Text × DirEntry)

unfoldable pub remove : Text → Entries → Entries
remove k [] = []
remove k ((j, e) ∷ m) = let rest = remove k m in if text_eq k j then rest else (j, e) ∷ rest

unfoldable pub put : Text → DirEntry → Entries → Entries
unfolding remove
put k e m = (k, e) ∷ remove k m

-- `for entry in entries { existing_entries.insert(entry.name.clone(), entry) }`
unfoldable pub put_all : List DirEntry → Entries → Entries
unfolding put
put_all [] m = m
put_all (e ∷ es) m = put_all es (put e.name e m)

-- `into_values().collect()`
unfoldable pub values : Entries → List DirEntry
values m = map (λ (p : Text × DirEntry). p.1) m

-- format!("{}.narinfo", hash_part(&basename)), on the hash part
unfoldable pub narinfo_name : Text → Text
narinfo_name hash_part = hash_part ++ text ".narinfo"

unfoldable pub synthesize_cache_info : Bytes
synthesize_cache_info =
    text "StoreDir: /nix/store"
    ++ (10 ∷ text "WantMassQuery: 1" ++ (10 ∷ text "Priority: 30" ++ (10 ∷ [])))

-- the entries of the tree: those of the cache and of this run, and then nix-cache-info
unfoldable pub final_entries : (Bytes → Bytes) → Entries → List DirEntry
unfolding values synthesize_cache_info
final_entries sha256 entries =
    values entries
    ++ record {
      name = text "nix-cache-info";
      hash = sha256 synthesize_cache_info;
      size = length synthesize_cache_info;
    }
      ∷ []
