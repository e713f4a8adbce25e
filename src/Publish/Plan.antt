-- ===== src/Publish/Plan.antt =====
-- src/lib.rs: what `publish` reads before it processes a path: the key source, the signing key, the
-- newest root event, the tree it names and the closure of the inputs.
use narwal_publisher.Prelude.{
  ℕ, List, [], ◌∷◌, Bool, true, false, Option, none, some, Bytes, Text, Result, ok, err, ◌>>=◌,
  if◌then◌else◌,
}
use narwal_publisher.Manifest.{WireTreeNode}
use narwal_publisher.BlossomFetch.{Reply, fetch}
use narwal_publisher.TreeReader.{flatten_tree}
use narwal_publisher.Nhash.{Bech32, parse_nhash_uri}
use narwal_publisher.Closure.{ClosureEntry, ReferenceScan, resolve}
use narwal_publisher.Compress.{Codecs, Compression}
use narwal_publisher.Narinfo.{NarInfoCrate}
use narwal_publisher.Nostr.{Client, RootEvent, fetch_latest_root}
use narwal_publisher.Secrets.{FileSystem, read_secret_file}
use narwal_publisher.Signing.{Crypto, SigningKeyPair, from_secret_file}
use narwal_publisher.Nip46.Session.{SerdeJson, default_pairing_file}
use narwal_publisher.Nip46.Signer.{RpcError}
use narwal_publisher.Nip46.Transport.{Network, Bunker}
use narwal_publisher.Nip46.Bunker.{KeyCrate, new}
use narwal_publisher.Nip46.Operations.{user_public_key}
use narwal_publisher.Nip46.Pairing.{PairError, Ceremony}
use narwal_publisher.Nip46.Pairing.Reuse.{pair_via_qr}
use narwal_publisher.Publish.{
  PublishConfig, PublishError, no_store_paths, key_source, secret_error, signer_error,
  pairing_error, bad_store_dir, key_error, nostr_error, nhash_error, tree_error, closure_error,
  bunker_error, pair_error, Signer, local_keys, remote_signer, map_err, or_err, parse_compression,
  Entries, put_all,
}

-- The world outside during one run: the crates, the operating system and the network. `network`,
-- `key_crate`, `serde_json` and `ceremony` are those of src/nip46.
pub record Outside : Type 0 where
  pub files : FileSystem
  pub keys_parse : Text → Bool
  -- the environment variable HOME
  pub home : Option Text
  pub parent : Text → Option Text
  pub local_public_key : Text → Option Text
  pub network : Network
  pub key_crate : KeyCrate
  pub serde_json : SerdeJson
  pub ceremony : Ceremony
  pub client : Signer → Client
  pub store_dir_new : Text → Option Text
  pub http_get : Text → Reply
  pub from_slice : Bytes → Option WireTreeNode
  pub to_vec_named : WireTreeNode → Bytes
  pub hex : Bytes → Text
  pub bech32 : Bech32
  pub listing : Option (List (Option Text))
  pub pattern_ok : List Text → Bool
  pub scan_path : List Text → Text → Option ReferenceScan
  pub file_name : Text → Option Text
  pub from_basename : Text → Option Text
  pub codecs : Codecs
  pub crypto : Crypto
  pub narinfo : NarInfoCrate
  -- no tree that the servers hold is deeper
  pub tree_depth : ℕ

-- what the run knows when it starts on the paths
pub record Prepared : Type 0 where
  pub signer : Signer
  pub store_dir : Text
  pub signing_key : Option SigningKeyPair
  pub compression : Compression
  pub existing : Entries
  pub closure : List ClosureEntry

module _ (out : Outside) where
  unfoldable pub local_signer : Text → Result PublishError (Signer × FileSystem)
  local_signer path = do
    contents ← map_err secret_error (read_secret_file out.files path)
    if out.keys_parse contents then ok (local_keys contents, out.files) else err signer_error

  unfoldable pub pairing_file_of : Option Text → Result PublishError Text
  unfolding map_err
  pairing_file_of (some p) = ok p
  pairing_file_of none = map_err pairing_error (default_pairing_file out.home)

  unfoldable pub from_pairing :
      Result PairError Bunker × FileSystem → Result PublishError (Signer × FileSystem)
  from_pairing (ok bunker, files) = ok (remote_signer bunker, files)
  from_pairing (err e, files) = err (pair_error e)

  unfoldable pub qr_signer : List Text → Option Text → Result PublishError (Signer × FileSystem)
  unfolding pairing_file_of from_pairing pair_via_qr
  qr_signer relays flagged = do
    pairing_file ← pairing_file_of flagged
    from_pairing (
        pair_via_qr out.network out.key_crate out.serde_json out.ceremony relays
          (record { name = pairing_file; parent = out.parent pairing_file }) out.files)

  unfoldable pub bunker_signer : Text → Result PublishError (Signer × FileSystem)
  unfolding map_err new
  bunker_signer url = do
    bunker ← map_err bunker_error (new out.key_crate url)
    ok (remote_signer bunker, out.files)

  -- `match (&config.sec_file, &config.bunker, config.qr)`; the files are those after a pairing
  unfoldable pub match_source :
      List Text
      → Option Text
      → Option Text
      → Option Text
      → Bool
      → Result PublishError (Signer × FileSystem)
  unfolding local_signer bunker_signer qr_signer
  match_source relays flagged (some path) none false = local_signer path
  match_source relays flagged none (some url) false = bunker_signer url
  match_source relays flagged none none true = qr_signer relays flagged
  match_source relays flagged _ _ _ = err key_source

  unfoldable pub choose_signer : PublishConfig → Result PublishError (Signer × FileSystem)
  unfolding match_source
  choose_signer config =
      match_source config.bunker_relays config.pairing_file config.sec_file config.bunker config.qr

  abbrev pub found_key : Result RpcError Text × Bunker → Result PublishError (Text × Signer)
  found_key (ok pk, bunker) = ok (pk, remote_signer bunker)
  found_key (err e, bunker) = err (bunker_error e)

  -- `signer.get_public_key()`, and the signer behind it
  unfoldable pub author_of : Signer → Result PublishError (Text × Signer)
  unfolding or_err user_public_key
  author_of (local_keys contents) = do
    pk ← or_err (out.local_public_key contents) signer_error
    ok (pk, local_keys contents)
  author_of (remote_signer bunker) = found_key (user_public_key out.network bunker)

  unfoldable pub load_signing_key :
      FileSystem → Option Text → Result PublishError (Option SigningKeyPair)
  unfolding map_err
  load_signing_key files none = ok none
  load_signing_key files (some path) = do
    pair ← map_err key_error (from_secret_file out.crypto files path)
    ok (some pair)

  -- the servers of the root event, unless it names none
  unfoldable pub fetch_servers : PublishConfig → Option RootEvent → List Text
  fetch_servers config none = config.blossom_servers
  fetch_servers config (some root) = elim root.blossom_servers [
    | [] ↦ config.blossom_servers
    | s ∷ ss ↦ s ∷ ss
  ]

  unfoldable pub existing_entries : List Text → Option RootEvent → Result PublishError Entries
  unfolding map_err put_all
  existing_entries servers none = ok []
  existing_entries servers (some root) = do
    root_hash ← map_err nhash_error (parse_nhash_uri out.bech32 root.htree_uri)
    entries ← map_err tree_error (
        flatten_tree out.from_slice out.hex (fetch out.http_get out.codecs.sha256 out.hex servers)
          out.tree_depth root_hash)
    ok (put_all entries [])

  -- steps 1 to 3 of `publish`
  unfoldable pub prepare : PublishConfig → Result PublishError Prepared
  unfolding choose_signer author_of load_signing_key existing_entries map_err or_err
  prepare config = do
    chosen ← choose_signer config
    store_dir ← or_err (out.store_dir_new config.store_dir) bad_store_dir
    signing_key ← load_signing_key chosen.1 config.nix_sig_key
    compression ← parse_compression config.compression
    author ← author_of chosen.0
    root ← map_err nostr_error (
        fetch_latest_root (out.client author.1)
          (record { relays = config.relays; channel = config.channel; author = some author.0 }))
    existing ← existing_entries (fetch_servers config root) root
    closure ←
        map_err closure_error
          (resolve out.scan_path out.pattern_ok config.store_paths config.store_dir out.listing)
    ok (record {
      signer = author.1;
      store_dir = store_dir;
      signing_key = signing_key;
      compression = compression;
      existing = existing;
      closure = closure;
    })

  -- `if config.store_paths.is_empty()` comes first
  unfoldable pub check_and_prepare : PublishConfig → Result PublishError Prepared
  unfolding prepare
  check_and_prepare config = elim config.store_paths [
    | [] ↦ err no_store_paths
    | p ∷ ps ↦ prepare config
  ]
