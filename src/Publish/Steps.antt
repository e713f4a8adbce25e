-- ===== src/Publish/Steps.antt =====
-- src/lib.rs: steps 4 to 9 of `publish`, with the uploads and the announcement as actions.
use narwal_publisher.Prelude.{
  List, [], ◌∷◌, ◌++◌, map, Bool, true, false, none, some, Bytes, Text, text, Result, ok, err,
  if◌then◌else◌,
}
use narwal_publisher.Prelude.Effects.{◌>>=◌, return, lift}
use narwal_publisher.Prelude.Membership.{get}
use narwal_publisher.StorePath.{hash_part}
use narwal_publisher.Manifest.{DirEntry, build_directory_tree}
use narwal_publisher.Nhash.{nhash_encode}
use narwal_publisher.Closure.{ClosureEntry}
use narwal_publisher.Nostr.{Announcement, NostrError, publish_cache}
use narwal_publisher.Signing.{public_key_string}
use narwal_publisher.Publish.{
  PublishConfig, PublishError, nhash_error, nostr_error, invalid_path, upload_failed,
  tree_unfinished, map_err, or_err, put_all, narinfo_name, synthesize_cache_info, final_entries,
}
use narwal_publisher.Publish.Paths.{process_path}
use narwal_publisher.Publish.Plan.{Outside, Prepared, check_and_prepare}

pub data Action : Type 0 where
  stored rejected : Bytes → Action
  announced : Announcement → Bool → Action

-- the state of the uploader, and the actions so far
pub record World (S : Type 0) : Type 0 where
  pub uploader : S
  pub actions : List Action

-- Whether `upload_bytes` succeeds, and the state that it leaves.
pub record Uploader (S : Type 0) : Type 0 where
  pub upload_bytes : Bytes → S → Bool × S

-- the event of step 9
unfoldable pub announcement : Outside → PublishConfig → Prepared → Text → Announcement
announcement out config run htree_uri = record {
  relays = config.relays;
  channel = config.channel;
  htree_uri = htree_uri;
  blossom_servers = config.blossom_servers;
  nix_sig_keys = elim run.signing_key [
    | none ↦ []
    | some sk ↦ public_key_string out.crypto sk ∷ []
  ];
}

abbrev pub is_ok : Result NostrError (Unit {0}) → Bool
is_ok (ok _) = true
is_ok (err _) = false

module _ {S : Type 0} (uploader : Uploader S) where
  -- `uploader.upload_bytes(..).await?`
  unfoldable pub upload : Bytes → World S → Result PublishError (Unit {0}) × World S
  upload bytes world =
      let (success, after) = uploader.upload_bytes bytes world.uploader in
      if success
      then (ok tt, record { uploader = after; actions = stored bytes ∷ world.actions })
      else (
        err upload_failed,
        record { uploader = after; actions = rejected bytes ∷ world.actions },
      )

  -- `if !config.dry_run`
  unfoldable pub upload_all : Bool → List Bytes → World S → Result PublishError (Unit {0}) × World S
  unfolding upload
  upload_all dry_run [] = return tt
  upload_all dry_run (bytes ∷ blobs) = elim dry_run [
    | true ↦ return tt
    | false ↦ do first ← upload bytes; upload_all false blobs
  ]

  module _ (out : Outside) (dry_run : Bool) where
    -- a path that is not in the cache
    unfoldable pub publish_path :
        Prepared → ClosureEntry → Text → Text → World S → Result PublishError DirEntry × World S
    unfolding process_path upload_all
    publish_path run entry basename name = do
      processed ← lift (process_path out run entry basename name)
      uploaded ← upload_all dry_run (processed.nar ∷ processed.narinfo ∷ [])
      return processed.entry

    -- one round of the loop over the closure: a path that is in the cache keeps its entry
    unfoldable pub publish_entry :
        Prepared → ClosureEntry → Text → World S → Result PublishError DirEntry × World S
    unfolding publish_path get narinfo_name hash_part
    publish_entry run entry basename =
        let name = narinfo_name (hash_part basename) in
        elim (get name run.existing) [
          | some known ↦ return known
          | none ↦ publish_path run entry basename name
        ]

    unfoldable pub publish_entries :
        Prepared → List ClosureEntry → World S → Result PublishError (List DirEntry) × World S
    unfolding publish_entry or_err
    publish_entries run [] = return []
    publish_entries run (entry ∷ entries) = do
      basename ← lift (or_err (out.file_name entry.path) (invalid_path entry.path))
      new ← publish_entry run entry basename
      rest ← publish_entries run entries
      return (new ∷ rest)

    -- step 9: the event, only on a run that is not dry
    unfoldable pub announce :
        PublishConfig → Prepared → Text → World S → Result PublishError (Unit {0}) × World S
    unfolding map_err announcement
    announce config run htree_uri world =
        let event = announcement out config run htree_uri in
        let sent = publish_cache (out.client run.signer) event in
        (
          map_err nostr_error sent,
          record {
            uploader = world.uploader;
            actions = announced event (is_ok sent) ∷ world.actions;
          },
        )

    unfoldable pub announce_unless_dry :
        PublishConfig → Prepared → Text → World S → Result PublishError (Unit {0}) × World S
    unfolding announce
    announce_unless_dry config run htree_uri = elim dry_run [
      | true ↦ return tt
      | false ↦ announce config run htree_uri
    ]

    -- steps 5 to 9
    unfoldable pub finish_run :
        PublishConfig
        → Prepared
        → List DirEntry
        → World S
        → Result PublishError (Unit {0}) × World S
    unfolding upload_all announce_unless_dry put_all final_entries
    finish_run config run new_entries = do
      info_uploaded ← upload_all dry_run (synthesize_cache_info ∷ [])
      tree ← lift (
          or_err
            (build_directory_tree out.to_vec_named out.codecs.sha256
              (final_entries out.codecs.sha256 (put_all new_entries run.existing)))
            tree_unfinished)
      nodes_uploaded ← upload_all dry_run (map (λ n. n.0) tree.0)
      nhash ← lift (map_err nhash_error (nhash_encode out.bech32 tree.1))
      announce_unless_dry config run (text "htree://" ++ nhash)

  unfoldable pub publish :
      Outside → PublishConfig → World S → Result PublishError (Unit {0}) × World S
  unfolding publish_entries finish_run
  publish out config = do
    run ← lift (check_and_prepare out config)
    new_entries ← publish_entries out config.dry_run run run.closure
    finish_run out config.dry_run config run new_entries
