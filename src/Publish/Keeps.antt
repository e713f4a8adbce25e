-- ===== src/Publish/Keeps.antt =====
-- src/lib.rs: what uploads and announcements keep of the state, a whole run keeps.
use narwal_publisher.Prelude.{
  List, [], ◌∷◌, ◌++◌, map, Bool, true, false, Option, none, some, Bytes, Text, text, Result, ok,
  err,
}
use narwal_publisher.Prelude.Effects.{continue, return}
use narwal_publisher.Prelude.Membership.{get}
use narwal_publisher.StorePath.{hash_part}
use narwal_publisher.Manifest.{DirEntry, build_directory_tree}
use narwal_publisher.Nhash.{nhash_encode}
use narwal_publisher.Closure.{ClosureEntry}
use narwal_publisher.Nostr.{Announcement}
use narwal_publisher.Publish.{
  PublishConfig, PublishError, narinfo_name, invalid_path, or_err, nhash_error, tree_unfinished,
  map_err, put_all, synthesize_cache_info, final_entries,
}
use narwal_publisher.Publish.Plan.{Outside, Prepared, check_and_prepare}
use narwal_publisher.Publish.Paths.{process_path}
use narwal_publisher.Publish.Steps.{
  announced, World, Uploader, upload, upload_all, publish_path, publish_entry, publish_entries,
  announce, announce_unless_dry, finish_run, publish,
}

module _ {S : Type 0} (P : World S → Type 0) where
  -- a step that keeps the property, whether it succeeds or not
  abbrev pub Keeps : {A : Type 0} → (World S → Result PublishError A × World S) → Type 0
  Keeps step = (s : World S) → P s → P (step s).1

  continue-Keeps :
      {A B : Type 0} (p : Result PublishError A × World S)
      (next : A → World S → Result PublishError B × World S)
      → P p.1
      → ((a : A) → Keeps (next a))
      → P (continue p next).1
  continue-Keeps (ok a, t) next h k = k a t h
  continue-Keeps (err e, t) next h k = h

  module _ (uploader : Uploader S) (out : Outside)
      (stores : (bytes : Bytes) → Keeps (upload uploader bytes))
      (announces : (a : Announcement) (sent : Bool) (s : World S)
        → P s
        → P (record { uploader = s.uploader; actions = announced a sent ∷ s.actions })) where
    upload_all-Keeps :
        (dry_run : Bool) (blobs : List Bytes) → Keeps (upload_all uploader dry_run blobs)
    unfolding upload_all
    upload_all-Keeps dry_run [] s h = h
    upload_all-Keeps true (b ∷ blobs) s h = h
    upload_all-Keeps false (b ∷ blobs) s h =
        continue-Keeps (upload uploader b s) _ (stores b s h) (λ _. upload_all-Keeps false blobs)

    module _ (dry_run : Bool) (run : Prepared) where
      publish_path-Keeps :
          (entry : ClosureEntry) (basename name : Text)
          → Keeps (publish_path uploader out dry_run run entry basename name)
      unfolding publish_path
      publish_path-Keeps entry basename name s h =
          continue-Keeps (process_path out run entry basename name, s) _ h
            (λ processed t g.
              continue-Keeps
                (upload_all uploader dry_run (processed.nar ∷ processed.narinfo ∷ []) t) _
                (upload_all-Keeps dry_run (processed.nar ∷ processed.narinfo ∷ []) t g)
                (λ _ u k. k))

      publish_entry-Keeps :
          (entry : ClosureEntry) (basename : Text)
          → Keeps (publish_entry uploader out dry_run run entry basename)
      unfolding publish_entry
      publish_entry-Keeps entry basename s h =
          go (get (narinfo_name (hash_part basename)) run.existing)
        where
          go :
              (o : Option DirEntry)
              → P
                  (elim o as (λ _. World S → Result PublishError DirEntry × World S) [
                    | some known ↦ return known
                    | none ↦
                        publish_path uploader out dry_run run entry basename
                          (narinfo_name (hash_part basename))
                  ]
                    s).1
          go (some known) = h
          go none = publish_path-Keeps entry basename (narinfo_name (hash_part basename)) s h

      publish_entries-Keeps :
          (entries : List ClosureEntry) → Keeps (publish_entries uploader out dry_run run entries)
      unfolding publish_entries
      publish_entries-Keeps [] s h = h
      publish_entries-Keeps (entry ∷ entries) s h =
          continue-Keeps (or_err (out.file_name entry.path) (invalid_path entry.path), s) _ h
            (λ basename t g.
              continue-Keeps (publish_entry uploader out dry_run run entry basename t) _
                (publish_entry-Keeps entry basename t g)
                (λ new u k.
                  continue-Keeps (publish_entries uploader out dry_run run entries u) _
                    (publish_entries-Keeps entries u k) (λ _ w l. l)))

      announce_unless_dry-Keeps :
          (config : PublishConfig) (htree_uri : Text)
          → Keeps (announce_unless_dry uploader out dry_run config run htree_uri)
      unfolding announce_unless_dry announce
      announce_unless_dry-Keeps config htree_uri s h = go dry_run
        where
          go : (dry : Bool) → P (announce_unless_dry uploader out dry config run htree_uri s).1
          go true = h
          go false = announces _ _ s h

      finish_run-Keeps :
          (config : PublishConfig) (new_entries : List DirEntry)
          → Keeps (finish_run uploader out dry_run config run new_entries)
      unfolding finish_run
      finish_run-Keeps config new_entries s h =
          continue-Keeps (upload_all uploader dry_run (synthesize_cache_info ∷ []) s) _
            (upload_all-Keeps dry_run (synthesize_cache_info ∷ []) s h)
            (λ _ t g.
              continue-Keeps
                (
                  or_err
                      (build_directory_tree out.to_vec_named out.codecs.sha256
                        (final_entries out.codecs.sha256 (put_all new_entries run.existing)))
                      tree_unfinished,
                  t,
                )
                _ g
                (λ tree u k.
                  continue-Keeps (upload_all uploader dry_run (map (λ n. n.0) tree.0) u) _
                    (upload_all-Keeps dry_run (map (λ n. n.0) tree.0) u k)
                    (λ _ v l.
                      continue-Keeps (map_err nhash_error (nhash_encode out.bech32 tree.1), v) _ l
                        (λ nhash. announce_unless_dry-Keeps config (text "htree://" ++ nhash)))))

    pub publish-Keeps : (config : PublishConfig) → Keeps (publish uploader out config)
    unfolding publish
    publish-Keeps config s h =
        continue-Keeps (check_and_prepare out config, s) _ h
          (λ run t g.
            continue-Keeps (publish_entries uploader out config.dry_run run run.closure t) _
              (publish_entries-Keeps config.dry_run run run.closure t g)
              (finish_run-Keeps config.dry_run run config))
