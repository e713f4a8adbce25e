-- ===== src/Publish/DryRun.antt =====
-- src/lib.rs: a dry run does nothing to the outside.
use narwal_publisher.Prelude.{
  ◌≡◌, inl, inr, refl, ◌∙◌, List, [], ◌∷◌, map, Bool, true, false, Bytes, Text, Result, ok, err,
  Option-cases,
}
use narwal_publisher.Prelude.Effects.{◌>>=◌, lift, continue}
use narwal_publisher.Prelude.Membership.{get}
use narwal_publisher.StorePath.{hash_part}
use narwal_publisher.Manifest.{DirEntry, build_directory_tree}
use narwal_publisher.Nhash.{nhash_encode}
use narwal_publisher.Closure.{ClosureEntry}
use narwal_publisher.Publish.{
  PublishConfig, PublishError, nhash_error, invalid_path, map_err, or_err, put_all, narinfo_name,
  synthesize_cache_info, final_entries, tree_unfinished,
}
use narwal_publisher.Publish.Plan.{Outside, Prepared, check_and_prepare}
use narwal_publisher.Publish.Paths.{process_path}
use narwal_publisher.Publish.Steps.{
  World, Uploader, upload_all, publish_path, publish_entry, publish_entries, announce_unless_dry,
  finish_run, publish,
}

module _ {S : Type 0} where
  -- the step leaves the world as it was
  record Leaves {A : Type 0} (s : World S) (p : Result PublishError A × World S) : Type 0 where
    unchanged : p.1 ≡ s

  Leaves-lift : {A : Type 0} (s : World S) (r : Result PublishError A) → Leaves s (r, s)
  Leaves-lift s r = record { unchanged = refl }

  Leaves-continue :
      {A B : Type 0} (s : World S) (p : Result PublishError A × World S)
      (next : A → World S → Result PublishError B × World S)
      → Leaves s p
      → ((a : A) (t : World S) → Leaves t (next a t))
      → Leaves s (continue p next)
  Leaves-continue s (ok a, t) next h k = record { unchanged = (k a t).unchanged ∙ h.unchanged }
  Leaves-continue s (err e, t) next h k = record { unchanged = h.unchanged }

module _ {S : Type 0} (uploader : Uploader S) where
  upload_all-Leaves :
      (blobs : List Bytes) (s : World S) → Leaves s (upload_all uploader true blobs s)
  unfolding upload_all
  upload_all-Leaves [] s = Leaves-lift s (ok tt)
  upload_all-Leaves (b ∷ blobs) s = Leaves-lift s (ok tt)

  module _ (out : Outside) (run : Prepared) where
    publish_path-Leaves :
        (entry : ClosureEntry) (basename name : Text) (s : World S)
        → Leaves s (publish_path uploader out true run entry basename name s)
    unfolding publish_path
    publish_path-Leaves entry basename name s =
        Leaves-continue s (process_path out run entry basename name, s) _
          (Leaves-lift s (process_path out run entry basename name))
          (λ processed t.
            Leaves-continue t (upload_all uploader true (processed.nar ∷ processed.narinfo ∷ []) t)
              _ (upload_all-Leaves (processed.nar ∷ processed.narinfo ∷ []) t)
              (λ _ u. Leaves-lift u (ok processed.entry)))

    publish_entry-Leaves :
        (entry : ClosureEntry) (basename : Text) (s : World S)
        → Leaves s (publish_entry uploader out true run entry basename s)
    unfolding publish_entry
    publish_entry-Leaves entry basename s =
        elim (Option-cases (get (narinfo_name (hash_part basename)) run.existing)) [
          | inl absent ↦
              rw (absent, publish_entry)
                (publish_path-Leaves entry basename (narinfo_name (hash_part basename)) s)
          | inr (known, found) ↦ rw (found, publish_entry) (Leaves-lift s (ok known))
        ]

    publish_entries-Leaves :
        (entries : List ClosureEntry) (s : World S)
        → Leaves s (publish_entries uploader out true run entries s)
    unfolding publish_entries
    publish_entries-Leaves [] s = Leaves-lift s (ok [])
    publish_entries-Leaves (entry ∷ entries) s =
        Leaves-continue s (or_err (out.file_name entry.path) (invalid_path entry.path), s) _
          (Leaves-lift s (or_err (out.file_name entry.path) (invalid_path entry.path)))
          (λ basename t.
            Leaves-continue t (publish_entry uploader out true run entry basename t) _
              (publish_entry-Leaves entry basename t)
              (λ new u.
                Leaves-continue u (publish_entries uploader out true run entries u) _
                  (publish_entries-Leaves entries u) (λ rest v. Leaves-lift v (ok (new ∷ rest)))))

    finish_run-Leaves :
        (config : PublishConfig) (new_entries : List DirEntry) (s : World S)
        → Leaves s (finish_run uploader out true config run new_entries s)
    unfolding finish_run announce_unless_dry
    finish_run-Leaves config new_entries s =
        let entries = final_entries out.codecs.sha256 (put_all new_entries run.existing) in
        let tree =
          or_err (build_directory_tree out.to_vec_named out.codecs.sha256 entries)
            tree_unfinished in
        Leaves-continue s (upload_all uploader true (synthesize_cache_info ∷ []) s) _
          (upload_all-Leaves (synthesize_cache_info ∷ []) s)
          (λ _ t.
            Leaves-continue t (tree, t) _ (Leaves-lift t tree)
              (λ built u.
                Leaves-continue u (upload_all uploader true (map (λ n. n.0) built.0) u) _
                  (upload_all-Leaves (map (λ n. n.0) built.0) u)
                  (λ _ v.
                    Leaves-continue v (map_err nhash_error (nhash_encode out.bech32 built.1), v) _
                      (Leaves-lift v (map_err nhash_error (nhash_encode out.bech32 built.1)))
                      (λ nhash w. Leaves-lift w (ok tt)))))

  publish_dry_run-Leaves :
      (out : Outside) (config : PublishConfig) (dry_run : Bool) (s : World S)
      → dry_run ≡ true
      → Leaves s (
          (lift (check_and_prepare out config) >>= λ run.
          publish_entries uploader out dry_run run run.closure >>= λ new_entries.
          finish_run uploader out dry_run config run new_entries)
            s)
  publish_dry_run-Leaves out config false s dry = cc
  publish_dry_run-Leaves out config true s dry =
      Leaves-continue s (check_and_prepare out config, s) _
        (Leaves-lift s (check_and_prepare out config))
        (λ run t.
          Leaves-continue t (publish_entries uploader out true run run.closure t) _
            (publish_entries-Leaves out run run.closure t)
            (λ new_entries u. finish_run-Leaves out run config new_entries u))

  -- A dry run uploads nothing and announces nothing, however it ends: the state of the uploader and
  -- the list of actions are those from before.
  pub publish_dry_run :
      (out : Outside) (config : PublishConfig) (s : World S)
      → config.dry_run ≡ true
      → (publish uploader out config s).1 ≡ s
  unfolding publish
  publish_dry_run out config s dry =
      (publish_dry_run-Leaves out config config.dry_run s dry).unchanged
