-- ===== src/Publish/Finish.antt =====
-- src/lib.rs: the end of a run: the nodes of the tree are stored, and then the root event goes out.
use narwal_publisher.Prelude.{
  ◌≡◌, refl, ap, List, [], ◌∷◌, ◌++◌, map, Bool, true, false, some, Bytes, Text, text, Result, ok,
  err, All,
}
use narwal_publisher.Prelude.Effects.{◌>>=◌, lift, continue}
use narwal_publisher.Manifest.{DirEntry, build_directory_tree}
use narwal_publisher.Nhash.{nhash_encode}
use narwal_publisher.Nostr.{Announcement, publish_cache}
use narwal_publisher.Publish.{
  PublishConfig, PublishError, nhash_error, map_err, or_err, put_all, synthesize_cache_info,
  final_entries, tree_unfinished,
}
use narwal_publisher.Publish.Plan.{Outside, Prepared}
use narwal_publisher.Publish.Steps.{
  Action, announced, World, Uploader, upload_all, announcement, announce, announce_unless_dry,
  finish_run, is_ok,
}
use narwal_publisher.Publish.Order.{
  HasStored, IsUpload-IsStored, Grown, Grown-lift, Grown-continue, upload_all-Grown,
}
use narwal_publisher.Publish.Outcome.{
  map_err-eq-ok, or_err-eq-ok, Backed, Backed-append, Outcome, Extends, Outcome-continue, quiet,
  announces,
}
use narwal_publisher.Publish.Held.{Held, upload_all-Held}

module _ {S : Type 0} (uploader : Uploader S) where
  module _ (out : Outside) (config : PublishConfig) (run : Prepared)
      (new_entries : List DirEntry) where
    -- what holds of the event of a run that is not dry; a dry run has none
    abbrev pub Backs : Bool → List Action → Announcement → Type 0
    Backs true before a = ⊥
    Backs false before a = Backed out config run new_entries before a

    Backs-Extends : (dry_run : Bool) → Extends (Backs dry_run)
    Backs-Extends true more before a good b = absurd b
    Backs-Extends false more before a good b =
        Backed-append out config run new_entries before more a good b

    held_nodes :
        (new : List Action) (nodes : List (Bytes × Bytes))
        → All (λ b. HasStored new b) (map (λ n. n.0) nodes)
        → All (λ n. HasStored new n.0) nodes
    held_nodes new [] h = tt
    held_nodes new (n ∷ nodes) h = (h.0, held_nodes new nodes h.1)

    abbrev entries : List DirEntry
    entries = final_entries out.codecs.sha256 (put_all new_entries run.existing)

    -- the nodes are stored, and then the event goes out
    announce_tree :
        (nodes : List (Bytes × Bytes)) (root_hash : Bytes) (s t : World S)
        → build_directory_tree out.to_vec_named out.codecs.sha256 entries ≡ some (nodes, root_hash)
        → Held (map (λ n. n.0) nodes) s t
        → (r : Result PublishError Text)
        → map_err nhash_error (nhash_encode out.bech32 root_hash) ≡ r
        → Outcome (Backs false) s (
            continue
              (lift r t)
              (λ nhash. announce uploader out false config run (text "htree://" ++ nhash)))
    unfolding announce map_err
    announce_tree nodes root_hash s t built h (err e) failed =
        quiet (record { new = h.new; same = h.same; good = IsUpload-IsStored h.new h.good })
    announce_tree nodes root_hash s t built h (ok nhash) encoded =
        let event = announcement out config run (text "htree://" ++ nhash) in
        let sent = is_ok (publish_cache (out.client run.signer) event) in
        announces event sent h.new (ap (◌∷◌ (announced event sent)) h.same) (record {
          stored_only = h.good;
          nodes = nodes;
          root_hash = root_hash;
          nhash = nhash;
          built = built;
          encoded = map_err-eq-ok nhash_error (nhash_encode out.bech32 root_hash) nhash encoded;
          event = refl;
          held = held_nodes h.new nodes h.held;
        })

    -- step 7 and what follows, by whether the run is dry
    finish_tree-Outcome :
        (dry_run : Bool) (tree : List (Bytes × Bytes) × Bytes) (s : World S)
        → build_directory_tree out.to_vec_named out.codecs.sha256 entries ≡ some tree
        → Outcome (Backs dry_run) s (
            (upload_all uploader dry_run (map (λ n. n.0) tree.0) >>= λ _.
            lift (map_err nhash_error (nhash_encode out.bech32 tree.1)) >>= λ nhash.
            announce_unless_dry uploader out dry_run config run (text "htree://" ++ nhash))
              s)
    unfolding announce_unless_dry
    finish_tree-Outcome true tree s built = quiet (
        Grown-continue s (upload_all uploader true (map (λ n. n.0) tree.0) s) _
          (upload_all-Grown uploader true (map (λ n. n.0) tree.0) s)
          (λ _ t.
            Grown-continue t (map_err nhash_error (nhash_encode out.bech32 tree.1), t) _
              (Grown-lift t (map_err nhash_error (nhash_encode out.bech32 tree.1)))
              (λ nhash u. Grown-lift u (ok tt))))
    finish_tree-Outcome false (nodes, root_hash) s built =
        uploads (upload_all uploader false (map (λ n. n.0) nodes) s) refl
          (upload_all-Grown uploader false (map (λ n. n.0) nodes) s)
      where
        uploads :
            (p : Result PublishError (Unit {0}) × World S)
            → upload_all uploader false (map (λ n. n.0) nodes) s ≡ p
            → Grown s p
            → Outcome (Backs false) s (
                continue p (λ _.
                  lift (map_err nhash_error (nhash_encode out.bech32 root_hash)) >>= λ nhash.
                  announce uploader out false config run (text "htree://" ++ nhash)))
        uploads (err e, t) here g = quiet (record { new = g.new; same = g.same; good = g.good })
        uploads (ok tt, t) here g =
            announce_tree nodes root_hash s t built
              (upload_all-Held uploader (map (λ n. n.0) nodes) s t here)
              (map_err nhash_error (nhash_encode out.bech32 root_hash)) refl

    pub finish_run-Outcome :
        (dry_run : Bool) (s : World S)
        → Outcome (Backs dry_run) s (finish_run uploader out dry_run config run new_entries s)
    unfolding finish_run
    finish_run-Outcome dry_run s =
        let tree =
          or_err (build_directory_tree out.to_vec_named out.codecs.sha256 entries)
            tree_unfinished in
        Outcome-continue (Backs dry_run) s
          (upload_all uploader dry_run (synthesize_cache_info ∷ []) s) _ (Backs-Extends dry_run)
          (upload_all-Grown uploader dry_run (synthesize_cache_info ∷ []) s)
          (λ _ t _.
            Outcome-continue (Backs dry_run) t (tree, t) _ (Backs-Extends dry_run)
              (Grown-lift t tree)
              (λ built u e. finish_tree-Outcome dry_run built u (
                or_err-eq-ok (build_directory_tree out.to_vec_named out.codecs.sha256 entries)
                  tree_unfinished built e)))
