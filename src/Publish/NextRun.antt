-- ===== src/Publish/NextRun.antt =====
-- src/lib.rs, src/tree_reader.rs, src/nhash.rs: what a run announces, the next run reads back.
use narwal_publisher.Prelude.{text_eq, false}
use narwal_publisher.Prelude.{
  ◌<◌, ◌≡◌, refl, sym, ap, subst, ◌∙◌, List, [], ◌∷◌, some, Bytes, Text, text, ok, All, length,
  get_last?,
}
use mathlib.Core.Option.{some-injective}
use narwal_publisher.Manifest.{WireTreeNode, DirEntry, sort_entries, build_directory_tree}
use narwal_publisher.Manifest.Levels.{IsNode, build_directory_tree-IsTree}
use narwal_publisher.BlossomFetch.{Reply, fetch}
use narwal_publisher.TreeReader.{flatten_tree}
use narwal_publisher.TreeReader.RoundTrip.{Holds, flatten_tree-build_directory_tree}
use narwal_publisher.Nhash.RoundTrip.{IsLawful, parse_nhash_uri-nhash_encode}
use narwal_publisher.Nostr.{Announcement}
use narwal_publisher.Nostr.Tags.{announced}
use narwal_publisher.Publish.{PublishConfig, Entries, map_err, put_all, final_entries}
use narwal_publisher.Publish.Plan.{Outside, existing_entries, fetch_servers}
use narwal_publisher.Publish.Steps.{Action, Uploader, announcement}
use narwal_publisher.Prelude.Membership.{get}
use narwal_publisher.Publish.Existing.{put_all-IsMap, prepared-IsMap}
use narwal_publisher.Publish.Lookup.{get-put_all-sort_entries}
use narwal_publisher.Publish.Sized.{
  final_entries-IsSized, put_all-AreSized, entries-IsSized, prepared-AreSized,
}
use narwal_publisher.Publish.Last.{Complete}

get_last?-All :
    {A : Type 0} (P : A → Type 0) (xs : List A) (x : A) → All P xs → get_last? xs ≡ some x → P x
get_last?-All P [] x h e = cc
get_last?-All P (y ∷ []) x h e = subst P (some-injective y x e) h.0
get_last?-All P (y ∷ z ∷ xs) x h e = get_last?-All P (z ∷ xs) x h.1 e

root_size :
    (to_vec_named : WireTreeNode → Bytes) (sha256 : Bytes → Bytes) (entries : List DirEntry)
    (nodes : List (Bytes × Bytes)) (root_hash : Bytes)
    → ((bytes : Bytes) → length (sha256 bytes) ≡ 32)
    → build_directory_tree to_vec_named sha256 entries ≡ some (nodes, root_hash)
    → length root_hash ≡ 32
root_size to_vec_named sha256 entries nodes root_hash size built =
    let (nodes', root', built', tree) = build_directory_tree-IsTree to_vec_named sha256 entries in
    let same = some-injective _ _ (sym built' ∙ built) in
    let last =
      get_last?-All (IsNode to_vec_named sha256) nodes' (tree.root_bytes, root') tree.valid
        tree.root_last in
    ap length (sym (ap (λ (x : List (Bytes × Bytes) × Bytes). x.1) same) ∙ last.addressed)
    ∙ size tree.root_bytes

module _ {S : Type 0} (uploader : Uploader S) (out : Outside) (config : PublishConfig)
    (before : List Action) (a : Announcement) (run : Complete uploader out config before a) where
  -- the entries of the tree that the run announced
  abbrev pub announced_entries : List DirEntry
  announced_entries = final_entries out.codecs.sha256 (put_all run.new_entries run.run.existing)

  tree_of_run :
      (size : (bytes : Bytes) → length (out.codecs.sha256 bytes) ≡ 32) (http_get : Text → Reply)
      (server : Text) (others : List Text)
      → ((w : WireTreeNode) → out.from_slice (out.to_vec_named w) ≡ some w)
      → Holds http_get out.hex server run.backed.nodes
      → length announced_entries < out.tree_depth
      → flatten_tree out.from_slice out.hex
          (fetch http_get out.codecs.sha256 out.hex (server ∷ others))
          out.tree_depth
          run.backed.root_hash
        ≡ ok (sort_entries announced_entries)
  tree_of_run size http_get server others decodes holds deep =
      flatten_tree-build_directory_tree out.to_vec_named out.from_slice out.codecs.sha256 out.hex
        http_get decodes announced_entries run.backed.nodes run.backed.root_hash server others
        out.tree_depth run.backed.built holds
        (final_entries-IsSized out.codecs.sha256 (put_all run.new_entries run.run.existing) size (
          put_all-AreSized run.new_entries run.run.existing
            (entries-IsSized out size run.run before run.run.closure run.new_entries
              (prepared-AreSized out size config run.run run.prepared) run.produced)
            (prepared-AreSized out size config run.run run.prepared)))
        deep

  -- the map of the later run
  pub next_entries :
      (size : (bytes : Bytes) → length (out.codecs.sha256 bytes) ≡ 32) (http_get : Text → Reply)
      (server : Text) (others : List Text) (later : PublishConfig)
      → ((w : WireTreeNode) → out.from_slice (out.to_vec_named w) ≡ some w)
      → IsLawful out.bech32
      → config.blossom_servers ≡ server ∷ others
      → Holds http_get out.hex server run.backed.nodes
      → length announced_entries < out.tree_depth
      → existing_entries
          (record out { http_get = http_get })
          (fetch_servers out later (some (announced a)))
          (some (announced a))
        ≡ ok (put_all (sort_entries announced_entries) [])
  unfolding existing_entries fetch_servers map_err announcement
  next_entries size http_get server others later decodes law servers holds deep =
      rw
        (
          run.backed.event,
          servers,
          parse_nhash_uri-nhash_encode out.bech32 run.backed.root_hash run.backed.nhash law
              (root_size out.to_vec_named out.codecs.sha256 announced_entries run.backed.nodes
                run.backed.root_hash size run.backed.built)
              run.backed.encoded,
          tree_of_run size http_get server others decodes holds deep,
        )
        refl

-- Where node encoding and bech32 read back what they wrote, SHA-256 gives 32 bytes and trees are read
-- to a depth above the number of entries: a run that announced its root event is read back by a later
-- run, whatever that one is to publish, to which this event is the latest root and whose first server
-- holds the nodes of the tree. The later run starts, under each name but nix-cache-info, from the
-- entry that the earlier one ended with, and from no entry where that one had none.
pub next_run_reads :
    {S : Type 0} (uploader : Uploader S) (out : Outside) (config : PublishConfig)
    (before : List Action) (a : Announcement) (run : Complete uploader out config before a)
    (http_get : Text → Reply) (server : Text) (others : List Text) (later : PublishConfig)
    → ((w : WireTreeNode) → out.from_slice (out.to_vec_named w) ≡ some w)
    → ((bytes : Bytes) → length (out.codecs.sha256 bytes) ≡ 32)
    → IsLawful out.bech32
    → config.blossom_servers ≡ server ∷ others
    → Holds http_get out.hex server run.backed.nodes
    → length (announced_entries uploader out config before a run) < out.tree_depth
    → (existing : Entries) × (existing_entries
          (record out { http_get = http_get })
          (fetch_servers out later (some (announced a)))
          (some (announced a))
        ≡ ok existing)
      × ((name : Text)
          → text_eq name (text "nix-cache-info") ≡ false
          → get name existing ≡ get name (put_all run.new_entries run.run.existing))
unfolding final_entries
next_run_reads uploader out config before a run http_get server others later decodes size law
      servers holds deep =
    (
      put_all (sort_entries (announced_entries uploader out config before a run)) [],
      next_entries uploader out config before a run size http_get server others later decodes law
          servers holds deep,
      λ name other.
          get-put_all-sort_entries name (put_all run.new_entries run.run.existing) _
            (put_all-IsMap run.new_entries run.run.existing
              (prepared-IsMap out config run.run run.prepared))
            (other, tt),
    )
