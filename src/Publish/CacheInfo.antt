-- ===== src/Publish/CacheInfo.antt =====
-- src/lib.rs: the entries nix-cache-info of a run behind an earlier one.
use narwal_publisher.Prelude.{
  ◌<◌, ◌≤◌, ◌≡◌, sym, ap, subst, ◌∙◌, List, [], ◌∷◌, some, Bytes, Text, text, ok, length,
  ok-injective,
}
use narwal_publisher.Prelude.Membership.{get}
use narwal_publisher.Manifest.{WireTreeNode, DirEntry, sort_entries}
use narwal_publisher.BlossomFetch.{Reply}
use narwal_publisher.TreeReader.RoundTrip.{Holds}
use narwal_publisher.Nhash.RoundTrip.{IsLawful}
use narwal_publisher.Nostr.{Announcement}
use narwal_publisher.Nostr.Tags.{announced}
use narwal_publisher.Publish.{PublishConfig, Entries, put_all, final_entries, values}
use narwal_publisher.Publish.Plan.{Outside, existing_entries, fetch_servers}
use narwal_publisher.Publish.Steps.{Action, Uploader}
use narwal_publisher.Publish.Merge.{IsNamed, count_name, get-put_all, cache_info_twice}
use narwal_publisher.Publish.Existing.{IsMap, put_all-IsMap}
use narwal_publisher.Publish.Lookup.{find_new-some, get-put_all-last}
use narwal_publisher.Publish.Last.{Complete}
use narwal_publisher.Publish.NextRun.{announced_entries, next_entries}

IsNamed-IsMap : (m : Entries) → IsMap m → IsNamed m
IsNamed-IsMap [] h = tt
IsNamed-IsMap ((k, e) ∷ m) h = (h.0, IsNamed-IsMap m h.2)

announced_cache_info :
    (sha256 : Bytes → Bytes) (m : Entries)
    → (x : DirEntry) × (get
          (text "nix-cache-info")
          (put_all (sort_entries (final_entries sha256 m)) [])
        ≡ some x)
unfolding final_entries
announced_cache_info sha256 m = get-put_all-last (values m) _

-- what is found before new entries are put in is found afterwards, if not the same
kept_under :
    (k : Text) (new : List DirEntry) (m : Entries) (x : DirEntry)
    → get k m ≡ some x
    → (y : DirEntry) × (get k (put_all new m) ≡ some y)
kept_under k new m x found =
    let (y, last) = find_new-some k new x in (y, get-put_all k new m ∙ rw found last)

-- Where node encoding and bech32 read back what they wrote, SHA-256 gives 32 bytes and trees are read
-- to a depth above the number of entries: when a run has announced its root event, and a later run
-- reads this event, and the tree from a first server that holds its nodes, the entries of which the
-- later run makes its tree have at least two of the name nix-cache-info, whatever entries it adds.
pub next_cache_info_twice :
    {S : Type 0} (uploader : Uploader S) (out : Outside) (config : PublishConfig)
    (before : List Action) (a : Announcement) (run : Complete uploader out config before a)
    (http_get : Text → Reply) (server : Text) (others : List Text) (later : PublishConfig)
    (existing : Entries) (new : List DirEntry)
    → ((w : WireTreeNode) → out.from_slice (out.to_vec_named w) ≡ some w)
    → ((bytes : Bytes) → length (out.codecs.sha256 bytes) ≡ 32)
    → IsLawful out.bech32
    → config.blossom_servers ≡ server ∷ others
    → Holds http_get out.hex server run.backed.nodes
    → length (announced_entries uploader out config before a run) < out.tree_depth
    → existing_entries
        (record out { http_get = http_get })
        (fetch_servers out later (some (announced a)))
        (some (announced a))
      ≡ ok existing
    → 2
      ≤ count_name (text "nix-cache-info") (final_entries out.codecs.sha256 (put_all new existing))
next_cache_info_twice uploader out config before a run http_get server others later existing new
      decodes size law servers holds deep read =
    let m = put_all run.new_entries run.run.existing in
    let same = ok-injective (
      sym (
        next_entries uploader out config before a run size http_get server others later decodes law
          servers holds deep)
      ∙ read) in
    let (x, there) = announced_cache_info out.codecs.sha256 m in
    let (y, found) =
      kept_under (text "nix-cache-info") new existing x
        (ap (get (text "nix-cache-info")) (sym same) ∙ there) in
    cache_info_twice out.codecs.sha256 (put_all new existing) y
      (IsNamed-IsMap (put_all new existing) (
        put_all-IsMap new existing (
          subst IsMap same
            (put_all-IsMap (sort_entries (final_entries out.codecs.sha256 m)) [] tt))))
      found
