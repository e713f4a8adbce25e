-- ===== src/Publish/Again.antt =====
-- src/lib.rs: a run over paths that an earlier run published makes and uploads nothing for them.
use narwal_publisher.Prelude.{
  ℕ, ◌<◌, ◌≡◌, refl, sym, ap, subst, ◌∙◌, inl, inr, List, [], ◌∷◌, ◌++◌, Bool, false, Option, none,
  some, Bytes, Text, text, text_eq, text_eq_iff, Result, ok, All, length, drop, drop-append_length,
  length-append, arith, Bool-cases,
}
use mathlib.Core.Option.{some-injective}
use narwal_publisher.Prelude.Effects.{return}
use narwal_publisher.Prelude.{ok-injective}
use narwal_publisher.Prelude.Membership.{get}
use narwal_publisher.StorePath.{hash_part}
use narwal_publisher.Manifest.{WireTreeNode, DirEntry}
use narwal_publisher.BlossomFetch.{Reply}
use narwal_publisher.TreeReader.RoundTrip.{Holds}
use narwal_publisher.Nhash.RoundTrip.{IsLawful}
use narwal_publisher.Closure.{ClosureEntry}
use narwal_publisher.Nostr.{Announcement}
use narwal_publisher.Nostr.Tags.{announced}
use narwal_publisher.Publish.{PublishConfig, PublishError, Entries, or_err, narinfo_name, put_all}
use narwal_publisher.Publish.Plan.{Outside, Prepared, existing_entries, fetch_servers}
use narwal_publisher.Publish.Steps.{
  Action, Uploader, World, publish_path, publish_entry, publish_entries,
}
use narwal_publisher.Publish.Merge.{find_new, get-put_all}
use narwal_publisher.Publish.Lookup.{find_new-some}
use narwal_publisher.Publish.Existing.{IsMap, prepared-IsMap}
use narwal_publisher.Publish.Sized.{process_path_entry}
use narwal_publisher.Publish.Produced.{Entry, kept, made, Produced}
use narwal_publisher.Publish.Last.{Complete}
use narwal_publisher.Publish.NextRun.{announced_entries, next_run_reads}

-- the path's narinfo is in the map
abbrev IsCached : Outside → Entries → ClosureEntry → Type 0
IsCached out existing path =
    (b : Text) × (out.file_name path.path ≡ some b)
    × (e : DirEntry) × (get (narinfo_name (hash_part b)) existing ≡ some e)

module _ {S : Type 0} (uploader : Uploader S) (out : Outside) (dry_run : Bool)
    (run : Prepared) where
  publish_entry_cached :
      (path : ClosureEntry) (b : Text) (e : DirEntry) (s : World S)
      → get (narinfo_name (hash_part b)) run.existing ≡ some e
      → publish_entry uploader out dry_run run path b s ≡ (ok e, s)
  unfolding publish_entry
  publish_entry_cached path b e s found = go (get (narinfo_name (hash_part b)) run.existing) found
    where
      go :
          (o : Option DirEntry)
          → o ≡ some e
          → elim o as (λ _. World S → Result PublishError DirEntry × World S) [
            | some known ↦ return known
            | none ↦ publish_path uploader out dry_run run path b (narinfo_name (hash_part b))
          ]
              s
            ≡ (ok e, s)
      go (some known) same = ap (λ (d : DirEntry). (ok d, s)) (some-injective known e same)
      go none same = cc

  publish_entries_cached :
      (paths : List ClosureEntry) (s : World S)
      → All (IsCached out run.existing) paths
      → (es : List DirEntry) × (publish_entries uploader out dry_run run paths s ≡ (ok es, s))
  unfolding publish_entries or_err
  publish_entries_cached [] s h = ([], refl)
  publish_entries_cached (path ∷ paths) s h =
      let (b, named, e, found) = h.0 in
      let (es, rest) = publish_entries_cached paths s h.1 in
      (e ∷ es, rw (named, publish_entry_cached path b e s found, rest) refl)

abbrev first : Text → ℕ
first [] = 0
first (c ∷ cs) = c

-- the narinfo of a path is not nix-cache-info
narinfo_name_other : (hp : Text) → text_eq (narinfo_name hp) (text "nix-cache-info") ≡ false
unfolding narinfo_name
narinfo_name_other hp =
    elim (Bool-cases (text_eq (hp ++ text ".narinfo") (text "nix-cache-info"))) [
      | inl same ↦
          absurd (differ ((text_eq_iff (hp ++ text ".narinfo") (text "nix-cache-info")).0 same))
      | inr other ↦ other
    ]
  where
    cut : (n : ℕ) → length hp ≡ n → drop n (hp ++ text ".narinfo") ≡ text ".narinfo"
    cut n same =
        subst (λ k. drop k (hp ++ text ".narinfo") ≡ text ".narinfo") same
          (drop-append_length hp (text ".narinfo"))

    differ : hp ++ text ".narinfo" ≡ text "nix-cache-info" → ⊥
    differ same =
        let six : length hp ≡ 6 =
          omega (arith, length-append hp (text ".narinfo"), ap length same) in
        absurd (omega (arith, ap first (sym (ap (drop 6) same) ∙ cut 6 six)))

get-IsMap : (k : Text) (e : DirEntry) (m : Entries) → IsMap m → get k m ≡ some e → e.name ≡ k
unfolding get
get-IsMap k e [] h found = cc
get-IsMap k e ((j, f) ∷ m) h found = elim (Bool-cases (text_eq k j)) [
  | inl same ↦
      ap (λ (d : DirEntry). d.name) (sym (some-injective f e (rw same at found)))
      ∙ sym h.0
      ∙ sym ((text_eq_iff k j).0 same)
  | inr other ↦ get-IsMap k e m h.2 (rw other at found)
]

module _ (out : Outside) (run : Prepared) (actions : List Action) (map : IsMap run.existing) where
  -- each path of a run is cached for whoever starts from the entries that the run ended with
  Entry-named :
      (path : ClosureEntry) (e : DirEntry)
      → Entry out run actions path e
      → (b : Text) × (out.file_name path.path ≡ some b) × (e.name ≡ narinfo_name (hash_part b))
  Entry-named path e (kept b named found) = (b, named, get-IsMap _ e run.existing map found)
  Entry-named path e (made b named absent x) = (
    b,
    named,
    ap (λ (d : DirEntry). d.name) x.entry
        ∙ (process_path_entry out run path b (narinfo_name (hash_part b)) x.processed x.runs).0,
  )

  -- the last entry under the name of the path's narinfo is one of the run, whatever was there before
  IsMade : List DirEntry → ClosureEntry → Type 0
  IsMade es path =
      (b : Text) × (out.file_name path.path ≡ some b)
      × ((old : Option DirEntry)
          → (e : DirEntry) × (find_new (narinfo_name (hash_part b)) es old ≡ some e))

  All-IsMade :
      (e : DirEntry) (es : List DirEntry) (paths : List ClosureEntry)
      → All (IsMade es) paths
      → All (IsMade (e ∷ es)) paths
  unfolding IsMade
  All-IsMade e es [] h = tt
  All-IsMade e es (path ∷ paths) h =
      let (b, named, found) = h.0 in ((b, named, λ old. found _), All-IsMade e es paths h.1)

  Produced-IsMade :
      (paths : List ClosureEntry) (es : List DirEntry)
      → Produced out run actions paths es
      → All (IsMade es) paths
  unfolding IsMade
  Produced-IsMade [] [] h = tt
  Produced-IsMade [] (e ∷ es) h = absurd h
  Produced-IsMade (path ∷ paths) [] h = absurd h
  Produced-IsMade (path ∷ paths) (e ∷ es) h =
      let (b, named, same) = Entry-named path e h.0 in
      (
        (
          b,
          named,
          λ old.
              rw ((text_eq_iff (narinfo_name (hash_part b)) e.name).1 (sym same))
                (find_new-some (narinfo_name (hash_part b)) es e),
        ),
        All-IsMade e es paths (Produced-IsMade paths es h.1),
      )

  All-IsCached :
      (later : Outside) (es : List DirEntry) (existing : Entries) (paths : List ClosureEntry)
      → later.file_name ≡ out.file_name
      → ((name : Text)
          → text_eq name (text "nix-cache-info") ≡ false
          → get name existing ≡ get name (put_all es run.existing))
      → All (IsMade es) paths
      → All (IsCached later existing) paths
  unfolding IsMade
  All-IsCached later es existing [] files same h = tt
  All-IsCached later es existing (path ∷ paths) files same h =
      let (b, named, found) = h.0 in
      let name = narinfo_name (hash_part b) in
      let (e, last) = found (get name run.existing) in
      (
        (
          b,
          ap (λ (f : Text → Option Text). f path.path) files ∙ named,
          e,
          same name (narinfo_name_other (hash_part b)) ∙ get-put_all name es run.existing ∙ last,
        ),
        All-IsCached later es existing paths files same h.1,
      )

-- Where node encoding and bech32 read back what they wrote, SHA-256 gives 32 bytes and trees are read
-- to a depth above the number of entries: when a run has announced its root event, and a later run
-- with the same closure reads this event, and the tree from a first server that holds its nodes, the
-- loop of the later run over its paths succeeds and leaves its state as it was, so that no blob of a
-- path is uploaded again.
pub publish_again :
    {S T : Type 0} (uploader : Uploader S) (out : Outside) (config : PublishConfig)
    (before : List Action) (a : Announcement) (run : Complete uploader out config before a)
    (http_get : Text → Reply) (server : Text) (others : List Text) (later : PublishConfig)
    (next : Uploader T) (dry_run : Bool) (again : Prepared) (s : World T)
    → ((w : WireTreeNode) → out.from_slice (out.to_vec_named w) ≡ some w)
    → ((bytes : Bytes) → length (out.codecs.sha256 bytes) ≡ 32)
    → IsLawful out.bech32
    → config.blossom_servers ≡ server ∷ others
    → Holds http_get out.hex server run.backed.nodes
    → length (announced_entries uploader out config before a run) < out.tree_depth
    → existing_entries
        (record out { http_get = http_get })
        (fetch_servers out later (some (announced a)))
        (some (announced a))
      ≡ ok again.existing
    → again.closure ≡ run.run.closure
    → (es : List DirEntry) × (publish_entries next
          (record out { http_get = http_get })
          dry_run
          again
          again.closure
          s
        ≡ (ok es, s))
publish_again uploader out config before a run http_get server others later next dry_run again s
      decodes size law servers holds deep read same_closure =
    let (existing, found, same) =
      next_run_reads uploader out config before a run http_get server others later decodes size law
        servers holds deep in
    publish_entries_cached next (record out { http_get = http_get }) dry_run again again.closure s
      (subst (All (IsCached (record out { http_get = http_get }) again.existing)) (sym same_closure)
        (All-IsCached out run.run before (prepared-IsMap out config run.run run.prepared)
          (record out { http_get = http_get }) run.new_entries again.existing run.run.closure refl
          (λ name other. ap (get name) (ok-injective (sym read ∙ found)) ∙ same name other)
          (Produced-IsMade out run.run before (prepared-IsMap out config run.run run.prepared)
            run.run.closure run.new_entries run.produced)))
