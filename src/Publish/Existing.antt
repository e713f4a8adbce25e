-- ===== src/Publish/Existing.antt =====
-- src/lib.rs: the map of entries that a run starts with, which has each name once.
use narwal_publisher.Prelude.{
  ◌≡◌, refl, ap, subst, ◌∙◌, List, [], ◌∷◌, Option, none, some, Text, Result, ok, err, ok-injective,
  >>=-eq-ok, Bool-cases, inl, inr, text_eq, text_eq_iff, arith,
}
use narwal_publisher.Prelude.Membership.{get}
use narwal_publisher.Manifest.{DirEntry}
use narwal_publisher.Nhash.{parse_nhash_uri}
use narwal_publisher.BlossomFetch.{fetch}
use narwal_publisher.TreeReader.{flatten_tree}
use narwal_publisher.Closure.{resolve}
use narwal_publisher.Nostr.{RootEvent, fetch_latest_root}
use narwal_publisher.Publish.{
  PublishConfig, PublishError, Entries, put, put_all, remove, map_err, or_err, nhash_error,
  tree_error, parse_compression, bad_store_dir, nostr_error, closure_error, no_store_paths,
}
use narwal_publisher.Publish.Plan.{
  Outside, Prepared, existing_entries, prepare, check_and_prepare, choose_signer, author_of,
  load_signing_key, fetch_servers,
}
use narwal_publisher.Publish.Merge.{get-remove}

-- each entry is under its own name, and no name is there twice
abbrev pub IsMap : Entries → Type 0
IsMap [] = Unit
IsMap ((k, e) ∷ m) = (k ≡ e.name) × (get k m ≡ none) × IsMap m

remove-IsMap : (k : Text) (m : Entries) → IsMap m → IsMap (remove k m)
unfolding remove
remove-IsMap k [] h = tt
remove-IsMap k ((j, e) ∷ m) h = elim (Bool-cases (text_eq k j)) [
  | inl same ↦ rw same (remove-IsMap k m h.2)
  | inr other ↦ rw other (h.0, ground (arith, get-remove j k m, h.1), remove-IsMap k m h.2)
]

pub put_all-IsMap : (es : List DirEntry) (m : Entries) → IsMap m → IsMap (put_all es m)
unfolding put_all put
put_all-IsMap [] m h = h
put_all-IsMap (e ∷ es) m h = put_all-IsMap es (put e.name e m) (
  refl,
  ground (arith, get-remove e.name e.name m, text_eq_iff e.name e.name),
  remove-IsMap e.name m h,
)

module _ (out : Outside) where
  -- the cache that a run starts with was read from a tree, if there was one
  pub prepared_existing :
      (config : PublishConfig) (run : Prepared)
      → check_and_prepare out config ≡ ok run
      → (servers : List Text) × (root : Option RootEvent) × (existing_entries out servers root
          ≡ ok run.existing)
  unfolding check_and_prepare prepare
  prepared_existing config run h = go config.store_paths h
    where
      whole :
          prepare out config ≡ ok run
          → (servers : List Text) × (root : Option RootEvent) × (existing_entries out servers root
              ≡ ok run.existing)
      whole h =
          let (chosen, _, a) = >>=-eq-ok (choose_signer out config) _ h in
          let (store_dir, _, b) =
            >>=-eq-ok (or_err (out.store_dir_new config.store_dir) bad_store_dir) _ a in
          let (signing_key, _, c) =
            >>=-eq-ok (load_signing_key out chosen.1 config.nix_sig_key) _ b in
          let (compression, _, d) = >>=-eq-ok (parse_compression config.compression) _ c in
          let (author, _, e) = >>=-eq-ok (author_of out chosen.0) _ d in
          let (root, _, f) =
            >>=-eq-ok
              (map_err nostr_error (
                fetch_latest_root (out.client author.1) (record {
                  relays = config.relays;
                  channel = config.channel;
                  author = some author.0;
                })))
              _ e in
          let (existing, read, g) =
            >>=-eq-ok (existing_entries out (fetch_servers out config root) root) _ f in
          let (closure, _, i) =
            >>=-eq-ok
              (map_err closure_error (
                resolve out.scan_path out.pattern_ok config.store_paths config.store_dir
                  out.listing))
              _ g in
          (
            fetch_servers out config root,
            root,
            read ∙ ap (λ (p : Prepared). ok p.existing) (ok-injective i),
          )

      go :
          (paths : List (Text × Option Text))
          → elim paths as (λ _. Result PublishError Prepared) [
            | [] ↦ err no_store_paths
            | p ∷ ps ↦ prepare out config
          ]
            ≡ ok run
          → (servers : List Text) × (root : Option RootEvent) × (existing_entries out servers root
              ≡ ok run.existing)
      go [] h = cc
      go (p ∷ ps) h = whole h

  existing_entries-IsMap :
      (servers : List Text) (root : Option RootEvent) (m : Entries)
      → existing_entries out servers root ≡ ok m
      → IsMap m
  unfolding existing_entries
  existing_entries-IsMap servers none m h = subst IsMap (ok-injective h) tt
  existing_entries-IsMap servers (some root) m h =
      let (root_hash, _, e) =
        >>=-eq-ok (map_err nhash_error (parse_nhash_uri out.bech32 root.htree_uri)) _ h in
      let (entries, _, f) =
        >>=-eq-ok
          (map_err tree_error (
            flatten_tree out.from_slice out.hex
              (fetch out.http_get out.codecs.sha256 out.hex servers) out.tree_depth root_hash))
          _ e in
      subst IsMap (ok-injective f) (put_all-IsMap entries [] tt)

  pub prepared-IsMap :
      (config : PublishConfig) (run : Prepared)
      → check_and_prepare out config ≡ ok run
      → IsMap run.existing
  prepared-IsMap config run prepared =
      let (servers, root, read) = prepared_existing config run prepared in
      existing_entries-IsMap servers root run.existing read
