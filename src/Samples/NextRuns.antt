-- ===== src/Samples/NextRuns.antt =====
-- Samples for src/lib.rs: a run, and what the next run reads.
use narwal_publisher.Prelude.{◌≤◌}
use narwal_publisher.Publish.Merge.{count_name}
use narwal_publisher.Publish.CacheInfo.{next_cache_info_twice}
use narwal_publisher.Prelude.{
  ℕ, ◌≡◌, refl, inl, inr, false, List, [], ◌∷◌, ◌++◌, none, some, Bytes, Text, text, text_eq,
  Result, ok, err, if◌then◌else◌, arith,
}
use mathlib.Core.Option.{get_or}
use narwal_publisher.Prelude.Membership.{get, mem, insert}
use narwal_publisher.StorePath.{hash_part, split_first}
use narwal_publisher.Manifest.{DirEntry, build_directory_tree}
use narwal_publisher.BlossomFetch.{Reply, replied, blob_url, fetch}
use narwal_publisher.Nhash.{nhash_encode, parse_nhash_uri, parse_tlv, find_hash}
use narwal_publisher.TreeReader.{flatten_tree, flatten_node, read_links, read_link}
use narwal_publisher.Closure.{resolve}
use narwal_publisher.Compress.{xz, encode_store_path, compress, nar_url}
use narwal_publisher.Narinfo.{build_narinfo}
use narwal_publisher.Nostr.{fetch_latest_root, publish_cache}
use narwal_publisher.Nostr.Tags.{announced}
use narwal_publisher.Secrets.{read_secret_file}
use narwal_publisher.Publish.{
  Entries, PublishError, local_keys, narinfo_name, parse_compression, put_all, final_entries,
}
use narwal_publisher.Publish.Plan.{
  Outside, Prepared, check_and_prepare, existing_entries, fetch_servers,
}
use narwal_publisher.Publish.Paths.{Processed, process_path}
use narwal_publisher.Publish.Steps.{World, publish, publish_entries}
use narwal_publisher.Publish.Produced.{made}
use narwal_publisher.Publish.Last.{Complete}
use narwal_publisher.Publish.Again.{publish_again}
use narwal_publisher.Publish.NextRun.{next_run_reads}
use narwal_publisher.Samples.Codec.{get_node-put_node}
use narwal_publisher.Samples.Names.{plain_bech32, plain_bech32-IsLawful}
use narwal_publisher.Samples.Tree.{toy_sha256, toy_hex}
use narwal_publisher.Samples.Runs.{
  basename, outside, config_of, counter, start, announcement_of, rest_of,
}

abbrev lawful : Outside
lawful = record outside { bech32 = plain_bech32 }

abbrev ended : Result PublishError (Unit {0}) × World ℕ
ended = publish counter lawful (config_of false) start

abbrev prepared_or_none : Result PublishError Prepared → Prepared
prepared_or_none (ok run) = run
prepared_or_none (err e) = record {
  signer = local_keys [];
  store_dir = [];
  signing_key = none;
  compression = xz;
  existing = [];
  closure = [];
}

abbrev prepared_run : Prepared
prepared_run = prepared_or_none (check_and_prepare lawful (config_of false))

abbrev processed_or_none : Result PublishError Processed → Processed
processed_or_none (ok p) = p
processed_or_none (err e) = record {
  nar = [];
  narinfo = [];
  entry = record { name = []; hash = []; size = 0 };
}

abbrev name : Text
name = narinfo_name (hash_part basename)

abbrev processed : Processed
processed = processed_or_none (
    process_path lawful prepared_run
      (record {
        path = text "/nix/store/" ++ basename;
        nar_hash = 7 ∷ [];
        nar_size = 1;
        references = [];
      })
      basename name)

abbrev first_bytes : List (Bytes × Bytes) → Bytes
first_bytes [] = []
first_bytes (n ∷ nodes) = n.0

abbrev tree : List (Bytes × Bytes) × Bytes
tree =
    get_or
      (build_directory_tree lawful.to_vec_named toy_sha256
        (final_entries toy_sha256 (put_all (processed.entry ∷ []) [])))
      ([], [])

complete :
    Complete counter lawful
      (config_of false)
      (rest_of ended.1.actions)
      (announcement_of ended.1.actions)
unfolding publish check_and_prepare read_secret_file text_eq parse_compression fetch_latest_root
    resolve split_first mem insert encode_store_path compress nar_url build_narinfo
    build_directory_tree nhash_encode publish_cache
complete = record {
  run = prepared_run;
  new_entries = processed.entry ∷ [];
  prepared = refl;
  backed = record {
    stored_only = (tt, (tt, (tt, (tt, tt))));
    nodes = tree.0;
    root_hash = tree.1;
    nhash = 5 ∷ text "nhash" ++ (0 ∷ 32 ∷ tree.1);
    built = refl;
    encoded = refl;
    event = refl;
    held = (inl refl, tt);
  };
  produced = (
    made basename refl refl (record {
      processed = processed;
      runs = refl;
      entry = refl;
      nar_stored = inr (inr (inr (inl refl)));
      narinfo_stored = inr (inr (inl refl));
    }),
    tt,
  );
}

-- a server that holds the one node of the tree
abbrev serve : Text → Reply
serve url =
    if text_eq url (blob_url (text "https://b") (toy_hex tree.1))
    then replied 200 (some (first_bytes tree.0))
    else replied 404 (some [])

next_run_reads_example :
    (existing : Entries) × (existing_entries
        (record lawful { http_get = serve })
        (fetch_servers lawful
          (config_of false)
          (some (announced (announcement_of ended.1.actions))))
        (some (announced (announcement_of ended.1.actions)))
      ≡ ok existing)
    × ((k : Text)
        → text_eq k (text "nix-cache-info") ≡ false
        → get k existing ≡ get k (put_all complete.new_entries complete.run.existing))
unfolding complete build_directory_tree blob_url text_eq
next_run_reads_example =
    next_run_reads counter lawful (config_of false) (rest_of ended.1.actions)
      (announcement_of ended.1.actions) complete serve (text "https://b") [] (config_of false)
      get_node-put_node (λ bytes. refl) plain_bech32-IsLawful refl (refl, tt) (omega arith)

abbrev entries_or_none : Result PublishError Entries → Entries
entries_or_none (ok existing) = existing
entries_or_none (err e) = []

-- what the next run starts from, with the closure of the first
abbrev again : Prepared
again = record prepared_run {
  existing = entries_or_none (
      existing_entries (record lawful { http_get = serve })
        (fetch_servers lawful (config_of false)
          (some (announced (announcement_of ended.1.actions))))
        (some (announced (announcement_of ended.1.actions))));
}

publish_again_example :
    (es : List DirEntry) × (publish_entries counter
        (record lawful { http_get = serve })
        false
        again
        again.closure
        start
      ≡ (ok es, start))
unfolding complete existing_entries publish check_and_prepare read_secret_file text_eq
    parse_compression fetch_latest_root resolve split_first mem insert encode_store_path compress
    nar_url build_narinfo build_directory_tree nhash_encode publish_cache blob_url parse_nhash_uri
    parse_tlv find_hash flatten_tree flatten_node fetch fetch_servers read_links read_link
publish_again_example =
    publish_again counter lawful (config_of false) (rest_of ended.1.actions)
      (announcement_of ended.1.actions) complete serve (text "https://b") [] (config_of false)
      counter false again start get_node-put_node (λ bytes. refl) plain_bech32-IsLawful refl
      (refl, tt) (omega arith) refl refl

next_cache_info_twice_example :
    2 ≤ count_name (text "nix-cache-info") (final_entries toy_sha256 (put_all [] again.existing))
unfolding complete existing_entries publish check_and_prepare read_secret_file text_eq
    parse_compression fetch_latest_root resolve split_first mem insert encode_store_path compress
    nar_url build_narinfo build_directory_tree nhash_encode publish_cache blob_url parse_nhash_uri
    parse_tlv find_hash flatten_tree flatten_node fetch fetch_servers read_links read_link
next_cache_info_twice_example =
    next_cache_info_twice counter lawful (config_of false) (rest_of ended.1.actions)
      (announcement_of ended.1.actions) complete serve (text "https://b") [] (config_of false)
      again.existing [] get_node-put_node (λ bytes. refl) plain_bech32-IsLawful refl (refl, tt)
      (omega arith) refl
