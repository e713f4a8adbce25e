-- ===== src/Samples/Confirmations.antt =====
-- Samples for src/lib.rs with the uploader of src/blossom.rs.
use narwal_publisher.Prelude.{ℕ, ◌+◌, ◌≡◌, refl, false, List, [], ◌∷◌, Result, text_eq}
use narwal_publisher.Prelude.Membership.{mem, insert}
use narwal_publisher.StorePath.{split_first}
use narwal_publisher.Manifest.{build_directory_tree}
use narwal_publisher.Nhash.{nhash_encode}
use narwal_publisher.Closure.{resolve}
use narwal_publisher.Compress.{encode_store_path, compress, nar_url}
use narwal_publisher.Narinfo.{build_narinfo}
use narwal_publisher.Nostr.{fetch_latest_root, publish_cache}
use narwal_publisher.Secrets.{read_secret_file}
use narwal_publisher.BlossomFetch.{drop_slashes}
use narwal_publisher.Blossom.{Session}
use narwal_publisher.Publish.{PublishConfig, PublishError, parse_compression}
use narwal_publisher.Publish.Plan.{check_and_prepare}
use narwal_publisher.Publish.Steps.{Action, stored, rejected, announced, World, publish}
use narwal_publisher.Publish.Uploads.{publish_to_blossom}
use narwal_publisher.Samples.Runs.{outside, config_of}
use narwal_publisher.Samples.Uploads.{network, digest, two_servers}

abbrev config : PublishConfig
config = record (config_of false) { blossom_servers = two_servers }

abbrev ended : Result PublishError (Unit {0}) × World Session
ended = publish_to_blossom network digest outside config

abbrev stored_blobs : List Action → ℕ
stored_blobs [] = 0
stored_blobs (stored bytes ∷ actions) = 1 + stored_blobs actions
stored_blobs (rejected bytes ∷ actions) = stored_blobs actions
stored_blobs (announced a sent ∷ actions) = stored_blobs actions

four_stored : stored_blobs ended.1.actions ≡ 4
unfolding publish_to_blossom publish check_and_prepare read_secret_file text_eq parse_compression
    fetch_latest_root resolve split_first mem insert encode_store_path compress nar_url
    build_narinfo build_directory_tree nhash_encode publish_cache network drop_slashes
four_stored = refl
