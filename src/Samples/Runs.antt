-- ===== src/Samples/Runs.antt =====
-- Samples for src/lib.rs and src/main.rs: runs that publish one path.
use narwal_publisher.Prelude.{
  ℕ, ◌+◌, ◌≡◌, ◌≢◌, ◌↔◌, refl, List, [], ◌∷◌, ◌++◌, Bool, true, false, none, some, Text, text,
  text_eq, Result, err, replicate,
}
use narwal_publisher.Prelude.Membership.{mem, insert}
use narwal_publisher.Manifest.{build_directory_tree}
use narwal_publisher.StorePath.{split_first}
use narwal_publisher.Closure.{resolve}
use narwal_publisher.BlossomFetch.{network_error}
use narwal_publisher.Nhash.{nhash_encode}
use narwal_publisher.Secrets.{read_secret_file}
use narwal_publisher.Compress.{encode_store_path, compress, nar_url}
use narwal_publisher.Narinfo.{NarInfoCrate, build_narinfo}
use narwal_publisher.Nostr.{Client, Announcement, fetch_latest_root, publish_cache}
use narwal_publisher.Publish.{PublishConfig, PublishError, key_source, parse_compression}
use narwal_publisher.Publish.Plan.{Outside, choose_signer, check_and_prepare}
use narwal_publisher.Publish.Steps.{Action, announced, World, Uploader, publish}
use narwal_publisher.Publish.Last.{Complete, publish_announces_last}
use narwal_publisher.Publish.DryRun.{publish_dry_run}
use narwal_publisher.Cli.{Cli, publish_config, count_sources}
use narwal_publisher.Samples.Signers.{network}
use narwal_publisher.Samples.Ceremonies.{keys, json, ceremony}
use narwal_publisher.Cli.Sources.{choose_signer_iff}
use narwal_publisher.Samples.Codec.{put_node, get_node}
use narwal_publisher.Samples.Tree.{toy_sha256, toy_hex}

abbrev pub basename : Text
basename = replicate 32 97 ++ text "-hello"

abbrev narinfo_crate : NarInfoCrate
narinfo_crate = record {
  build = λ builder. some builder;
  fingerprint_of = λ builder. builder.url;
  to_canonical_bytes = λ builder. builder.url;
}

abbrev client : Client
client = record {
  takes_relay = λ relay. true;
  sign_event = λ kind tags. some (record { kind = kind; tags = tags; created_at = 1 });
  send_event = λ event. some (text "wss://r" ∷ []);
  fetch_events = λ filter. some [];
  parse_pubkey = λ s. some s;
}

-- one path in the store, and relays that know no root event
abbrev pub outside : Outside
outside = record {
  files = record {
    files = (text "sec", record { mode = 384; content = text "nsec1" }) ∷ [];
    new_mode = 420;
    readable = λ path. true;
    can_create_dir = λ path. true;
    writable = λ path. true;
    can_chmod = λ path. true;
  };
  keys_parse = λ s. true;
  home = none;
  parent = λ path. none;
  local_public_key = λ contents. some (text "pk");
  network = network;
  key_crate = keys;
  serde_json = json;
  ceremony = ceremony;
  client = λ signer. client;
  store_dir_new = λ dir. some dir;
  http_get = λ url. network_error;
  from_slice = get_node;
  to_vec_named = put_node;
  hex = toy_hex;
  bech32 = record { hrp_parse = λ s. some s; encode = λ hrp bytes. some bytes; decode = λ s. none };
  listing = some (some basename ∷ []);
  pattern_ok = λ hps. true;
  scan_path = λ hps path. some (record { matches = []; nar_sha256 = 7 ∷ []; nar_size = 1 });
  file_name = λ path. some basename;
  from_basename = λ name. some name;
  codecs = record {
    xz_encode = λ level bytes. some bytes;
    zstd_encode = λ level bytes. some bytes;
    sha256 = toy_sha256;
    nixbase32 = λ bytes. text "h";
    hash_path = λ path. some (7 ∷ [], 1);
    encode_path = λ path. some (9 ∷ []);
  };
  crypto = record {
    verifying_key = λ seed. seed;
    sign = λ seed message. message;
    base64_encode = λ bytes. bytes;
    base64_decode = λ s. some s;
  };
  narinfo = narinfo_crate;
  tree_depth = 4;
}

abbrev pub config_of : Bool → PublishConfig
config_of dry_run = record {
  store_paths = (basename, some basename) ∷ [];
  sec_file = some (text "sec");
  bunker = none;
  qr = false;
  pairing_file = none;
  bunker_relays = [];
  blossom_servers = text "https://b" ∷ [];
  relays = text "wss://r" ∷ [];
  channel = none;
  nix_sig_key = none;
  compression = text "xz";
  dry_run = dry_run;
  store_dir = text "/nix/store";
}

-- an uploader that counts
abbrev pub counter : Uploader ℕ
counter = record { upload_bytes = λ bytes n. (true, n + 1) }

abbrev pub start : World ℕ
start = record { uploader = 0; actions = [] }

abbrev pub announcement_of : List Action → Announcement
announcement_of (announced a sent ∷ actions) = a
announcement_of _ = record {
  relays = [];
  channel = none;
  htree_uri = [];
  blossom_servers = [];
  nix_sig_keys = [];
}

abbrev pub rest_of : List Action → List Action
rest_of [] = []
rest_of (a ∷ actions) = actions

abbrev run : Result PublishError (Unit {0}) × World ℕ
run = publish counter outside (config_of false) start

-- the NAR, its narinfo, nix-cache-info and the one node of the tree
four_uploads : run.1.uploader ≡ 4
unfolding publish check_and_prepare read_secret_file text_eq parse_compression fetch_latest_root
    resolve split_first mem insert encode_store_path compress nar_url build_narinfo
    build_directory_tree nhash_encode publish_cache
four_uploads = refl

published :
    run.1.actions ≡ [] ++ announced (announcement_of run.1.actions) true ∷ rest_of run.1.actions
unfolding publish check_and_prepare read_secret_file text_eq parse_compression fetch_latest_root
    resolve split_first mem insert encode_store_path compress nar_url build_narinfo
    build_directory_tree nhash_encode publish_cache
published = refl

publish_announces_last_example :
    ◌≡◌ {A = List Action} [] []
    × Complete counter outside
        (config_of false)
        (rest_of run.1.actions)
        (announcement_of run.1.actions)
publish_announces_last_example =
    publish_announces_last counter outside (config_of false) start (announcement_of run.1.actions)
      true [] (rest_of run.1.actions) refl published

publish_dry_run_example : (publish counter outside (config_of true) start).1 ≡ start
publish_dry_run_example = publish_dry_run counter outside (config_of true) start refl

abbrev sample_cli : Cli
sample_cli = record {
  store_paths = (basename, some basename) ∷ [];
  sec_file = some (text "sec");
  bunker = some (text "bunker://x");
  qr = false;
  pairing = record { pairing_file = none; bunker_relays = [] };
  blossom_servers = text "https://b" ∷ [];
  relays = text "wss://r" ∷ [];
  channel = none;
  nix_sig_key = none;
  compression = text "xz";
  dry_run = false;
  store_dir = text "/nix/store";
  command = none;
}

choose_signer_iff_example :
    (choose_signer outside (publish_config sample_cli) ≡ err key_source)
    ↔ (count_sources sample_cli ≢ 1)
choose_signer_iff_example = choose_signer_iff outside sample_cli
