-- ===== src/Cli.antt =====
-- src/main.rs: what the command line asks for. Its parsing by `clap` is not modelled.
pub mod Sources
use narwal_publisher.Prelude.{
  ℕ, ◌+◌, List, [], ◌∷◌, Bool, true, false, Option, none, some, Text, Result, ok, err, ◌==◌,
  if◌then◌else◌,
}
use narwal_publisher.Publish.{PublishConfig}
use narwal_publisher.Nip46.Pair.{resolve_handshake_relays}
use narwal_publisher.Nip46.Session.{PairingError, default_pairing_file}

pub record PairingArgs : Type 0 where
  pub pairing_file : Option Text
  pub bunker_relays : List Text

pub data Commands : Type 0 where
  pair : PairingArgs → Commands

pub record Cli : Type 0 where
  -- a path, and its file name where it has one
  pub store_paths : List (Text × Option Text)
  pub sec_file : Option Text
  pub bunker : Option Text
  pub qr : Bool
  pub pairing : PairingArgs
  pub blossom_servers : List Text
  pub relays : List Text
  pub channel : Option Text
  pub nix_sig_key : Option Text
  pub compression : Text
  pub dry_run : Bool
  pub store_dir : Text
  pub command : Option Commands

pub data CliError : Type 0 where
  one_source : CliError
  missing_blossom missing_relay missing_paths : CliError

abbrev pub given : Option Text → ℕ
given none = 0
given (some s) = 1

abbrev pub flagged : Bool → ℕ
flagged true = 1
flagged false = 0

-- how many key sources are given
unfoldable pub count_sources : Cli → ℕ
count_sources cli = given cli.sec_file + (given cli.bunker + flagged cli.qr)

abbrev pub is_empty {ℓ} : {A : Type ℓ} → List A → Bool
is_empty [] = true
is_empty (x ∷ xs) = false

unfoldable pub validate_publish : Cli → Result CliError (Unit {0})
unfolding count_sources
validate_publish cli =
    if count_sources cli == 1
    then (if is_empty cli.blossom_servers
        then err missing_blossom
        else if is_empty cli.relays
        then err missing_relay
        else if is_empty cli.store_paths
        then err missing_paths
        else ok tt)
    else err one_source

-- the fields that `main` passes on
unfoldable pub publish_config : Cli → PublishConfig
publish_config cli = record {
  store_paths = cli.store_paths;
  sec_file = cli.sec_file;
  bunker = cli.bunker;
  qr = cli.qr;
  pairing_file = cli.pairing.pairing_file;
  bunker_relays = cli.pairing.bunker_relays;
  blossom_servers = cli.blossom_servers;
  relays = cli.relays;
  channel = cli.channel;
  nix_sig_key = cli.nix_sig_key;
  compression = cli.compression;
  dry_run = cli.dry_run;
  store_dir = cli.store_dir;
}

-- what a run does
pub data Task : Type 0 where
  -- the handshake relays, and the pairing file
  pair_only : List Text → Text → Task
  no_pairing_file : PairingError → Task
  publish_with : PublishConfig → Task
  usage_error : CliError → Task

unfoldable pub pairing_file_path : Option Text → Option Text → Result PairingError Text
pairing_file_path home (some p) = ok p
pairing_file_path home none = default_pairing_file home

unfoldable pub publish_task : Cli → Result CliError (Unit {0}) → Task
unfolding publish_config
publish_task cli (ok _) = publish_with (publish_config cli)
publish_task cli (err e) = usage_error e

unfoldable pub pair_task : List Text → Result PairingError Text → Task
unfolding resolve_handshake_relays
pair_task bunker_relays (ok file) = pair_only (resolve_handshake_relays bunker_relays) file
pair_task bunker_relays (err e) = no_pairing_file e

unfoldable pub main : Option Text → Cli → Task
unfolding publish_task validate_publish pair_task pairing_file_path
main home cli = elim cli.command [
  | some command ↦ elim command [
    | pair args ↦ pair_task args.bunker_relays (pairing_file_path home args.pairing_file)
  ]
  | none ↦ publish_task cli (validate_publish cli)
]
