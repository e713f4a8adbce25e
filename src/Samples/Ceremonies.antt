-- ===== src/Samples/Ceremonies.antt =====
-- Samples for the flows of src/nip46/pair.rs.
use narwal_publisher.Prelude.{length, err, Result, false, none}
use narwal_publisher.Nip46.Pairing.{PairError}
use narwal_publisher.Cli.{
  PairingArgs, Cli, Task, pair, pair_only, main, pair_task, pairing_file_path,
}
use narwal_publisher.Prelude.{
  ◌≡◌, ◌↔◌, refl, sym, ap, subst, ◌∙◌, ◌*◌, List, [], ◌∷◌, ◌++◌, true, false, none, some, Text,
  text, text_eq, ok, ok-injective, if◌then◌else◌,
}
use narwal_publisher.Prelude.Membership.{mem, get, insert}
use narwal_publisher.Secrets.{
  FilePath, FileSystem, trim, trim_start, trim_end, read_secret_file, deny_weak_permissions,
  read_to_string, create_parent, write_file, lock_down, mode_of, left_by_write, write_secret_file,
}
use narwal_publisher.Nip46.Session.{
  Pairing, object, field, string, no_fields, pairing_value, SerdeJson, load_pairing, get_value,
  as_str, find_field, items_of, save_pairing, left_by_save, load_stored, parse_pairing,
  read_pairing, or_pairing_error, get_text, relays_of, strings_of, push_str,
}
use narwal_publisher.Nip46.Transport.{
  Bunker, rpc_raw, rpc, method, ensure_started, start, start_relays, client_add_relay,
  wait_connected, subscribe_responses, build_event, encrypt_to, sign_with, send_request,
  open_channel, await_response, decode, decrypt_from, forget_id,
}
use narwal_publisher.Nip46.Bunker.{KeyCrate, paired, transport_only, seeded}
use narwal_publisher.Nip46.Signer.{
  response_to_result, or_rpc_error, dispatch_all, dispatch_response, dispatch_message, complete,
  drop_id, check_error, is_auth, has_error, ok_result,
}
use narwal_publisher.Nip46.Signer.Poll.{wait_for_any_connection, poll_from, connected_of}
use narwal_publisher.Nip46.Operations.{
  add_relays, user_public_key, ensure_handshake, call, refresh_relays, refresh_id, decimal,
  decimal_digits, switch_payload, read_relays,
}
use narwal_publisher.Nip46.Pair.{
  reuse_relays, resolve_handshake_relays, effective_relays, keep_reachable, merge_relays,
}
use narwal_publisher.Nip46.Pair.Accept.{
  Round, received, await_connect_response, judge, try_accept_response, accept_plaintext,
  accept_body, accept_result,
}
use narwal_publisher.Nip46.Pair.Accept.Chosen.{some-injective, Chosen, await_connect_response_iff}
use narwal_publisher.Nip46.Pairing.{
  Ceremony, hold_ceremony, pair_fresh, handshake_relays, check_each, meet_signer, fresh_secret,
  check, or_pair_error, wrap_err, verify_user, adopt_relays, load, save,
}
use narwal_publisher.Nip46.Pairing.Reuse.{relays_now, pair_via_qr}
use narwal_publisher.Nip46.Pairing.Stored.{pair_via_qr_unchecked}
use narwal_publisher.Nip46.Pairing.Fresh.{Met, pair_fresh_stored}
use narwal_publisher.Nip46.Pairing.Gate.{pair_advertises_all}
use narwal_publisher.Samples.Signers.{network, app_keys}

abbrev scanned : Round
scanned = record { now = 1000; got = received (record { pubkey = text "b"; content = text "hi" }) }

-- traffic for others, the signer's response, and another one with the secret
abbrev heard : List Round
heard =
    record { now = 500; got = received (record { pubkey = text "x"; content = text "no" }) }
    ∷ scanned
    ∷ record { now = 1500; got = received (record { pubkey = text "y"; content = text "hi" }) }
    ∷ []

abbrev paired_now : Pairing
paired_now = record {
  app_secret_hex = text "s";
  bunker_pubkey_hex = text "b";
  user_pubkey_hex = text "u";
  relays = text "wss://a" ∷ [];
}

-- it reads the content of `scanned`, and of anything else the pairing
abbrev pub json : SerdeJson
json = record {
  from_str = λ raw. some (
      if text_eq raw (text "hi")
      then object (field (text "result") (string (text "secret")) no_fields)
      else pairing_value paired_now);
  to_string_pretty = λ v. some (text "j");
}

await_connect_response_iff_example :
    (await_connect_response network json app_keys (text "secret") 60000 heard ≡ ok (text "b"))
    ↔ Chosen network json app_keys (text "secret") 60000 (text "b") heard
await_connect_response_iff_example =
    await_connect_response_iff network json app_keys (text "secret") 60000 (text "b") heard

abbrev pub keys : KeyCrate
keys = record {
  generate = app_keys;
  parse_keys = λ hex. some app_keys;
  parse_uri = λ url. none;
  parse_public_key = λ hex. some hex;
}

abbrev pub ceremony : Ceremony
ceremony = record {
  relay_url_ok = λ url. true;
  add_relay = λ url. true;
  relay_states = λ k. (text "wss://a", true) ∷ [];
  clock = λ k. 250 * k;
  subscribe = true;
  random_bytes = [];
  hex = λ bytes. text "secret";
  qr = λ uri. some (record { width = 1; dark = λ x y. true });
  shown_at = 0;
  rounds = λ uri. heard;
  cut_verify = λ s. none;
  cut_refresh = λ s. none;
}

abbrev home : FileSystem
home = record {
  files = [];
  new_mode = 420;
  readable = λ path. true;
  can_create_dir = λ path. true;
  writable = λ path. true;
  can_chmod = λ path. true;
}

abbrev pairing_file : FilePath
pairing_file = record { name = text "/h/p"; parent = some (text "/h") }

held : hold_ceremony network keys json ceremony (text "wss://a" ∷ []) ≡ ok paired_now
unfolding hold_ceremony handshake_relays check_each resolve_handshake_relays effective_relays
    keep_reachable meet_signer fresh_secret check or_pair_error wrap_err await_connect_response
    judge try_accept_response accept_plaintext accept_body accept_result get_value as_str find_field
    pairing_value items_of text_eq verify_user adopt_relays merge_relays transport_only
    wait_for_any_connection poll_from connected_of user_public_key ensure_handshake call rpc method
    response_to_result rpc_raw ensure_started start start_relays client_add_relay mem wait_connected
    subscribe_responses build_event encrypt_to sign_with or_rpc_error send_request open_channel
    await_response dispatch_all decode dispatch_response dispatch_message complete drop_id
    decrypt_from get check_error is_auth has_error ok_result forget_id refresh_relays refresh_id
    decimal decimal_digits switch_payload read_relays
held = refl

abbrev paired_signer : Bunker
paired_signer = record {
  app_keys = app_keys;
  bunker_pubkey = text "b";
  relays = text "wss://a" ∷ [];
  app_secret = none;
  started = false;
  handshook = true;
  user_pubkey = some (text "u");
  pending = record { waiting = []; completed = [] };
  pool = [];
  exchanges = [];
}

rebuilt : paired keys paired_now (text "wss://a" ∷ []) ≡ ok paired_signer
unfolding paired seeded transport_only or_rpc_error
rebuilt = refl

paired_fresh :
    (pair_fresh network keys json ceremony (text "wss://a" ∷ []) pairing_file home).0
    ≡ ok paired_signer
unfolding hold_ceremony handshake_relays check_each resolve_handshake_relays effective_relays
    keep_reachable meet_signer fresh_secret check or_pair_error wrap_err await_connect_response
    judge try_accept_response accept_plaintext accept_body accept_result get_value as_str find_field
    pairing_value items_of text_eq verify_user adopt_relays merge_relays transport_only
    wait_for_any_connection poll_from connected_of user_public_key ensure_handshake call rpc method
    response_to_result rpc_raw ensure_started start start_relays client_add_relay mem wait_connected
    subscribe_responses build_event encrypt_to sign_with or_rpc_error send_request open_channel
    await_response dispatch_all decode dispatch_response dispatch_message complete drop_id
    decrypt_from get check_error is_auth has_error ok_result forget_id refresh_relays refresh_id
    decimal decimal_digits switch_payload read_relays pair_fresh load save load_pairing save_pairing
    or_pairing_error write_secret_file create_parent write_file lock_down mode_of insert paired
    seeded left_by_save left_by_write
paired_fresh = refl

reads :
    (p : Pairing) (raw : Text)
    → hold_ceremony network keys json ceremony (text "wss://a" ∷ []) ≡ ok p
    → json.to_string_pretty (pairing_value p) ≡ some raw
    → json.from_str (trim (raw ++ 10 ∷ [])) ≡ some (pairing_value p)
unfolding trim trim_start trim_end text_eq
reads p raw h prints =
    subst (λ r. json.from_str (trim (r ++ 10 ∷ [])) ≡ some (pairing_value p))
      (some-injective (text "j") raw prints)
      (ap (λ q. some (pairing_value q)) (ok-injective (sym held ∙ h)))

pair_fresh_stored_example :
    (pairing : Pairing) × Met network keys json ceremony (text "wss://a" ∷ []) pairing
    × (load_pairing json
          (pair_fresh network keys json ceremony (text "wss://a" ∷ []) pairing_file home).1
          pairing_file.name
        ≡ ok (some pairing))
    × (paired keys pairing pairing.relays ≡ ok paired_signer)
pair_fresh_stored_example =
    pair_fresh_stored network keys json ceremony (text "wss://a" ∷ []) pairing_file home
      paired_signer reads refl paired_fresh

abbrev with_pairing : FileSystem
with_pairing = record home { files = (text "/h/p", record { mode = 384; content = text "j" }) ∷ [] }

loaded : load_pairing json with_pairing pairing_file.name ≡ ok (some paired_now)
unfolding load_pairing load_stored parse_pairing read_pairing or_pairing_error get_text relays_of
    strings_of push_str get text_eq read_secret_file deny_weak_permissions read_to_string trim
    trim_start trim_end pairing_value items_of get_value as_str find_field
loaded = refl

merged : paired keys paired_now (reuse_relays paired_now.relays []) ≡ ok paired_signer
unfolding paired seeded transport_only or_rpc_error reuse_relays merge_relays
merged = refl

pair_via_qr_unchecked_example :
    let (extra, t) = relays_now network keys json ceremony paired_signer in
    ((pair_via_qr network keys json ceremony [] pairing_file with_pairing).0
      ≡ ok (add_relays network extra t))
    × ((add_relays network extra t).user_pubkey ≡ some (text "u"))
pair_via_qr_unchecked_example =
    pair_via_qr_unchecked network keys json ceremony [] pairing_file paired_now with_pairing
      paired_signer (text "u") (λ s t e. cc) loaded merged refl

abbrev offline : Ceremony
offline = record ceremony { relay_states = λ k. []; clock = λ k. 250 * k }

abbrev ok_or_nil : Result PairError (List Text) → List Text
ok_or_nil (ok relays) = relays
ok_or_nil (err e) = []

-- `narwal pair --pairing-file p`, and no relay is reachable
abbrev pair_args : PairingArgs
pair_args = record { pairing_file = some (text "p"); bunker_relays = [] }

abbrev pair_cli : Cli
pair_cli = record {
  store_paths = [];
  sec_file = none;
  bunker = none;
  qr = false;
  pairing = pair_args;
  blossom_servers = [];
  relays = [];
  channel = none;
  nix_sig_key = none;
  compression = text "xz";
  dry_run = false;
  store_dir = text "/nix/store";
  command = some (pair pair_args);
}

abbrev starts_with : Task → List Text
starts_with (pair_only relays file) = relays
starts_with _ = []

abbrev given_relays : List Text
given_relays = starts_with (main none pair_cli)

abbrev shown_relays : List Text
shown_relays = ok_or_nil (handshake_relays network keys json offline given_relays)

both_shown : length shown_relays ≡ 2
unfolding main pair_task pairing_file_path handshake_relays check_each resolve_handshake_relays
    effective_relays keep_reachable wait_for_any_connection poll_from connected_of mem
both_shown = refl

pair_advertises_all_example : shown_relays ≡ text "wss://nos.lol" ∷ text "wss://nostr.oxtr.dev" ∷ []
unfolding main pair_task pairing_file_path handshake_relays check_each resolve_handshake_relays
    effective_relays keep_reachable wait_for_any_connection poll_from connected_of mem
pair_advertises_all_example =
    pair_advertises_all network keys json offline none pair_cli given_relays shown_relays (text "p")
      pair_args refl refl refl
