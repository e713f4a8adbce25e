-- ===== src/Samples/Keys.antt =====
-- Samples for src/secrets.rs, src/signing.rs, src/nostr_pub.rs and src/nostr_fetch.rs.
use narwal_publisher.Prelude.{
  ◌≡◌, ◌≢◌, ◌↔◌, refl, [], ◌∷◌, ◌++◌, true, some, Bytes, Text, text, text_eq, arith, ok, replicate,
  if◌then◌else◌, none,
}
use narwal_publisher.Prelude.Membership.{get, insert}
use narwal_publisher.Secrets.{
  File, FilePath, FileSystem, read_secret_file, write_secret_file, trim, trim_start, trim_end,
  create_parent, write_file, lock_down, mode_of,
}
use narwal_publisher.Secrets.Access.{
  IsPrivate, read_secret_file_iff, read_secret_file-write_secret_file,
}
use narwal_publisher.Signing.{Crypto, from_secret_str}
use narwal_publisher.Signing.Key.{from_secret_str-written}
use narwal_publisher.Nip46.Session.{Pairing, SerdeJson, pairing_value, load_pairing, save_pairing}
use narwal_publisher.Nip46.Session.RoundTrip.{load_pairing-save_pairing}
use narwal_publisher.Nostr.{Announcement, Event, root_tags, latest_root}
use narwal_publisher.Nostr.Tags.{latest_root-announced, announced}

abbrev sample_files : FileSystem
sample_files = record {
  files = (text "sec", record { mode = 384; content = text " nsec1 " }) ∷ [];
  new_mode = 420;
  readable = λ path. true;
  can_create_dir = λ path. true;
  writable = λ path. true;
  can_chmod = λ path. true;
}

read_secret_file_iff_example : (read_secret_file sample_files (text "sec") ≡ ok (text "nsec1")) ↔ (
    (file : File) × (get (text "sec") sample_files.files ≡ some file)
    × IsPrivate file.mode
    × (sample_files.readable (text "sec") ≡ true)
    × (trim file.content ≡ text "nsec1"))
read_secret_file_iff_example = read_secret_file_iff sample_files (text "sec") (text "nsec1")

-- a letter of two bytes behind a no-break space and an ideographic space, and before a line
-- break, an em space and a next line
wide_spaces_trimmed :
    trim (194 ∷ 160 ∷ 227 ∷ 128 ∷ 128 ∷ 195 ∷ 160 ∷ 10 ∷ 226 ∷ 128 ∷ 131 ∷ 194 ∷ 133 ∷ [])
    ≡ 195 ∷ 160 ∷ []
unfolding trim trim_start trim_end
wide_spaces_trimmed = refl

abbrev new_path : FilePath
new_path = record { name = text "d/key"; parent = some (text "d") }

abbrev written : FileSystem
unfolding insert
written = record sample_files {
  files =
      insert (text "d/key") (record { mode = 384; content = text "k " })
        (insert (text "d/key") (record { mode = 420; content = text "k " }) sample_files.files);
}

key_written : write_secret_file sample_files new_path (text "k ") ≡ ok written
unfolding write_secret_file create_parent write_file lock_down mode_of insert get text_eq
key_written = refl

read_secret_file-write_secret_file_example :
    (get (text "d/key") written.files ≡ some (record { mode = 384; content = text "k " }))
    × ((other : Text)
        → other ≢ text "d/key"
        → get other written.files ≡ get other sample_files.files)
    × (read_secret_file written (text "d/key") ≡ ok (trim (text "k ")))
read_secret_file-write_secret_file_example =
    read_secret_file-write_secret_file sample_files written new_path (text "k ") key_written

-- bytes shifted to letters stand for Base64
abbrev shift : Bytes → Text
shift [] = []
shift (b ∷ bs) = 65 ∷ shift bs

abbrev sample_seed : Bytes
sample_seed = replicate 32 0

abbrev sample_crypto : Crypto
sample_crypto = record {
  verifying_key = λ seed. seed;
  sign = λ seed message. message;
  base64_encode = shift;
  base64_decode = λ s. some (sample_seed ++ sample_seed);
}

from_secret_str-written_example :
    from_secret_str sample_crypto (text "cache-1" ++ b':' ∷ shift (sample_seed ++ sample_seed))
    ≡ ok (record { keyname = text "cache-1"; secret = sample_seed; public = sample_seed })
from_secret_str-written_example =
    from_secret_str-written sample_crypto (text "cache-1") sample_seed sample_seed (omega arith)
      refl refl refl

abbrev sample_announcement : Announcement
sample_announcement = record {
  relays = [];
  channel = some (text "stable");
  htree_uri = text "htree://x";
  blossom_servers = text "https://a" ∷ text "https://b" ∷ [];
  nix_sig_keys = text "cache-1:AA" ∷ [];
}

abbrev old_event : Event
old_event = record { kind = 37091; tags = []; created_at = 5 }

abbrev new_event : Event
unfolding root_tags
new_event = record { kind = 37091; tags = root_tags sample_announcement; created_at = 9 }

latest_root-announced_example :
    latest_root ((old_event ∷ []) ++ new_event ∷ old_event ∷ [])
    ≡ ok (some (announced sample_announcement))
unfolding root_tags
latest_root-announced_example =
    latest_root-announced sample_announcement new_event (old_event ∷ []) (old_event ∷ []) refl
      (omega arith) (omega arith)

abbrev sample_pairing : Pairing
sample_pairing = record {
  app_secret_hex = text "aa";
  bunker_pubkey_hex = text "bb";
  user_pubkey_hex = [];
  relays = text "wss://r" ∷ text "wss://s" ∷ [];
}

-- one text stands for the pairing
abbrev sample_json : SerdeJson
unfolding pairing_value text_eq
sample_json = record {
  from_str = λ s. if text_eq s (text "{}") then some (pairing_value sample_pairing) else none;
  to_string_pretty = λ v. some (text "{}");
}

abbrev pairing_saved : FileSystem
unfolding insert
pairing_saved = record sample_files {
  files =
      insert (text "d/key") (record { mode = 384; content = text "{}" ++ 10 ∷ [] })
        (insert (text "d/key") (record { mode = 420; content = text "{}" ++ 10 ∷ [] })
          sample_files.files);
}

sample_saved : save_pairing sample_json sample_files new_path sample_pairing ≡ ok pairing_saved
unfolding save_pairing write_secret_file create_parent write_file lock_down mode_of insert get
    text_eq sample_json
sample_saved = refl

sample_read :
    sample_json.from_str (trim (text "{}" ++ 10 ∷ [])) ≡ some (pairing_value sample_pairing)
unfolding sample_json trim text_eq
sample_read = refl

load_pairing-save_pairing_example :
    load_pairing sample_json pairing_saved (text "d/key") ≡ ok (some sample_pairing)
unfolding sample_json
load_pairing-save_pairing_example =
    load_pairing-save_pairing sample_json sample_files pairing_saved new_path sample_pairing
      (text "{}") refl sample_read refl sample_saved
