-- ===== src/Nip46/Session/RoundTrip.antt =====
-- src/nip46/session.rs: a pairing that was saved is loaded.
use narwal_publisher.Prelude.{
  ◌≡◌, refl, ap, ◌∙◌, List, [], ◌∷◌, ◌++◌, some, true, Text, text_eq, Result, ok, err,
}
use narwal_publisher.Prelude.Membership.{get}
use narwal_publisher.Secrets.{File, FilePath, FileSystem, SecretError, trim, write_secret_file}
use narwal_publisher.Prelude.{arith}
use narwal_publisher.Secrets.{read_secret_file}
use narwal_publisher.Secrets.Access.{read_secret_file-write_secret_file}
use narwal_publisher.Nip46.Session.{
  Pairing, SerdeJson, find_field, get_value, as_str, or_pairing_error, get_text, strings_of,
  push_str, relays_of, read_pairing, lift_file, items_of, pairing_value, parse_pairing, load_stored,
  load_pairing, save_pairing,
}

strings_of-items_of : (ss : List Text) → strings_of (items_of ss) ≡ ss
unfolding strings_of items_of as_str push_str
strings_of-items_of [] = refl
strings_of-items_of (s ∷ ss) = ap (◌∷◌ s) (strings_of-items_of ss)

read_pairing-pairing_value : (p : Pairing) → read_pairing (pairing_value p) ≡ ok p
unfolding read_pairing pairing_value get_text get_value find_field as_str or_pairing_error relays_of
    text_eq
read_pairing-pairing_value p = rw (strings_of-items_of p.relays) refl

pub lift_file-eq-ok :
    {A : Type 0} (r : Result SecretError A) (a : A) → lift_file r ≡ ok a → r ≡ ok a
lift_file-eq-ok (ok b) a h = cc
lift_file-eq-ok (err e) a h = cc

load_found :
    (json : SerdeJson) (fs : FileSystem) (path : Text) (file : File)
    → get path fs.files ≡ some file
    → load_pairing json fs path ≡ load_stored json fs path
unfolding load_pairing
load_found json fs path file found = rw (found, load_pairing) refl

-- A pairing that was saved without an error is loaded again, with all its fields and its relays in
-- order, where the process can read the file and JSON reads back the text it wrote with a line
-- break behind it, as `trim` leaves it.
pub load_pairing-save_pairing :
    (json : SerdeJson) (fs fs' : FileSystem) (path : FilePath) (pairing : Pairing) (raw : Text)
    → json.to_string_pretty (pairing_value pairing) ≡ some raw
    → json.from_str (trim (raw ++ 10 ∷ [])) ≡ some (pairing_value pairing)
    → fs.readable path.name ≡ true
    → save_pairing json fs path pairing ≡ ok fs'
    → load_pairing json fs' path.name ≡ ok (some pairing)
unfolding save_pairing load_stored parse_pairing
load_pairing-save_pairing json fs fs' path pairing raw writes reads readable saved =
    let stored =
      lift_file-eq-ok (write_secret_file fs path (raw ++ 10 ∷ [])) fs'
        (rw (writes, or_pairing_error) at saved) in
    let (there, _, read) = read_secret_file-write_secret_file fs fs' path (raw ++ 10 ∷ []) stored in
    let found : read_secret_file fs' path.name ≡ ok (trim (raw ++ 10 ∷ [])) =
      read ∙ ground (arith, readable) in
    load_found json fs' path.name (record { mode = 384; content = raw ++ 10 ∷ [] }) there
    ∙ rw (found, reads) (rw (read_pairing-pairing_value pairing) refl)
