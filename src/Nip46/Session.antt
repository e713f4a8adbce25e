-- ===== src/Nip46/Session.antt =====
-- src/nip46/session.rs: the stored pairing. `serde_json` is a parameter; a value that is neither null
-- nor a string, a list or an object is `other_json`.
pub mod RoundTrip
use narwal_publisher.Prelude.{
  ℕ, List, [], ◌∷◌, ◌++◌, Option, none, some, Text, text, text_eq, Result, ok, err, ◌>>=◌,
  if◌then◌else◌,
}
use narwal_publisher.Prelude.Membership.{get}
use narwal_publisher.Secrets.{
  FilePath, FileSystem, SecretError, read_secret_file, write_secret_file, left_by_write,
}

mutual
  pub data Json : Type 0 where
    null : Json
    string : Text → Json
    array : Items → Json
    object : Fields → Json
    other_json : Json

  pub data Items : Type 0 where
    no_items : Items
    item : Json → Items → Items

  pub data Fields : Type 0 where
    no_fields : Fields
    field : Text → Json → Fields → Fields

pub record Pairing : Type 0 where
  pub app_secret_hex : Text
  pub bunker_pubkey_hex : Text
  pub user_pubkey_hex : Text
  pub relays : List Text

pub data PairingError : Type 0 where
  pairing_file_error : SecretError → PairingError
  not_json : PairingError
  missing_field : Text → PairingError
  encode_failed : PairingError
  no_home : PairingError

pub record SerdeJson : Type 0 where
  pub from_str : Text → Option Json
  pub to_string_pretty : Json → Option Text

unfoldable pub default_pairing_file : Option Text → Result PairingError Text
default_pairing_file none = err no_home
default_pairing_file (some home) = ok (home ++ text "/.local/share/narwal-cli/pairing.json")

-- `Value::get` of a key
unfoldable pub find_field : Text → Fields → Option Json
find_field k no_fields = none
find_field k (field j v fields) =
    let rest = find_field k fields in if text_eq k j then some v else rest

unfoldable pub get_value : Text → Json → Option Json
unfolding find_field
get_value k (object fields) = find_field k fields
get_value k _ = none

-- `as_str`, of a value that may be missing
unfoldable pub as_str : Option Json → Option Text
as_str (some (string s)) = some s
as_str _ = none

unfoldable pub or_pairing_error {ℓ} : {A : Type ℓ} → Option A → PairingError → Result PairingError A
or_pairing_error none e = err e
or_pairing_error (some a) e = ok a

-- the closure `get` of `parse_pairing`
unfoldable pub get_text : Json → Text → Result PairingError Text
unfolding get_value as_str or_pairing_error
get_text v k = or_pairing_error (as_str (get_value k v)) (missing_field k)

unfoldable pub push_str : Option Text → List Text → List Text
push_str none rest = rest
push_str (some s) rest = s ∷ rest

-- `filter_map` to the strings of a list
unfoldable pub strings_of : Items → List Text
unfolding as_str push_str
strings_of no_items = []
strings_of (item v items) = push_str (as_str (some v)) (strings_of items)

-- the relays are optional
unfoldable pub relays_of : Option Json → List Text
unfolding strings_of
relays_of (some (array items)) = strings_of items
relays_of _ = []

unfoldable pub read_pairing : Json → Result PairingError Pairing
unfolding get_text relays_of get_value
read_pairing v = do
  app_secret_hex ← get_text v (text "app_secret_hex")
  bunker_pubkey_hex ← get_text v (text "bunker_pubkey_hex")
  user_pubkey_hex ← get_text v (text "user_pubkey_hex")
  ok (record {
    app_secret_hex = app_secret_hex;
    bunker_pubkey_hex = bunker_pubkey_hex;
    user_pubkey_hex = user_pubkey_hex;
    relays = relays_of (get_value (text "relays") v);
  })

abbrev pub lift_file {ℓ} : {A : Type ℓ} → Result SecretError A → Result PairingError A
lift_file (ok a) = ok a
lift_file (err e) = err (pairing_file_error e)

-- the list of strings that `json!` makes of the relays
unfoldable pub items_of : List Text → Items
items_of [] = no_items
items_of (s ∷ ss) = item (string s) (items_of ss)

-- the value that `json!` makes of a pairing
unfoldable pub pairing_value : Pairing → Json
unfolding items_of
pairing_value p = object (
    field (text "app_secret_hex") (string p.app_secret_hex) (
      field (text "bunker_pubkey_hex") (string p.bunker_pubkey_hex) (
        field (text "user_pubkey_hex") (string p.user_pubkey_hex)
          (field (text "relays") (array (items_of p.relays)) no_fields))))

module _ (json : SerdeJson) where
  unfoldable pub parse_pairing : Text → Result PairingError (Option Pairing)
  unfolding read_pairing or_pairing_error
  parse_pairing raw = do
    v ← or_pairing_error (json.from_str raw) not_json
    pairing ← read_pairing v
    ok (some pairing)

  unfoldable pub load_stored : FileSystem → Text → Result PairingError (Option Pairing)
  unfolding parse_pairing
  load_stored fs path = do raw ← lift_file (read_secret_file fs path); parse_pairing raw

  -- `path.exists()` comes first
  unfoldable pub load_pairing : FileSystem → Text → Result PairingError (Option Pairing)
  unfolding load_stored get
  load_pairing fs path = elim (get path fs.files) [
    | none ↦ ok none
    | some file ↦ load_stored fs path
  ]

  unfoldable pub save_pairing : FileSystem → FilePath → Pairing → Result PairingError FileSystem
  unfolding pairing_value or_pairing_error
  save_pairing fs path pairing = do
    raw ← or_pairing_error (json.to_string_pretty (pairing_value pairing)) encode_failed
    lift_file (write_secret_file fs path (raw ++ 10 ∷ []))

  -- the files behind `save_pairing`, also where it failed
  unfoldable pub left_by_save : FileSystem → FilePath → Pairing → FileSystem
  unfolding pairing_value left_by_write
  left_by_save fs path pairing = elim (json.to_string_pretty (pairing_value pairing)) [
    | none ↦ fs
    | some raw ↦ left_by_write fs path (raw ++ 10 ∷ [])
  ]
