-- ===== src/Nip46/Bunker.antt =====
-- src/nip46/signer.rs: the constructors of the remote signer.
use narwal_publisher.Prelude.{
  List, [], ◌∷◌, Bool, true, false, Option, none, some, Text, Result, ok, err, ◌>>=◌,
}
use narwal_publisher.Nip46.Session.{Pairing}
use narwal_publisher.Nip46.Signer.{
  RpcError, invalid_url, not_bunker, no_signer_pubkey, no_relays, bad_app_secret, bad_bunker_pubkey,
  bad_user_pubkey, or_rpc_error, Pending,
}
use narwal_publisher.Nip46.Transport.{Keys, Bunker}

-- `NostrConnectURI`, as its crate parses it
pub record ConnectUri : Type 0 where
  pub is_bunker : Bool
  pub remote_signer_public_key : Option Text
  pub relays : List Text
  pub secret : Option Text

abbrev pub no_pending : Pending
no_pending = record { waiting = []; completed = [] }

-- a signer that has done nothing yet
abbrev pub unused : Keys → Text → List Text → Option Text → Bunker
unused app_keys bunker_pubkey relays app_secret = record {
  app_keys = app_keys;
  bunker_pubkey = bunker_pubkey;
  relays = relays;
  app_secret = app_secret;
  started = false;
  handshook = false;
  user_pubkey = none;
  pending = no_pending;
  pool = [];
  exchanges = [];
}

abbrev pub check_relays : List Text → Result RpcError (List Text)
check_relays [] = err no_relays
check_relays (r ∷ rs) = ok (r ∷ rs)

abbrev pub check_bunker : Bool → Result RpcError (Unit {0})
check_bunker true = ok tt
check_bunker false = err not_bunker

-- `Keys::generate`, `Keys::parse` and the parsers of a URI and of a public key, which gives its
-- hexadecimal text
pub record KeyCrate : Type 0 where
  pub generate : Keys
  pub parse_keys : Text → Option Keys
  pub parse_uri : Text → Option ConnectUri
  pub parse_public_key : Text → Option Text

unfoldable pub transport_only : Keys → Text → List Text → Bunker
transport_only app_keys remote_signer_pubkey relays =
    record (unused app_keys remote_signer_pubkey relays none) { handshook = true }

module _ (keys : KeyCrate) where
  unfoldable pub new : Text → Result RpcError Bunker
  unfolding or_rpc_error
  new url = do
    uri ← or_rpc_error (keys.parse_uri url) invalid_url
    bunker ← check_bunker uri.is_bunker
    bunker_pubkey ← or_rpc_error uri.remote_signer_public_key no_signer_pubkey
    relays ← check_relays uri.relays
    ok (unused keys.generate bunker_pubkey relays uri.secret)

  -- the key that is put in the cache, unless it is empty
  unfoldable pub seeded : Text → Bunker → Result RpcError Bunker
  unfolding or_rpc_error
  seeded [] s = ok s
  seeded (c ∷ cs) s = do
    user_pubkey ← or_rpc_error (keys.parse_public_key (c ∷ cs)) bad_user_pubkey
    ok (record s { user_pubkey = some user_pubkey })

  unfoldable pub paired : Pairing → List Text → Result RpcError Bunker
  unfolding or_rpc_error transport_only seeded
  paired pairing relays = do
    app_keys ← or_rpc_error (keys.parse_keys pairing.app_secret_hex) bad_app_secret
    bunker_pubkey ← or_rpc_error (keys.parse_public_key pairing.bunker_pubkey_hex) bad_bunker_pubkey
    seeded pairing.user_pubkey_hex (transport_only app_keys bunker_pubkey relays)
