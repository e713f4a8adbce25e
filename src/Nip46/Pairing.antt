-- ===== src/Nip46/Pairing.antt =====
-- src/nip46/pair.rs: `pair_fresh`. The state is the file system. What the relays, the clock, the
-- random numbers and the QR crate give is the record `Ceremony`.
pub mod Reuse
pub mod Stored
pub mod Fresh
pub mod Gate
use narwal_publisher.Prelude.{
  ℕ, suc, ◌+◌, ◌*◌, ◌/◌, List, [], ◌∷◌, ◌++◌, Bool, true, false, Option, none, some, Bytes, Text,
  Result, ok, err, ◌>>=◌, if◌then◌else◌,
}
use narwal_publisher.Prelude.Effects.{continue, lift}
use narwal_publisher.Prelude.Membership.{mem}
use narwal_publisher.Secrets.{FilePath, FileSystem}
use narwal_publisher.Nip46.Session.{
  Pairing, PairingError, SerdeJson, load_pairing, save_pairing, left_by_save,
}
use narwal_publisher.Nip46.Signer.{RpcError}
use narwal_publisher.Nip46.Signer.Poll.{wait_for_any_connection}
use narwal_publisher.Nip46.Transport.{Keys, Network, Bunker}
use narwal_publisher.Nip46.Bunker.{KeyCrate, transport_only, paired}
use narwal_publisher.Nip46.Operations.{user_public_key, refresh_relays, add_relays}
use narwal_publisher.Nip46.Pair.{
  resolve_handshake_relays, merge_relays, reuse_relays, effective_relays, pairing_uri,
}
use narwal_publisher.Nip46.Pair.Qr.{QrCode, render}
use narwal_publisher.Nip46.Pair.Accept.{WaitError, Round, await_connect_response}

-- PAIRING_TIMEOUT and FIRST_CONNECT_BUDGET, in milliseconds
abbrev pub pairing_timeout : ℕ
pairing_timeout = 60 * 1000

abbrev pub first_connect_budget : ℕ
first_connect_budget = 4 * 1000

pub data PairError : Type 0 where
  pairing_error : PairingError → PairError
  bad_handshake_relay relay_failed : Text → PairError
  subscribe_failed qr_failed : PairError
  wait_error : WaitError → PairError
  signer_error stored_failed : RpcError → PairError

-- `rounds` is what comes in when a URI is shown. The call that finds the user key has a time limit,
-- and so has the one that asks a stored signer for its relays: `some t` is the state in which the
-- limit cut it off.
pub record Ceremony : Type 0 where
  pub relay_url_ok : Text → Bool
  pub add_relay : Text → Bool
  pub relay_states : ℕ → List (Text × Bool)
  pub clock : ℕ → ℕ
  pub subscribe : Bool
  pub random_bytes : Bytes
  pub hex : Bytes → Text
  pub qr : Text → Option QrCode
  pub shown_at : ℕ
  pub rounds : Text → List Round
  pub cut_verify : Bunker → Option Bunker
  pub cut_refresh : Bunker → Option Bunker

unfoldable pub or_pair_error {ℓ} : {A : Type ℓ} → Option A → PairError → Result PairError A
or_pair_error none e = err e
or_pair_error (some a) e = ok a

unfoldable pub wrap_err {ℓ} :
    {E : Type 0} {A : Type ℓ} → (E → PairError) → Result E A → Result PairError A
wrap_err wrap (ok a) = ok a
wrap_err wrap (err e) = err (wrap e)

unfoldable pub check : Bool → PairError → Result PairError (Unit {0})
check true e = ok tt
check false e = err e

-- a loop over relays that ends at the first for which the test fails
unfoldable pub check_each :
    (Text → Bool) → (Text → PairError) → List Text → Result PairError (Unit {0})
check_each test wrong [] = ok tt
check_each test wrong (r ∷ relays) =
    let rest = check_each test wrong relays in if test r then rest else err (wrong r)

-- `unwrap_or_default`
abbrev pub or_empty : Option Text → Text
or_empty none = []
or_empty (some s) = s

abbrev pub or_no_relays : Option (List Text) → List Text
or_no_relays none = []
or_no_relays (some relays) = relays

-- `for r in extra`: the relays that are not there yet, and whether there were any
unfoldable pub push_relays : List Text → Bool → List Text → List Text × Bool
unfolding mem
push_relays relays changed [] = (relays, changed)
push_relays relays changed (r ∷ extra) =
    push_relays (if mem r relays then relays else relays ++ r ∷ [])
      (if mem r relays then changed else true) extra

module _ (net : Network) (keys : KeyCrate) (json : SerdeJson) (out : Ceremony) where
  unfoldable pub load : FilePath → FileSystem → Result PairError (Option Pairing) × FileSystem
  unfolding wrap_err load_pairing
  load path fs = (wrap_err pairing_error (load_pairing json fs path.name), fs)

  unfoldable pub save : FilePath → Pairing → FileSystem → Result PairError FileSystem × FileSystem
  unfolding wrap_err save_pairing left_by_save
  save path pairing fs = (
    wrap_err pairing_error (save_pairing json fs path pairing),
    left_by_save json fs path pairing,
  )

  unfoldable pub fresh_secret : Text
  fresh_secret = out.hex out.random_bytes

  -- the relays that the code advertises
  unfoldable pub handshake_relays : List Text → Result PairError (List Text)
  unfolding check_each effective_relays resolve_handshake_relays wait_for_any_connection
  handshake_relays requested = do
    parsed ← check_each out.relay_url_ok bad_handshake_relay (resolve_handshake_relays requested)
    joined ← check_each out.add_relay relay_failed (resolve_handshake_relays requested)
    ok (
        effective_relays requested (
          or_no_relays (
            wait_for_any_connection out.relay_states out.clock
              (suc (suc (first_connect_budget / 250))) first_connect_budget)))

  -- the code is shown, and the signer that scans it is waited for
  unfoldable pub meet_signer : Keys → Text → List Text → Result PairError Text
  unfolding check or_pair_error wrap_err pairing_uri await_connect_response
  meet_signer app_keys secret relays = do
    listening ← check out.subscribe subscribe_failed
    code ← or_pair_error (out.qr (pairing_uri app_keys.public_key relays secret)) qr_failed
    wrap_err wait_error (
        await_connect_response net json app_keys secret (out.shown_at + pairing_timeout)
          (out.rounds (pairing_uri app_keys.public_key relays secret)))

  abbrev pub key_or_none : Result RpcError Text × Bunker → Option Text × Bunker
  key_or_none (ok pk, t) = (some pk, t)
  key_or_none (err e, t) = (none, t)

  -- `timeout(VERIFY_TIMEOUT, transport.user_public_key())`
  unfoldable pub verify_user : Bunker → Option Text × Bunker
  unfolding user_public_key
  verify_user s = elim (out.cut_verify s) [
    | some t ↦ (none, t)
    | none ↦ key_or_none (user_public_key net s)
  ]

  abbrev pub suggested : Result RpcError (List Text) × Bunker → List Text × Bunker
  suggested (ok extra, t) = (extra, t)
  suggested (err e, t) = ([], t)

  -- the handshake relays, and those that the signer names; the transport is not used any more
  unfoldable pub adopt_relays : List Text → Bunker → List Text
  unfolding refresh_relays merge_relays
  adopt_relays relays s = merge_relays relays (suggested (refresh_relays net json s)).0

  -- all of `pair_fresh` up to the pairing that is saved
  unfoldable pub hold_ceremony : List Text → Result PairError Pairing
  unfolding handshake_relays meet_signer verify_user adopt_relays fresh_secret transport_only
  hold_ceremony requested = do
    relays ← handshake_relays requested
    remote_signer_pubkey ← meet_signer keys.generate fresh_secret relays
    let verified = verify_user (transport_only keys.generate remote_signer_pubkey relays)
    ok (record {
      app_secret_hex = keys.generate.secret_key;
      bunker_pubkey_hex = remote_signer_pubkey;
      user_pubkey_hex = or_empty verified.0;
      relays = adopt_relays relays verified.1;
    })

  unfoldable pub pair_fresh :
      List Text → FilePath → FileSystem → Result PairError Bunker × FileSystem
  unfolding load hold_ceremony save paired wrap_err
  pair_fresh requested path fs = continue (load path fs) λ old fs.
      continue (hold_ceremony requested, fs)
        λ pairing fs.
          continue (save path pairing fs)
            λ saved fs. (wrap_err signer_error (paired keys pairing pairing.relays), fs)
