-- ===== src/Nip46/Pairing/Reuse.antt =====
-- src/nip46/pair.rs: `pair_via_qr`, which uses a stored pairing again or pairs afresh.
use narwal_publisher.Prelude.{
  List, [], ◌∷◌, Bool, true, false, Option, none, some, Text, Result, ok, err,
}
use narwal_publisher.Prelude.Effects.{continue}
use narwal_publisher.Secrets.{FilePath, FileSystem}
use narwal_publisher.Nip46.Session.{Pairing, SerdeJson, left_by_save}
use narwal_publisher.Nip46.Signer.{RpcError}
use narwal_publisher.Nip46.Transport.{Network, Bunker}
use narwal_publisher.Nip46.Bunker.{KeyCrate, paired}
use narwal_publisher.Nip46.Operations.{user_public_key, refresh_relays, add_relays}
use narwal_publisher.Nip46.Pair.{reuse_relays}
use narwal_publisher.Nip46.Pairing.{
  PairError, signer_error, stored_failed, Ceremony, wrap_err, push_relays, load, suggested,
  pair_fresh,
}

module _ (net : Network) (keys : KeyCrate) (json : SerdeJson) (out : Ceremony) where
  -- `timeout(5 s, signer.refresh_relays())`, where an error counts as no relays
  unfoldable pub relays_now : Bunker → List Text × Bunker
  unfolding refresh_relays
  relays_now s = elim (out.cut_refresh s) [
    | some t ↦ ([], t)
    | none ↦ suggested net keys json out (refresh_relays net json s)
  ]

  abbrev pub save_changed : FilePath → Pairing → List Text × Bool → FileSystem → FileSystem
  save_changed path pairing (relays, false) fs = fs
  save_changed path pairing (relays, true) fs =
      left_by_save json fs path (record pairing { relays = relays })

  -- the relays that the signer names are added, and saved where some are new
  unfoldable pub follow_signer : FilePath → Pairing → List Text → FileSystem → FileSystem
  unfolding push_relays left_by_save
  follow_signer path pairing [] fs = fs
  follow_signer path pairing (r ∷ extra) fs =
      save_changed path pairing (push_relays pairing.relays false (r ∷ extra)) fs

  abbrev pub still_paired : Result RpcError Text × Bunker → Result PairError Bunker
  still_paired (ok pk, t) = ok t
  still_paired (err e, t) = err (stored_failed e)

  -- an empty user key was not known yet: then a failure is no error
  unfoldable pub check_user : Text → Bunker → Result PairError Bunker
  unfolding user_public_key
  check_user [] s = ok (user_public_key net s).1
  check_user (c ∷ cs) s = still_paired (user_public_key net s)

  unfoldable pub reuse :
      List Text → FilePath → Pairing → FileSystem → Result PairError Bunker × FileSystem
  unfolding reuse_relays paired wrap_err relays_now add_relays follow_signer check_user
  reuse requested path pairing fs =
      continue
        (wrap_err signer_error (paired keys pairing (reuse_relays pairing.relays requested)), fs)
        λ s fs.
          let now = relays_now s in
          (
            check_user pairing.user_pubkey_hex (add_relays net now.0 now.1),
            follow_signer path pairing now.0 fs,
          )

  abbrev pub reuse_or_pair :
      List Text → FilePath → Option Pairing → FileSystem → Result PairError Bunker × FileSystem
  reuse_or_pair requested path none fs = pair_fresh net keys json out requested path fs
  reuse_or_pair requested path (some pairing) fs = reuse requested path pairing fs

  unfoldable pub pair_via_qr :
      List Text → FilePath → FileSystem → Result PairError Bunker × FileSystem
  unfolding load pair_fresh reuse
  pair_via_qr requested path fs =
      continue (load net keys json out path fs) (reuse_or_pair requested path)
