-- ===== src/Nip46/Pairing/Stored.antt =====
-- src/nip46/pair.rs: what becomes of a stored pairing whose user key is known.
use narwal_publisher.Prelude.{
  ◌≡◌, refl, sym, ap, subst, List, [], ◌∷◌, true, Option, none, some, Text, Result, ok, err,
}
use narwal_publisher.Secrets.{FilePath, FileSystem}
use narwal_publisher.Nip46.Session.{Pairing, SerdeJson, load_pairing}
use narwal_publisher.Nip46.Signer.{RpcError}
use narwal_publisher.Nip46.Transport.{Network, Bunker}
use narwal_publisher.Nip46.Bunker.{KeyCrate, paired}
use narwal_publisher.Nip46.Operations.{key_once, user_public_key, refresh_relays, add_relays}
use narwal_publisher.Nip46.Protocol.{Later, Later-trans}
use narwal_publisher.Nip46.Protocol.Reach.{refresh_relays-Later, add_relays-Later}
use narwal_publisher.Nip46.Pair.{reuse_relays}
use narwal_publisher.Nip46.Pairing.{Ceremony, wrap_err, load, suggested}
use narwal_publisher.Nip46.Pairing.Reuse.{relays_now, still_paired, check_user, reuse, pair_via_qr}

module _ (net : Network) (keys : KeyCrate) (json : SerdeJson) (out : Ceremony) where
  -- a call that is cut off leaves what the operations may leave
  abbrev pub CutLater : Type 0
  CutLater = (s t : Bunker) → out.cut_refresh s ≡ some t → Later net true s t

  suggested-state :
      (p : Result RpcError (List Text) × Bunker) → (suggested net keys json out p).1 ≡ p.1
  suggested-state (ok extra, t) = refl
  suggested-state (err e, t) = refl

  relays_now-Later : CutLater → (s : Bunker) → Later net true s (relays_now net keys json out s).1
  unfolding relays_now
  relays_now-Later cuts s = go (out.cut_refresh s) refl
    where
      go :
          (o : Option Bunker)
          → out.cut_refresh s ≡ o
          → Later net true s
              (elim o as (λ _. List Text × Bunker) [
                | some t ↦ ([], t)
                | none ↦ suggested net keys json out (refresh_relays net json s)
              ]).1
      go (some t) e = cuts s t e
      go none e =
          subst (Later net true s) (sym (suggested-state (refresh_relays net json s)))
            (refresh_relays-Later net json s)

  known_user :
      (hex : Text) (u : Bunker) (k : Text)
      → u.user_pubkey ≡ some k
      → check_user net keys json out hex u ≡ ok u
  unfolding check_user user_public_key
  known_user [] u k e = ap (λ o. ok (key_once net o u).1) e
  known_user (c ∷ cs) u k e = ap (λ o. still_paired net keys json out (key_once net o u)) e

  -- A stored pairing with a user key is used again whatever the signer answers: the key that is
  -- compared with the stored one is that same key, out of the cache, so that neither another key nor
  -- an unreachable signer is noticed. The result is the stored signer, with that key, after the
  -- refresh of its relays only.
  pub pair_via_qr_unchecked :
      (requested : List Text) (path : FilePath) (pairing : Pairing) (fs : FileSystem) (s : Bunker)
      (k : Text)
      → CutLater
      → load_pairing json fs path.name ≡ ok (some pairing)
      → paired keys pairing (reuse_relays pairing.relays requested) ≡ ok s
      → s.user_pubkey ≡ some k
      → let (extra, t) = relays_now net keys json out s in
        ((pair_via_qr net keys json out requested path fs).0 ≡ ok (add_relays net extra t))
        × ((add_relays net extra t).user_pubkey ≡ some k)
  unfolding pair_via_qr load reuse wrap_err
  pair_via_qr_unchecked requested path pairing fs s k cuts found built known =
      let (extra, t) = relays_now net keys json out s in
      let kept =
        (Later-trans net true s t (add_relays net extra t) (relays_now-Later cuts s)
            (add_relays-Later net extra t)).key_kept
          k known in
      (rw (found, built) (known_user pairing.user_pubkey_hex (add_relays net extra t) k kept), kept)
