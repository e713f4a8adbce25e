-- ===== src/Nip46/Pairing/Fresh.antt =====
-- src/nip46/pair.rs: what a pairing that succeeded has stored, and what a later run makes of it.
use narwal_publisher.Prelude.{
  ◌≡◌, ◌+◌, refl, sym, ap, subst, ◌∙◌, List, [], ◌∷◌, ◌++◌, true, Option, none, some, Text, Result,
  ok, err, ◌>>=◌, >>=-eq-ok, ok-injective,
}
use narwal_publisher.Prelude.Effects.{continue-eq-ok}
use narwal_publisher.Secrets.{
  FilePath, FileSystem, create_parent, write_file, write_secret_file, left_by_write, trim,
}
use narwal_publisher.Nip46.Session.{
  Pairing, SerdeJson, pairing_value, encode_failed, or_pairing_error, lift_file, load_pairing,
  save_pairing, left_by_save,
}
use narwal_publisher.Nip46.Session.RoundTrip.{lift_file-eq-ok, load_pairing-save_pairing}
use narwal_publisher.Nip46.Transport.{Network, Bunker}
use narwal_publisher.Nip46.Bunker.{KeyCrate, paired}
use narwal_publisher.Nip46.Pair.{pairing_uri}
use narwal_publisher.Nip46.Pair.Accept.{await_connect_response}
use narwal_publisher.Nip46.Pair.Accept.Chosen.{Chosen, await_connect_response_iff}
use narwal_publisher.Nip46.Pairing.{
  PairError, subscribe_failed, qr_failed, pairing_timeout, pairing_error, signer_error, wait_error,
  Ceremony, or_pair_error, wrap_err, check, load, save, fresh_secret, handshake_relays, meet_signer,
  hold_ceremony, pair_fresh,
}

wrap_err-eq-ok :
    {E A : Type 0} (wrap : E → PairError) (r : Result E A) (a : A)
    → wrap_err wrap r ≡ ok a
    → r ≡ ok a
unfolding wrap_err
wrap_err-eq-ok wrap (ok b) a h = cc
wrap_err-eq-ok wrap (err e) a h = cc

left_by_write-ok :
    (fs fs' : FileSystem) (path : FilePath) (contents : Text)
    → write_secret_file fs path contents ≡ ok fs'
    → left_by_write fs path contents ≡ fs'
unfolding write_secret_file left_by_write
left_by_write-ok fs fs' path contents h =
    let (made, c, e) = >>=-eq-ok (create_parent fs path) _ h in
    let (written, w, f) = >>=-eq-ok (write_file fs path.name contents) _ e in
    rw (c, left_by_write, w, f) refl

left_by_save-ok :
    (json : SerdeJson) (fs fs' : FileSystem) (path : FilePath) (pairing : Pairing)
    → save_pairing json fs path pairing ≡ ok fs'
    → left_by_save json fs path pairing ≡ fs'
unfolding save_pairing left_by_save or_pairing_error
left_by_save-ok json fs fs' path pairing h = go (json.to_string_pretty (pairing_value pairing)) h
  where
    go :
        (o : Option Text)
        → (or_pairing_error o encode_failed >>= λ raw.
            lift_file (write_secret_file fs path (raw ++ 10 ∷ [])))
          ≡ ok fs'
        → elim o as (λ _. FileSystem) [
          | none ↦ fs
          | some raw ↦ left_by_write fs path (raw ++ 10 ∷ [])
        ]
          ≡ fs'
    go none h = cc
    go (some raw) h =
        left_by_write-ok fs fs' path (raw ++ 10 ∷ [])
          (lift_file-eq-ok (write_secret_file fs path (raw ++ 10 ∷ [])) fs' h)

printed :
    (json : SerdeJson) (fs fs' : FileSystem) (path : FilePath) (pairing : Pairing)
    → save_pairing json fs path pairing ≡ ok fs'
    → (raw : Text) × (json.to_string_pretty (pairing_value pairing) ≡ some raw)
unfolding save_pairing or_pairing_error
printed json fs fs' path pairing h = go (json.to_string_pretty (pairing_value pairing)) refl h
  where
    go :
        (o : Option Text)
        → json.to_string_pretty (pairing_value pairing) ≡ o
        → (or_pairing_error o encode_failed >>= λ raw.
            lift_file (write_secret_file fs path (raw ++ 10 ∷ [])))
          ≡ ok fs'
        → (raw : Text) × (json.to_string_pretty (pairing_value pairing) ≡ some raw)
    go none e h = cc
    go (some raw) e h = (raw, e)

module _ (net : Network) (keys : KeyCrate) (json : SerdeJson) (out : Ceremony) where
  -- the code that was shown, and the signer that scanned it
  pub record Met (requested : List Text) (pairing : Pairing) : Type 0 where
    pub relays : List Text
    pub advertised : handshake_relays net keys json out requested ≡ ok relays
    pub app_key : pairing.app_secret_hex ≡ keys.generate.secret_key
    pub signer :
        Chosen net json keys.generate
          (fresh_secret net keys json out)
          (out.shown_at + pairing_timeout)
          pairing.bunker_pubkey_hex
          (out.rounds
            (pairing_uri keys.generate.public_key relays (fresh_secret net keys json out)))

  chosen :
      (secret : Text) (relays : List Text) (pk : Text)
      → meet_signer net keys json out keys.generate secret relays ≡ ok pk
      → Chosen net json keys.generate secret
          (out.shown_at + pairing_timeout)
          pk
          (out.rounds (pairing_uri keys.generate.public_key relays secret))
  unfolding meet_signer
  chosen secret relays pk h =
      let (_, _, e) = >>=-eq-ok (check out.subscribe subscribe_failed) _ h in
      let (_, _, f) =
        >>=-eq-ok
          (or_pair_error (out.qr (pairing_uri keys.generate.public_key relays secret)) qr_failed) _
          e in
      let rounds = out.rounds (pairing_uri keys.generate.public_key relays secret) in
      let deadline = out.shown_at + pairing_timeout in
      (await_connect_response_iff net json keys.generate secret deadline pk rounds).0 (
        wrap_err-eq-ok wait_error
          (await_connect_response net json keys.generate secret deadline rounds) pk f)

  met :
      (requested : List Text) (pairing : Pairing)
      → hold_ceremony net keys json out requested ≡ ok pairing
      → Met requested pairing
  unfolding hold_ceremony
  met requested pairing h =
      let (relays, advertised, e) = >>=-eq-ok (handshake_relays net keys json out requested) _ h in
      let secret = fresh_secret net keys json out in
      let (pk, scanned, f) =
        >>=-eq-ok (meet_signer net keys json out keys.generate secret relays) _ e in
      let same = ok-injective f in
      record {
        relays = relays;
        advertised = advertised;
        app_key = ap (λ (p : Pairing). p.app_secret_hex) (sym same);
        signer =
            subst
              (λ k.
                Chosen net json keys.generate secret (out.shown_at + pairing_timeout) k
                  (out.rounds (pairing_uri keys.generate.public_key relays secret)))
              (ap (λ (p : Pairing). p.bunker_pubkey_hex) same) (chosen secret relays pk scanned);
      }

  -- Where JSON reads back what it printed of the pairing of this run, as `trim` leaves it, and the
  -- process can read the file: a pairing that succeeds has stored a pairing, which the next run
  -- loads. It has the app key of this run, and the key of the signer that was first, within the time
  -- limit, to send back the secret of the code that advertised the handshake relays. The signer that
  -- is returned is the one of that pairing.
  pub pair_fresh_stored :
      (requested : List Text) (path : FilePath) (fs : FileSystem) (t : Bunker)
      → ((p : Pairing) (raw : Text)
          → hold_ceremony net keys json out requested ≡ ok p
          → json.to_string_pretty (pairing_value p) ≡ some raw
          → json.from_str (trim (raw ++ 10 ∷ [])) ≡ some (pairing_value p))
      → fs.readable path.name ≡ true
      → (pair_fresh net keys json out requested path fs).0 ≡ ok t
      → (pairing : Pairing) × Met requested pairing
        × (load_pairing json (pair_fresh net keys json out requested path fs).1 path.name
            ≡ ok (some pairing))
        × (paired keys pairing pairing.relays ≡ ok t)
  unfolding pair_fresh load save
  pair_fresh_stored requested path fs t reads readable h =
      let (old, _, e) = continue-eq-ok (load net keys json out path fs) _ h in
      let (pairing, held, f) =
        continue-eq-ok (hold_ceremony net keys json out requested, fs) _
          (ap (λ (q : Result PairError Bunker × FileSystem). q.0) (sym e) ∙ h) in
      let (fs', stored, g) =
        continue-eq-ok (save net keys json out path pairing fs) _
          (ap (λ (q : Result PairError Bunker × FileSystem). q.0) (sym (e ∙ f)) ∙ h) in
      let saved = wrap_err-eq-ok pairing_error (save_pairing json fs path pairing) fs' stored in
      let (raw, prints) = printed json fs fs' path pairing saved in
      (
        pairing,
        met requested pairing held,
        subst (λ (files : FileSystem). load_pairing json files path.name ≡ ok (some pairing))
            (sym (
              ap (λ (q : Result PairError Bunker × FileSystem). q.1) (e ∙ f ∙ g)
              ∙ left_by_save-ok json fs fs' path pairing saved))
            (load_pairing-save_pairing json fs fs' path pairing raw prints
              (reads pairing raw held prints) readable saved),
        wrap_err-eq-ok signer_error (paired keys pairing pairing.relays) t
            (ap (λ (q : Result PairError Bunker × FileSystem). q.0) (sym (e ∙ f ∙ g)) ∙ h),
      )
