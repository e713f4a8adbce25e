-- ===== src/Nip46/Protocol/Reach.antt =====
-- src/nip46/signer.rs: what holds of a remote signer after any sequence of its operations.
use narwal_publisher.Prelude.{
  ◌≡◌, refl, sym, ap, ◌∙◌, List, [], ◌∷◌, true, false, Option, none, some, Text, Result, ok,
  ok-injective, arith,
}
use narwal_publisher.Prelude.Effects.{continue-eq-ok}
use narwal_publisher.Nip46.Session.{SerdeJson}
use narwal_publisher.Nip46.Signer.{ResponseResult, RpcError}
use narwal_publisher.Nip46.Transport.{
  Keys, Event, Request, typed, Network, Bunker, client_add_relay, rpc_raw,
}
use narwal_publisher.Nip46.Bunker.{unused}
use narwal_publisher.Nip46.Operations.{
  as_public_key, as_event, as_ciphertext, as_plaintext, refresh_id, switch_payload,
  ensure_handshake, key_once, set_once, store_key, user_public_key, command, sign_event,
  nip44_encrypt, nip44_decrypt, add_relays, hear, refresh_relays,
}
use narwal_publisher.Nip46.Protocol.{
  has_secret, ordered, Later, Later-refl, Later-trans, Later-loose, Later-continue,
}
use narwal_publisher.Nip46.Protocol.Rounds.{rpc_raw-Later, client_add_relay-Later}
use narwal_publisher.Nip46.Protocol.Handshake.{call-Later, ensure_handshake-Later, shaken-Allowed}

module _ (net : Network) where
  command-Later :
      {A : Type 0} (req : Request) (expected : ResponseResult → Result RpcError A) (s : Bunker)
      → Later net true s (command net req expected s).1
  command-Later req expected s =
      Later-continue net true s (ensure_handshake net s) _ (ensure_handshake-Later net s)
        (λ _ t x e.
          call-Later net req expected t
            (shaken-Allowed net (typed (net.fresh_id t.exchanges) req) s t x e))

  store_key-Later : (k : Text) (t : Bunker) → Later net false t (store_key net k t).1
  store_key-Later k t = ground arith

  key_once-Later : (o : Option Text) (s : Bunker) → Later net false s (key_once net o s).1
  key_once-Later (some k) s = Later-refl net false s
  key_once-Later none s =
      Later-continue net false s (command net Request.get_public_key as_public_key s) _
        (Later-loose net s _ (command-Later Request.get_public_key as_public_key s))
        (λ k t _ _. store_key-Later k t)

  pub user_public_key-Later : (s : Bunker) → Later net false s (user_public_key net s).1
  unfolding user_public_key
  user_public_key-Later s = key_once-Later s.user_pubkey s

  pub refresh_relays-Later :
      (json : SerdeJson) (s : Bunker) → Later net true s (refresh_relays net json s).1
  unfolding refresh_relays switch_payload
  refresh_relays-Later json s =
      let id = refresh_id (net.nanos s.exchanges) (net.refresh_count s.exchanges) in
      Later-continue net true s (rpc_raw net id (switch_payload id) s) _
        (rpc_raw-Later net id (switch_payload id) s (λ c. cc)) (λ _ t _ _. Later-refl net true t)

  pub add_relays-Later :
      (relays : List Text) (s : Bunker) → Later net true s (add_relays net relays s)
  unfolding add_relays
  add_relays-Later [] s = Later-refl net true s
  add_relays-Later (relay ∷ relays) s =
      Later-trans net true s (client_add_relay net relay s).1 _ (client_add_relay-Later net relay s)
        (add_relays-Later relays (client_add_relay net relay s).1)

  hear-Later : (event : Event) (s : Bunker) → Later net true s (hear net event s)
  unfolding hear
  hear-Later event s = ground arith

  -- one operation of a signer, or one event that its background task handles
  pub data Step (s : Bunker) : Bunker → Type 0 where
    finds_key : Step s (user_public_key net s).1
    signs : (unsigned : Text) → Step s (sign_event net unsigned s).1
    encrypts : (other content : Text) → Step s (nip44_encrypt net other content s).1
    decrypts : (other payload : Text) → Step s (nip44_decrypt net other payload s).1
    refreshes : (json : SerdeJson) → Step s (refresh_relays net json s).1
    extends : (relays : List Text) → Step s (add_relays net relays s)
    hears : (event : Event) → Step s (hear net event s)

  pub data Reach (s : Bunker) : Bunker → Type 0 where
    here : Reach s s
    next : {t u : Bunker} → Reach s t → Step t u → Reach s u

  Step-Later : {s t : Bunker} → Step s t → Later net false s t
  unfolding sign_event nip44_encrypt nip44_decrypt
  Step-Later {s} finds_key = user_public_key-Later s
  Step-Later {s} (signs unsigned) =
      Later-loose net s _ (command-Later (Request.sign_event unsigned) as_event s)
  Step-Later {s} (encrypts other content) =
      Later-loose net s _ (command-Later (Request.nip44_encrypt other content) as_ciphertext s)
  Step-Later {s} (decrypts other payload) =
      Later-loose net s _ (command-Later (Request.nip44_decrypt other payload) as_plaintext s)
  Step-Later {s} (refreshes json) = Later-loose net s _ (refresh_relays-Later json s)
  Step-Later {s} (extends relays) = Later-loose net s _ (add_relays-Later relays s)
  Step-Later {s} (hears event) = Later-loose net s _ (hear-Later event s)

  pub Reach-Later : {s t : Bunker} → Reach s t → Later net false s t
  Reach-Later {s} here = Later-refl net false s
  Reach-Later {s} (next {t} {u} r st) = Later-trans net false s t u (Reach-Later r) (Step-Later st)

  -- Whatever sequence of operations and events a signer from a URL with a secret goes through, each
  -- request for the user key, a signature or NIP-44 that it sent came after the signer had
  -- acknowledged a `connect`.
  pub commands_after_ack :
      (keys : Keys) (bunker_pubkey : Text) (relays : List Text) (secret : Text) {t : Bunker}
      → Reach (unused keys bunker_pubkey relays (some secret)) t
      → ordered net t.exchanges ≡ true
  unfolding ordered
  commands_after_ack keys bunker_pubkey relays secret {t} r =
      let x = Reach-Later r in
      (x.proper_kept (record { shaken = λ _ h. cc; in_order = λ _. refl })).in_order
        (ap has_secret x.same_secret)

  key_once-found :
      (o : Option Text) (s : Bunker) (k : Text)
      → s.user_pubkey ≡ o
      → (key_once net o s).0 ≡ ok k
      → (key_once net o s).1.user_pubkey ≡ some k
  key_once-found (some j) s k e h = cc
  key_once-found none s k e h =
      let (j, found, f) = continue-eq-ok (command net Request.get_public_key as_public_key s) _ h in
      let t : Bunker = (command net Request.get_public_key as_public_key s).1 in
      let same = (command-Later Request.get_public_key as_public_key s).key_fixed refl ∙ e in
      ap (λ (q : Result RpcError Text × Bunker). q.1.user_pubkey) f
      ∙ ap (λ o. set_once net o j) same
      ∙ ap some (ok-injective (ap (λ (q : Result RpcError Text × Bunker). q.0) (sym f) ∙ h))

  -- A user key that was found once is the answer from then on, after any sequence of operations and
  -- events, and no exchange is made for it.
  pub user_public_key_once :
      (s : Bunker) (k : Text) {t : Bunker}
      → (user_public_key net s).0 ≡ ok k
      → Reach (user_public_key net s).1 t
      → user_public_key net t ≡ (ok k, t)
  unfolding user_public_key
  user_public_key_once s k {t} found r =
      ap (λ o. key_once net o t)
        ((Reach-Later r).key_kept k (key_once-found s.user_pubkey s k refl found))
