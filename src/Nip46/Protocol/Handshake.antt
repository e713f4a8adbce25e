-- ===== src/Nip46/Protocol/Handshake.antt =====
-- src/nip46/signer.rs: the handshake keeps what the signer has reached, and is what it says.
use narwal_publisher.Prelude.{
  ◌≡◌, refl, sym, ap, ◌∙◌, Bool, true, false, ◌||◌, Option, none, some, Text, Result, ok, err,
  ◌>>=◌, arith,
}
use narwal_publisher.Prelude.Effects.{continue-eq-ok}
use narwal_publisher.Nip46.Signer.{Method, ResponseResult, ack, RpcError, response_to_result}
use narwal_publisher.Nip46.Transport.{Request, Payload, typed, method, Network, Bunker, rpc}
use narwal_publisher.Nip46.Operations.{
  is_ack, call, handshake_once, handshake_with, ensure_handshake,
}
use narwal_publisher.Nip46.Protocol.{
  has_secret, is_ack_result, acked, Later, Later-refl, Later-continue,
}
use narwal_publisher.Nip46.Protocol.Rounds.{Allowed, rpc_raw-Later, rpc_raw-Answered}

module _ (net : Network) where
  pub call-Later :
      {A : Type 0} (req : Request) (expected : ResponseResult → Result RpcError A) (s : Bunker)
      → Allowed net (typed (net.fresh_id s.exchanges) req) s
      → Later net true s (call net req expected s).1
  unfolding call rpc
  call-Later req expected s allowed =
      Later-continue net true s (rpc net req s) _
        (rpc_raw-Later net (net.fresh_id s.exchanges) (typed (net.fresh_id s.exchanges) req) s
          allowed)
        (λ _ t _ _. Later-refl net true t)

  acknowledged :
      (r : Result RpcError ResponseResult) → (r >>= is_ack) ≡ ok tt → is_ack_result r ≡ true
  acknowledged (err e) h = cc
  acknowledged (ok ack) h = refl
  acknowledged (ok _) h = cc

  -- a `connect` that succeeds was acknowledged
  connect-acked :
      (k : Text) (secret : Option Text) (s : Bunker)
      → (call net (Request.connect k secret) is_ack s).0 ≡ ok tt
      → acked net (call net (Request.connect k secret) is_ack s).1.exchanges ≡ true
  unfolding call rpc method acked
  connect-acked k secret s h =
      let (msg, got, e) = continue-eq-ok (rpc net (Request.connect k secret) s) _ h in
      let id = net.fresh_id s.exchanges in
      let answer = rpc_raw-Answered net id (typed id (Request.connect k secret)) msg s got in
      ap (λ (q : Result RpcError (Unit {0}) × Bunker). acked net q.1.exchanges) e
      ∙ ap (acked net) answer.last
      ∙ ap (λ b. b || acked net answer.older)
          (acknowledged (response_to_result net.to_response msg Method.connect)
            (ap (λ (q : Result RpcError (Unit {0}) × Bunker). q.0) (sym e) ∙ h))

  finish-Later :
      (t : Bunker) → acked net t.exchanges ≡ true → Later net true t (record t { handshook = true })
  finish-Later t h = ground arith

  handshake_once-Later :
      (b : Bool) (secret : Text) (s : Bunker) → Later net true s (handshake_once net b secret s).1
  handshake_once-Later true secret s = Later-refl net true s
  handshake_once-Later false secret s =
      Later-continue net true s (call net (Request.connect s.bunker_pubkey (some secret)) is_ack s)
        _ (call-Later (Request.connect s.bunker_pubkey (some secret)) is_ack s (λ c. cc))
        (λ _ t _ e. finish-Later t (
          ap (λ (q : Result RpcError (Unit {0}) × Bunker). acked net q.1.exchanges) (sym e)
          ∙ connect-acked s.bunker_pubkey (some secret) s
              (ap (λ (q : Result RpcError (Unit {0}) × Bunker). q.0) e)))

  handshake_with-Later :
      (secret : Option Text) (s : Bunker) → Later net true s (handshake_with net secret s).1
  handshake_with-Later none s = Later-refl net true s
  handshake_with-Later (some secret) s = handshake_once-Later s.handshook secret s

  pub ensure_handshake-Later : (s : Bunker) → Later net true s (ensure_handshake net s).1
  unfolding ensure_handshake
  ensure_handshake-Later s = handshake_with-Later s.app_secret s

  handshake_once-shaken :
      (b : Bool) (secret : Text) (s : Bunker)
      → s.handshook ≡ b
      → (handshake_once net b secret s).0 ≡ ok tt
      → (handshake_once net b secret s).1.handshook ≡ true
  handshake_once-shaken true secret s e h = e
  handshake_once-shaken false secret s e h =
      let (_, _, f) =
        continue-eq-ok (call net (Request.connect s.bunker_pubkey (some secret)) is_ack s) _ h in
      ap (λ (q : Result RpcError (Unit {0}) × Bunker). q.1.handshook) f

  -- a handshake that succeeds leaves the signer introduced, where it has a secret
  handshake_with-shaken :
      (secret : Option Text) (s : Bunker)
      → (handshake_with net secret s).0 ≡ ok tt
      → has_secret secret ≡ true
      → (handshake_with net secret s).1.handshook ≡ true
  handshake_with-shaken none s h g = cc
  handshake_with-shaken (some secret) s h g = handshake_once-shaken s.handshook secret s refl h

  -- behind a handshake that succeeded a command may go out
  pub shaken-Allowed :
      (payload : Payload) (s t : Bunker)
      → Later net true s t
      → ensure_handshake net s ≡ (ok tt, t)
      → Allowed net payload t
  unfolding ensure_handshake
  shaken-Allowed payload s t x e = λ _ g.
      ap (λ (q : Result RpcError (Unit {0}) × Bunker). q.1.handshook) (sym e)
      ∙ handshake_with-shaken s.app_secret s
          (ap (λ (q : Result RpcError (Unit {0}) × Bunker). q.0) e)
          (ap has_secret (sym x.same_secret) ∙ g)
