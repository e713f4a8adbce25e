-- ===== src/Nip46/Protocol.antt =====
-- src/nip46/signer.rs: the order of a remote signer's exchanges, and what its operations keep.
pub mod Rounds
pub mod Handshake
pub mod Reach
pub mod Answer
use narwal_publisher.Prelude.{
  ◌≡◌, refl, sym, ◌∙◌, List, [], ◌∷◌, Bool, true, false, not, ◌&&◌, ◌||◌, Option, none, some, Text,
  Result, ok, err, arith,
}
use narwal_publisher.Prelude.Effects.{continue}
use narwal_publisher.Nip46.Signer.{
  Message, Method, ResponseResult, ack, RpcError, response_to_result,
}
use narwal_publisher.Nip46.Transport.{
  Request, Payload, typed, untyped, Exchange, added, waited, subscribed, sent, answered, Network,
  Bunker,
}

-- a request that the signer serves only to a client it knows
abbrev pub is_command : Payload → Bool
is_command (typed id (Request.connect k secret)) = false
is_command (typed id Request.get_public_key) = true
is_command (typed id (Request.sign_event unsigned)) = true
is_command (typed id (Request.nip44_encrypt k content)) = true
is_command (typed id (Request.nip44_decrypt k payload)) = true
is_command (untyped v) = false

abbrev pub is_connect : Payload → Bool
is_connect (typed id (Request.connect k secret)) = true
is_connect (typed id Request.get_public_key) = false
is_connect (typed id (Request.sign_event unsigned)) = false
is_connect (typed id (Request.nip44_encrypt k content)) = false
is_connect (typed id (Request.nip44_decrypt k payload)) = false
is_connect (untyped v) = false

abbrev pub commands : Exchange → Bool
commands (added relay done) = false
commands (waited relays) = false
commands (subscribed done) = false
commands (sent payload output) = is_command payload
commands (answered id reply) = false

abbrev pub ends_in_connect : List Exchange → Bool
ends_in_connect [] = false
ends_in_connect (added relay done ∷ es) = false
ends_in_connect (waited relays ∷ es) = false
ends_in_connect (subscribed done ∷ es) = false
ends_in_connect (sent payload output ∷ es) = is_connect payload
ends_in_connect (answered id reply ∷ es) = false

abbrev pub is_ack_result : Result RpcError ResponseResult → Bool
is_ack_result (ok ack) = true
is_ack_result _ = false

abbrev pub has_secret : Option Text → Bool
has_secret none = false
has_secret (some secret) = true

module _ (net : Network) where
  -- the signer's answer says that it knows this client
  abbrev pub is_ack_reply : Option Message → Bool
  is_ack_reply none = false
  is_ack_reply (some msg) = is_ack_result (response_to_result net.to_response msg Method.connect)

  abbrev pub acks : Exchange → List Exchange → Bool
  acks (added relay done) es = false
  acks (waited relays) es = false
  acks (subscribed done) es = false
  acks (sent payload output) es = false
  acks (answered id reply) es = ends_in_connect es && is_ack_reply reply

  -- some `connect` was answered by an acknowledgement
  unfoldable pub acked : List Exchange → Bool
  acked [] = false
  acked (e ∷ es) = acks e es || acked es

  -- every command came after an acknowledged `connect`
  unfoldable pub ordered : List Exchange → Bool
  unfolding acked
  ordered [] = true
  ordered (e ∷ es) = (not (commands e) || acked es) && ordered es

  -- of a signer that has to introduce itself with a secret
  pub record Proper (s : Bunker) : Type 0 where
    pub shaken : has_secret s.app_secret ≡ true → s.handshook ≡ true → acked s.exchanges ≡ true
    pub in_order : has_secret s.app_secret ≡ true → ordered s.exchanges ≡ true

  -- what no operation takes back; where `fixed`, the cached user key is as it was
  pub record Later (fixed : Bool) (s t : Bunker) : Type 0 where
    pub same_keys : t.app_keys ≡ s.app_keys
    pub same_bunker : t.bunker_pubkey ≡ s.bunker_pubkey
    pub same_relays : t.relays ≡ s.relays
    pub same_secret : t.app_secret ≡ s.app_secret
    pub started_kept : s.started ≡ true → t.started ≡ true
    pub handshook_kept : s.handshook ≡ true → t.handshook ≡ true
    pub key_kept : (k : Text) → s.user_pubkey ≡ some k → t.user_pubkey ≡ some k
    pub key_fixed : fixed ≡ true → t.user_pubkey ≡ s.user_pubkey
    pub acked_kept : acked s.exchanges ≡ true → acked t.exchanges ≡ true
    pub proper_kept : Proper s → Proper t

  pub Later-refl : (b : Bool) (s : Bunker) → Later b s s
  Later-refl b s = ground arith

  pub Later-trans : (b : Bool) (s t u : Bunker) → Later b s t → Later b t u → Later b s u
  Later-trans b s t u x y = record {
    same_keys = y.same_keys ∙ x.same_keys;
    same_bunker = y.same_bunker ∙ x.same_bunker;
    same_relays = y.same_relays ∙ x.same_relays;
    same_secret = y.same_secret ∙ x.same_secret;
    started_kept = λ h. y.started_kept (x.started_kept h);
    handshook_kept = λ h. y.handshook_kept (x.handshook_kept h);
    key_kept = λ k h. y.key_kept k (x.key_kept k h);
    key_fixed = λ h. y.key_fixed h ∙ x.key_fixed h;
    acked_kept = λ h. y.acked_kept (x.acked_kept h);
    proper_kept = λ p. y.proper_kept (x.proper_kept p);
  }

  pub Later-loose : (s t : Bunker) → Later true s t → Later false s t
  Later-loose s t x = record {
    same_keys = x.same_keys;
    same_bunker = x.same_bunker;
    same_relays = x.same_relays;
    same_secret = x.same_secret;
    started_kept = x.started_kept;
    handshook_kept = x.handshook_kept;
    key_kept = x.key_kept;
    key_fixed = λ h. cc;
    acked_kept = x.acked_kept;
    proper_kept = x.proper_kept;
  }

  pub Later-continue :
      {A B : Type 0} (b : Bool) (s : Bunker) (p : Result RpcError A × Bunker)
      (next : A → Bunker → Result RpcError B × Bunker)
      → Later b s p.1
      → ((a : A) (t : Bunker) → Later b s t → p ≡ (ok a, t) → Later b t (next a t).1)
      → Later b s (continue p next).1
  Later-continue b s (ok a, t) next x h = Later-trans b s t (next a t).1 x (h a t x refl)
  Later-continue b s (err e, t) next x h = x
