-- ===== src/Blossom/AuthHeader.antt =====
-- src/blossom.rs: the exchanges behind an authorization header.
use narwal_publisher.Prelude.{
  ℕ, ◌+◌, ◌-◌, inl, inr, refl, [], ◌∷◌, false, Option, none, some, Bytes, Text, Result, ok, err,
  arith, leb, Bool-cases,
}
use narwal_publisher.Prelude.Effects.{continue}
use narwal_publisher.Blossom.{
  told_time, signed, Network, Session, CachedToken, UploadError, unix_now, sign_event, mint_token,
  refresh_token, cached_or_fresh, auth_header, token_ttl_secs, refresh_margin_secs,
}
use narwal_publisher.Blossom.Exchanges.{Target, Added, Added-trans, Added-none}

Quiet-continue :
    {A B : Type 0} (to : Target) (s : Session) (p : Result UploadError A × Session)
    (next : A → Session → Result UploadError B × Session)
    → Added to 0 false s p.1
    → ((a : A) (t : Session) → Added to 0 false t (next a t).1)
    → Added to 0 false s (continue p next).1
Quiet-continue to s (ok a, t) next h k = Added-trans to 0 0 false false s t (next a t).1 h (k a t)
Quiet-continue to s (err e, t) next h k = h

module _ (network : Network) (hash_hex : Bytes → Text) (to : Target) where
  unix_now-Added : (s : Session) → Added to 0 false s (unix_now network hash_hex s).1
  unfolding unix_now
  unix_now-Added s = record {
    new = told_time (network.clock s.exchanges) ∷ [];
    same = refl;
    few = omega arith;
    found = refl;
    addressed = (tt, tt);
  }

  sign_event-Added :
      (expiration : ℕ) (s : Session)
      → Added to 0 false s (sign_event network hash_hex expiration s).1
  unfolding sign_event
  sign_event-Added expiration s = record {
    new = signed expiration (network.sign_token s.exchanges expiration) ∷ [];
    same = refl;
    few = omega arith;
    found = refl;
    addressed = (tt, tt);
  }

  mint_token-Added : (s : Session) → Added to 0 false s (mint_token network hash_hex s).1
  unfolding mint_token
  mint_token-Added s =
      Quiet-continue to s (unix_now network hash_hex s) _ (unix_now-Added s) (λ now t.
        Quiet-continue to t (sign_event network hash_hex (now + token_ttl_secs) t) _
          (sign_event-Added (now + token_ttl_secs) t) (λ header w. Added-none to w w refl))

  refresh_token-Added : (s : Session) → Added to 0 false s (refresh_token network hash_hex s).1
  unfolding refresh_token
  refresh_token-Added s =
      Quiet-continue to s (mint_token network hash_hex s) _ (mint_token-Added s)
        (λ tok t. Added-none to t (record t { auth_token = some tok }) refl)

  cached_or_fresh-Added :
      (now : ℕ) (cache : Option CachedToken) (s : Session)
      → Added to 0 false s (cached_or_fresh network hash_hex now cache s).1
  unfolding cached_or_fresh
  cached_or_fresh-Added now none s = refresh_token-Added s
  cached_or_fresh-Added now (some tok) s =
      elim (Bool-cases (leb refresh_margin_secs (tok.expires_at - now))) [
        | inl enough ↦ rw enough (Added-none to s s refl)
        | inr late ↦ rw late (refresh_token-Added s)
      ]

  pub auth_header-Added : (s : Session) → Added to 0 false s (auth_header network hash_hex s).1
  unfolding auth_header
  auth_header-Added s =
      Quiet-continue to s (unix_now network hash_hex s) _ (unix_now-Added s)
        (λ now t. cached_or_fresh-Added now t.auth_token t)
