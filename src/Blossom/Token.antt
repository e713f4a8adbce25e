-- ===== src/Blossom/Token.antt =====
-- src/blossom.rs: the token that an upload sends is good for a minute at least.
use narwal_publisher.Prelude.{
  ℕ, ◌+◌, ◌-◌, ◌≤◌, ◌≡◌, inl, inr, refl, subst, List, [], ◌∷◌, Option, none, some, Bytes, Text,
  Result, ok, err, arith, leb, leb→le, Bool-cases, Option-cases,
}
use narwal_publisher.Blossom.{
  Exchange, told_time, signed, head_blob, head_upload, put_blob, Network, Session, CachedToken,
  UploadError, refresh_margin_secs, token_ttl_secs, unix_now, sign_event, mint_token, refresh_token,
  cached_or_fresh, auth_header,
}

-- the time that the clock told last
abbrev pub last_time : List Exchange → Option ℕ
last_time [] = none
last_time (told_time t ∷ exchanges) = t
last_time (signed expiration header ∷ exchanges) = last_time exchanges
last_time (head_blob url reply ∷ exchanges) = last_time exchanges
last_time (head_upload url hash size reply ∷ exchanges) = last_time exchanges
last_time (put_blob url hash bytes auth reply ∷ exchanges) = last_time exchanges

-- the header is that of the cached token, which has the margin left
pub record IsFresh (header : Text) (s : Session) : Type 0 where
  pub token : CachedToken
  pub now : ℕ
  pub cached : s.auth_token ≡ some token
  pub same : token.header ≡ header
  pub told : last_time s.exchanges ≡ some now
  pub margin : now + refresh_margin_secs ≤ token.expires_at

abbrev Fresh : Result UploadError Text × Session → Type 0
Fresh (ok header, t) = IsFresh header t
Fresh (err e, t) = Unit

module _ (network : Network) (hash_hex : Bytes → Text) where
  refresh_token-Fresh : (s : Session) → Fresh (refresh_token network hash_hex s)
  unfolding refresh_token mint_token unix_now sign_event
  refresh_token-Fresh s = elim (Option-cases (network.clock s.exchanges)) [
    | inl stopped ↦ rw stopped tt
    | inr (now, ticks) ↦
        rw ticks
          (elim (Option-cases
            (network.sign_token (told_time (some now) ∷ s.exchanges) (now + token_ttl_secs))) [
              | inl refuses ↦ rw refuses tt
              | inr (header, signs) ↦ rw signs (record {
                token = record { header = header; expires_at = now + token_ttl_secs };
                now = now;
                cached = refl;
                same = refl;
                told = refl;
                margin = omega arith;
              })
            ])
  ]

  cached_or_fresh-Fresh :
      (now : ℕ) (cache : Option CachedToken) (s : Session)
      → s.auth_token ≡ cache
      → last_time s.exchanges ≡ some now
      → Fresh (cached_or_fresh network hash_hex now cache s)
  unfolding cached_or_fresh
  cached_or_fresh-Fresh now none s cached told = refresh_token-Fresh s
  cached_or_fresh-Fresh now (some tok) s cached told =
      elim (Bool-cases (leb refresh_margin_secs (tok.expires_at - now))) [
        | inl enough ↦ rw enough (record {
          token = tok;
          now = now;
          cached = cached;
          same = refl;
          told = told;
          margin = omega (arith, leb→le refresh_margin_secs (tok.expires_at - now) enough);
        })
        | inr late ↦ rw late (refresh_token-Fresh s)
      ]

  auth_header-Fresh : (s : Session) → Fresh (auth_header network hash_hex s)
  unfolding auth_header unix_now
  auth_header-Fresh s = elim (Option-cases (network.clock s.exchanges)) [
    | inl stopped ↦ rw stopped tt
    | inr (now, ticks) ↦ rw ticks (
        cached_or_fresh-Fresh now s.auth_token
          (record s { exchanges = told_time (some now) ∷ s.exchanges }) refl refl)
  ]

  -- The header that an upload sends is that of the token cached afterwards, and by the last reading
  -- of the clock that token is valid for the refresh margin or longer, whether it was reused or new.
  pub auth_header-IsFresh :
      (s t : Session) (header : Text)
      → auth_header network hash_hex s ≡ (ok header, t)
      → IsFresh header t
  auth_header-IsFresh s t header e = subst Fresh e (auth_header-Fresh s)
