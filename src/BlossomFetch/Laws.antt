-- ===== src/BlossomFetch/Laws.antt =====
-- src/blossom_fetch.rs: what a fetch returns, and which server decides it.
use narwal_publisher.Prelude.{
  ℕ, ◌≡◌, ◌⊎◌, ◌∷◌, [], ◌++◌, List, true, false, Option, none, some, Bytes, Text, text_eq_iff, All,
  Result, ok, err, arith, ◌↔◌, ◌≢◌, refl, ap, ◌∙◌,
}
use narwal_publisher.BlossomFetch.{
  Reply, network_error, replied, FetchError, not_found, unreadable_body, is_success, blob_url,
  take_reply, fetch,
}

module _ (http_get : Text → Reply) (sha256 : Bytes → Bytes) (hex : Bytes → Text) where
  -- the server is passed over: it is down, refuses, or serves other content
  abbrev pub PassesOver : Text → Reply → Type 0
  PassesOver hash_hex network_error = Unit
  PassesOver hash_hex (replied status none) = is_success status ≡ false
  PassesOver hash_hex (replied status (some bytes)) =
      (is_success status ≡ false) ⊎ (hex (sha256 bytes) ≢ hash_hex)

  take_reply_verified :
      (server hash_hex : Text) (reply : Reply) (rest : Result FetchError Bytes) (bytes : Bytes)
      → (rest ≡ ok bytes → hex (sha256 bytes) ≡ hash_hex)
      → take_reply http_get sha256 hex server hash_hex reply rest ≡ ok bytes
      → hex (sha256 bytes) ≡ hash_hex
  unfolding take_reply
  take_reply_verified server hash_hex network_error rest bytes ih h = ih h
  take_reply_verified server hash_hex (replied status none) rest bytes ih h = ground arith
  take_reply_verified server hash_hex (replied status (some body)) rest bytes ih h =
      ground (arith, text_eq_iff (hex (sha256 body)) hash_hex)

  -- Whatever the servers answer, what `fetch` returns has the hash that was asked for.
  pub fetch_verified :
      (servers : List Text) (hash_hex : Text) (bytes : Bytes)
      → fetch http_get sha256 hex servers hash_hex ≡ ok bytes
      → hex (sha256 bytes) ≡ hash_hex
  unfolding fetch
  fetch_verified [] hash_hex bytes h = cc
  fetch_verified (server ∷ servers) hash_hex bytes h =
      take_reply_verified server hash_hex (http_get (blob_url server hash_hex))
        (fetch http_get sha256 hex servers hash_hex) bytes (fetch_verified servers hash_hex bytes) h

  take_reply_passes :
      (server hash_hex : Text) (reply : Reply) (rest : Result FetchError Bytes)
      → PassesOver hash_hex reply
      → take_reply http_get sha256 hex server hash_hex reply rest ≡ rest
  unfolding take_reply
  take_reply_passes server hash_hex network_error rest h = refl
  take_reply_passes server hash_hex (replied status none) rest h = ground arith
  take_reply_passes server hash_hex (replied status (some body)) rest h =
      ground (arith, text_eq_iff (hex (sha256 body)) hash_hex)

  -- Servers that are passed over leave the answer to the servers behind them.
  pub fetch_passes :
      (before servers : List Text) (hash_hex : Text)
      → All (λ s. PassesOver hash_hex (http_get (blob_url s hash_hex))) before
      → fetch http_get sha256 hex (before ++ servers) hash_hex
        ≡ fetch http_get sha256 hex servers hash_hex
  unfolding fetch
  fetch_passes [] servers hash_hex h = refl
  fetch_passes (s ∷ before) servers hash_hex h =
      take_reply_passes s hash_hex (http_get (blob_url s hash_hex))
        (fetch http_get sha256 hex (before ++ servers) hash_hex) h.0
      ∙ fetch_passes before servers hash_hex h.1

  -- the body, if it could be read, is the blob
  abbrev pub IsRight : Text → Option Bytes → Type 0
  IsRight hash_hex none = Unit
  IsRight hash_hex (some bytes) = hex (sha256 bytes) ≡ hash_hex

  abbrev pub verdict : Text → Option Bytes → Result FetchError Bytes
  verdict server none = err (unreadable_body server)
  verdict server (some bytes) = ok bytes

  take_reply_decides :
      (server hash_hex : Text) (status : ℕ) (body : Option Bytes) (rest : Result FetchError Bytes)
      → is_success status ≡ true
      → IsRight hash_hex body
      → take_reply http_get sha256 hex server hash_hex (replied status body) rest
        ≡ verdict server body
  unfolding take_reply
  take_reply_decides server hash_hex status none rest success right = rw success
  take_reply_decides server hash_hex status (some bytes) rest success right =
      rw (success, (text_eq_iff (hex (sha256 bytes)) hash_hex).1 right)

  -- Behind servers that are all passed over, the first server that answers with success decides:
  -- with the blob, its content is returned; if its body cannot be read, the fetch is an error,
  -- whatever the servers after it hold.
  pub fetch_decided :
      (before after : List Text) (s hash_hex : Text) (status : ℕ) (body : Option Bytes)
      → All (λ b. PassesOver hash_hex (http_get (blob_url b hash_hex))) before
      → is_success status ≡ true
      → IsRight hash_hex body
      → http_get (blob_url s hash_hex) ≡ replied status body
      → fetch http_get sha256 hex (before ++ s ∷ after) hash_hex ≡ verdict s body
  unfolding fetch
  fetch_decided before after s hash_hex status body passed success right reply =
      fetch_passes before (s ∷ after) hash_hex passed
      ∙ ap
          (λ r.
            take_reply http_get sha256 hex s hash_hex r (fetch http_get sha256 hex after hash_hex))
          reply
      ∙ take_reply_decides s hash_hex status body (fetch http_get sha256 hex after hash_hex) success
          right

  take_reply_not_found :
      (server hash_hex : Text) (reply : Reply) (rest : Result FetchError Bytes)
      → take_reply http_get sha256 hex server hash_hex reply rest ≡ err (not_found hash_hex)
      → PassesOver hash_hex reply × (rest ≡ err (not_found hash_hex))
  unfolding take_reply
  take_reply_not_found server hash_hex network_error rest h = (tt, h)
  take_reply_not_found server hash_hex (replied status none) rest h = ground arith
  take_reply_not_found server hash_hex (replied status (some body)) rest h =
      ground (arith, text_eq_iff (hex (sha256 body)) hash_hex)

  -- The blob is reported as not found exactly when every server is passed over.
  pub fetch-eq-not_found :
      (servers : List Text) (hash_hex : Text)
      → (fetch http_get sha256 hex servers hash_hex ≡ err (not_found hash_hex))
        ↔ All (λ s. PassesOver hash_hex (http_get (blob_url s hash_hex))) servers
  unfolding fetch
  fetch-eq-not_found [] hash_hex = (λ h. tt, λ h. refl)
  fetch-eq-not_found (s ∷ servers) hash_hex = (
    λ h.
        let (here, there) =
          take_reply_not_found s hash_hex (http_get (blob_url s hash_hex))
            (fetch http_get sha256 hex servers hash_hex) h in
        (here, (fetch-eq-not_found servers hash_hex).0 there),
    λ h.
        take_reply_passes s hash_hex (http_get (blob_url s hash_hex))
          (fetch http_get sha256 hex servers hash_hex) h.0
        ∙ (fetch-eq-not_found servers hash_hex).1 h.1,
  )
