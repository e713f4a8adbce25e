-- ===== src/Blossom.antt =====
-- src/blossom.rs: uploads to Blossom servers and the session token. What the network, the clock and
-- the signer answer is a function of the exchanges so far, the latest first.
pub mod Token
pub mod Exchanges
pub mod AuthHeader
pub mod Put
pub mod OneServer
pub mod Upload
use narwal_publisher.Prelude.{
  ℕ, suc, ◌+◌, ◌-◌, ◌*◌, List, [], ◌∷◌, ◌++◌, Bool, true, false, ◌&&◌, Option, none, some, Bytes,
  Text, text, length, leb, ltb, ◌==◌, Result, ok, err, if◌then◌else◌,
}
use narwal_publisher.Prelude.Effects.{◌>>=◌, return, fail, lift}
use narwal_publisher.Nhash.{strip_prefix}
use narwal_publisher.Secrets.{trim}
use narwal_publisher.BlossomFetch.{is_success, blob_url, drop_slashes}

-- const PREFLIGHT_SIZE_THRESHOLD
abbrev pub preflight_size_threshold : ℕ
preflight_size_threshold = 2 * 1024 * 1024

-- const TOKEN_TTL_SECS
abbrev pub token_ttl_secs : ℕ
token_ttl_secs = 120

-- const REFRESH_MARGIN_SECS
abbrev pub refresh_margin_secs : ℕ
refresh_margin_secs = 60

pub record ServerError : Type 0 where
  pub server : Text
  pub status : ℕ
  pub reason : Option Text

pub record CachedToken : Type 0 where
  pub header : Text
  pub expires_at : ℕ

-- a reply to PUT /upload: the status, the X-Reason header and the body
pub record PutReply : Type 0 where
  pub status : ℕ
  pub reason : Option Text
  pub body : Text

-- one exchange with the outside and what came back, `none` for an error: of a request over HTTP,
-- all that was sent
pub data Exchange : Type 0 where
  told_time : Option ℕ → Exchange
  signed : ℕ → Option Text → Exchange
  head_blob : Text → Option ℕ → Exchange
  head_upload : Text → Text → ℕ → Result Text (ℕ × Option Text) → Exchange
  put_blob : Text → Text → Bytes → Text → Option PutReply → Exchange

pub data UploadError : Type 0 where
  no_clock no_signature network_error : UploadError
  too_large : Option Text → UploadError
  refused : ℕ → Text → Option Text → UploadError
  -- every server failed
  rejected_by_all : List ServerError → UploadError

-- The signer's answer is the Authorization header for an expiration.
pub record Network : Type 0 where
  pub clock : List Exchange → Option ℕ
  pub sign_token : List Exchange → ℕ → Option Text
  pub head : List Exchange → Text → Option ℕ
  pub preflight : List Exchange → Text → Text → ℕ → Result Text (ℕ × Option Text)
  pub put : List Exchange → Text → Text → Bytes → Text → Option PutReply
  pub status_text : ℕ → Text
  pub error_text : UploadError → Text

-- the cached token of the uploader, and the exchanges so far
pub record Session : Type 0 where
  pub auth_token : Option CachedToken
  pub exchanges : List Exchange

-- `BlossomUploader::new`; the signer and the servers are parameters
abbrev pub new_session : Session
new_session = record { auth_token = none; exchanges = [] }

abbrev pub note : Exchange → Session → Session
note exchange s = record s { exchanges = exchange ∷ s.exchanges }

-- what became of one server
pub data Outcome : Type 0 where
  has_blob : Outcome
  failed : ServerError → Outcome

-- format!("{}/upload", server.trim_end_matches('/'))
unfoldable pub upload_url : Text → Text
upload_url server = drop_slashes server ++ text "/upload"

abbrev pub or_upload_error {ℓ} : {A : Type ℓ} → Option A → UploadError → Result UploadError A
or_upload_error none e = err e
or_upload_error (some a) e = ok a

-- the text of an error; `status_text` prints a status, `error_text` the errors of other code
unfoldable pub describe_reason : Option Text → Text
describe_reason none = []
describe_reason (some reason) = text " — " ++ reason

unfoldable pub bracket_reason : Option Text → Text
bracket_reason none = []
bracket_reason (some reason) = text " (" ++ (reason ++ text ")")

unfoldable pub error_string : (ℕ → Text) → (UploadError → Text) → UploadError → Text
unfolding describe_reason bracket_reason
error_string status_text error_text (too_large reason) =
    text "413 Content Too Large" ++ describe_reason reason
error_string status_text error_text (refused status body reason) =
    status_text status ++ (text " " ++ (body ++ bracket_reason reason))
error_string status_text error_text e = error_text e

abbrev pub is_some : Option Text → Bool
is_some none = false
is_some (some _) = true

-- the status and reason that `upload` records for the text of an error
unfoldable pub server_error : Text → Text → ServerError
unfolding strip_prefix trim
server_error server err_str = record {
  server = server;
  status = if is_some (strip_prefix (text "413") err_str) then 413 else 400;
  reason = elim (strip_prefix (text "413 Content Too Large") err_str) [
    | some rest ↦ some (trim rest)
    | none ↦ some err_str
  ];
}

module _ (network : Network) (hash_hex : Bytes → Text) where
  unfoldable pub unix_now : Session → Result UploadError ℕ × Session
  unix_now s =
      let now = network.clock s.exchanges in (or_upload_error now no_clock, note (told_time now) s)

  -- `get_public_key`, `sign_event` and the encoding of the event
  unfoldable pub sign_event : ℕ → Session → Result UploadError Text × Session
  sign_event expiration s =
      let header = network.sign_token s.exchanges expiration in
      (or_upload_error header no_signature, note (signed expiration header) s)

  unfoldable pub mint_token : Session → Result UploadError CachedToken × Session
  unfolding unix_now sign_event
  mint_token = do
    now ← unix_now
    header ← sign_event (now + token_ttl_secs)
    return (record { header = header; expires_at = now + token_ttl_secs })

  abbrev store_token : CachedToken → Session → Result UploadError Text × Session
  store_token tok s = (ok tok.header, record s { auth_token = some tok })

  unfoldable pub refresh_token : Session → Result UploadError Text × Session
  unfolding mint_token
  refresh_token = do tok ← mint_token; store_token tok

  -- the cached token, while at least the margin is left; `-` stops at 0 like `saturating_sub`
  unfoldable pub cached_or_fresh :
      ℕ → Option CachedToken → Session → Result UploadError Text × Session
  unfolding refresh_token
  cached_or_fresh now none s = refresh_token s
  cached_or_fresh now (some tok) s =
      if leb refresh_margin_secs (tok.expires_at - now) then (ok tok.header, s) else refresh_token s

  unfoldable pub auth_header : Session → Result UploadError Text × Session
  unfolding unix_now cached_or_fresh
  auth_header = do now ← unix_now; λ s. cached_or_fresh now s.auth_token s

  unfoldable pub invalidate_token : Session → Session
  invalidate_token s = record s { auth_token = none }

  -- the requests: what the network answers is noted with what was sent
  abbrev pub send_head : Text → Session → Option ℕ × Session
  send_head url s =
      let reply = network.head s.exchanges url in (reply, note (head_blob url reply) s)

  abbrev pub send_preflight : Text → Text → ℕ → Session → Result Text (ℕ × Option Text) × Session
  send_preflight url hash size s =
      let reply = network.preflight s.exchanges url hash size in
      (reply, note (head_upload url hash size reply) s)

  abbrev pub send_put : Text → Text → Bytes → Text → Session → Option PutReply × Session
  send_put url hash bytes auth s =
      let reply = network.put s.exchanges url hash bytes auth in
      (reply, note (put_blob url hash bytes auth reply) s)

  unfoldable pub check_exists : Text → Text → Session → Bool × Session
  check_exists server hash s =
      let (reply, after) = send_head (blob_url server hash) s in
      (elim reply [ none ↦ false | some status ↦ is_success status ], after)

  -- whether to go on with the upload, and the reason; a network error counts as a refusal
  unfoldable pub preflight_verdict : Result Text (ℕ × Option Text) → Bool × Option Text
  preflight_verdict (err e) = (false, some (text "network error: " ++ e))
  preflight_verdict (ok (status, reason)) =
      if status == 200
      then (true, none)
      else if status == 413
      then (false, reason)
      else (true, reason)

  unfoldable pub preflight_upload : Text → Text → ℕ → Session → (Bool × Option Text) × Session
  unfolding preflight_verdict
  preflight_upload server hash size s =
      let (reply, after) = send_preflight (upload_url server) hash size s in
      (preflight_verdict reply, after)

  unfoldable pub put_upload :
      Text → Bytes → Text → Text → Session → Result UploadError PutReply × Session
  unfolding upload_url
  put_upload server bytes hash auth s =
      let (reply, after) = send_put (upload_url server) hash bytes auth s in
      (or_upload_error reply network_error, after)

  unfoldable pub put_with_auth :
      Text → Bytes → Text → Session → Result UploadError PutReply × Session
  unfolding auth_header put_upload
  put_with_auth server bytes hash = do auth ← auth_header; put_upload server bytes hash auth

  -- a 401 drops the token, and the upload is tried once more
  unfoldable pub retry_unauthorized :
      Text → Bytes → Text → PutReply → Session → Result UploadError PutReply × Session
  unfolding put_with_auth invalidate_token
  retry_unauthorized server bytes hash reply s =
      let again = put_with_auth server bytes hash (invalidate_token s) in
      if reply.status == 401 then again else (ok reply, s)

  unfoldable pub judge_reply : PutReply → Result UploadError (Unit {0})
  judge_reply reply =
      if is_success reply.status
      then ok tt
      else if reply.status == 413
      then err (too_large reply.reason)
      else err (refused reply.status reply.body reply.reason)

  unfoldable pub upload_to_server :
      Text → Bytes → Text → Session → Result UploadError (Unit {0}) × Session
  unfolding retry_unauthorized judge_reply
  upload_to_server server bytes hash = do
    first ← put_with_auth server bytes hash
    reply ← retry_unauthorized server bytes hash first
    lift (judge_reply reply)

  abbrev pub settle : Text → Result UploadError (Unit {0}) × Session → Outcome × Session
  settle server (ok _, s) = (has_blob, s)
  settle server (err e, s) =
      (failed (server_error server (error_string network.status_text network.error_text e)), s)

  -- what a preflight leads to
  unfoldable pub follow_verdict :
      Text → Bytes → Text → Bool × Option Text → Session → Outcome × Session
  unfolding upload_to_server server_error error_string
  follow_verdict server bytes hash (true, reason) s =
      settle server (upload_to_server server bytes hash s)
  follow_verdict server bytes hash (false, reason) s =
      (failed (record { server = server; status = 413; reason = reason }), s)

  -- steps 2 and 3 for a server that does not have the blob
  unfoldable pub try_upload : Text → Bytes → Text → Session → Outcome × Session
  unfolding preflight_upload follow_verdict upload_to_server server_error error_string
  try_upload server bytes hash s =
      if ltb preflight_size_threshold (length bytes)
      then (let (verdict, after) = preflight_upload server hash (length bytes) s in
          follow_verdict server bytes hash verdict after)
      else settle server (upload_to_server server bytes hash s)

  -- one round of the loop over the servers
  unfoldable pub upload_one : Text → Bytes → Text → Session → Outcome × Session
  unfolding check_exists try_upload
  upload_one server bytes hash s =
      let (exists, after) = check_exists server hash s in
      elim exists [ true ↦ (has_blob, after) | false ↦ try_upload server bytes hash after ]

  -- `success_count` and `errors`
  unfoldable pub tally : Outcome → ℕ × List ServerError → ℕ × List ServerError
  tally has_blob (success_count, errors) = (suc success_count, errors)
  tally (failed e) (success_count, errors) = (success_count, errors ++ e ∷ [])

  unfoldable pub upload_servers :
      List Text → Bytes → Text → ℕ × List ServerError → Session → (ℕ × List ServerError) × Session
  unfolding upload_one tally
  upload_servers [] bytes hash counts s = (counts, s)
  upload_servers (server ∷ servers) bytes hash counts s =
      let (outcome, after) = upload_one server bytes hash s in
      upload_servers servers bytes hash (tally outcome counts) after

  unfoldable pub upload : List Text → Bytes → Session → Result UploadError Text × Session
  unfolding upload_servers
  upload servers bytes s =
      let hash = hash_hex bytes in
      let ((success_count, errors), after) = upload_servers servers bytes hash (0, []) s in
      (if ltb 0 success_count then ok hash else err (rejected_by_all errors), after)
