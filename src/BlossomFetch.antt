-- ===== src/BlossomFetch.antt =====
-- src/blossom_fetch.rs: GET /<sha256> from the first server that serves the blob. HTTP, SHA-256 and
-- `hex::encode` are parameters: `http_get` is the reply that a GET of a URL has during one run.
pub mod Laws
use narwal_publisher.Prelude.{
  ℕ, ◌∷◌, [], ◌++◌, List, Bool, true, false, ◌&&◌, Option, none, some, Bytes, Text, text, text_eq,
  leb, Result, ok, err, if◌then◌else◌, ◌==◌,
}

pub data Reply : Type 0 where
  network_error : Reply
  -- the status and the body, `none` if reading it fails
  replied : ℕ → Option Bytes → Reply

pub data FetchError : Type 0 where
  not_found : Text → FetchError
  unreadable_body : Text → FetchError

-- `StatusCode::is_success`
abbrev pub is_success : ℕ → Bool
is_success status = leb 200 status && leb status 299

-- a part of the text that is all slashes is dropped at its end
unfoldable pub drop_slashes : Text → Text
drop_slashes [] = []
drop_slashes (c ∷ cs) =
    let rest = drop_slashes cs in
    elim rest [ [] ↦ if c == b'/' then [] else c ∷ [] | d ∷ ds ↦ c ∷ d ∷ ds ]

-- format!("{}/{}", server.trim_end_matches('/'), hash_hex)
unfoldable pub blob_url : Text → Text → Text
unfolding drop_slashes
blob_url server hash_hex = drop_slashes server ++ text "/" ++ hash_hex

module _ (http_get : Text → Reply) (sha256 : Bytes → Bytes) (hex : Bytes → Text) where
  -- the body of the loop, before `rest` of the servers is tried
  unfoldable pub take_body :
      Text → Text → Option Bytes → Result FetchError Bytes → Result FetchError Bytes
  take_body server hash_hex none rest = err (unreadable_body server)
  take_body server hash_hex (some bytes) rest =
      if text_eq (hex (sha256 bytes)) hash_hex then ok bytes else rest

  unfoldable pub take_reply :
      Text → Text → Reply → Result FetchError Bytes → Result FetchError Bytes
  unfolding take_body
  take_reply server hash_hex network_error rest = rest
  take_reply server hash_hex (replied status body) rest =
      if is_success status then take_body server hash_hex body rest else rest

  unfoldable pub fetch : List Text → Text → Result FetchError Bytes
  unfolding take_reply
  fetch [] hash_hex = err (not_found hash_hex)
  fetch (server ∷ servers) hash_hex =
      take_reply server hash_hex (http_get (blob_url server hash_hex)) (fetch servers hash_hex)
