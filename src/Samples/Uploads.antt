-- ===== src/Samples/Uploads.antt =====
-- Samples for src/blossom.rs.
use narwal_publisher.Prelude.{
  ◌≡◌, refl, List, [], ◌∷◌, none, some, Bytes, Text, text, text_eq, ok, if◌then◌else◌,
}
use narwal_publisher.Blossom.{
  Network, Session, auth_header, unix_now, cached_or_fresh, refresh_token, mint_token, sign_event,
  upload_url,
}
use narwal_publisher.Blossom.Token.{IsFresh, auth_header-IsFresh}

-- a clock that stands at 1000, a signer that signs, and servers that take what is sent to `a`
unfoldable pub network : Network
unfolding text_eq upload_url
network = record {
  clock = λ exchanges. some 1000;
  sign_token = λ exchanges expiration. some (text "Nostr e");
  head = λ exchanges url. some 404;
  preflight = λ exchanges url hash size. ok (200, none);
  put = λ exchanges url hash bytes auth.
      if text_eq url (text "a/upload")
      then some (record { status = 201; reason = none; body = [] })
      else some (record { status = 401; reason = none; body = [] });
  status_text = λ status. [];
  error_text = λ e. [];
}

abbrev pub digest : Bytes → Text
digest bytes = bytes

-- the cached token has half a minute left
abbrev stale : Session
stale = record {
  auth_token = some (record { header = text "Nostr old"; expires_at = 1030 });
  exchanges = [];
}

abbrev renewed : Session
unfolding auth_header unix_now cached_or_fresh refresh_token mint_token sign_event
renewed = (auth_header network digest stale).1

stale-renewed : auth_header network digest stale ≡ (ok (text "Nostr e"), renewed)
unfolding auth_header unix_now cached_or_fresh refresh_token mint_token sign_event network
stale-renewed = refl

auth_header-IsFresh_example : IsFresh (text "Nostr e") renewed
auth_header-IsFresh_example =
    auth_header-IsFresh network digest stale renewed (text "Nostr e") stale-renewed

abbrev pub two_servers : List Text
two_servers = text "b" ∷ text "a/" ∷ []
