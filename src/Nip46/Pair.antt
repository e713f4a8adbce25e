-- ===== src/Nip46/Pair.antt =====
-- src/nip46/pair.rs: the parts of the pairing flow that compute: which relays are used, and the URI
-- that the QR code shows.
pub mod Uri
pub mod Relays
pub mod Qr
pub mod Accept
use narwal_publisher.Prelude.{
  ℕ, ◌+◌, ◌/◌, ◌%◌, List, [], ◌∷◌, ◌++◌, Bool, true, false, ◌&&◌, ◌||◌, not, Text, text, leb, ltb,
  ◌==◌, if◌then◌else◌,
}
use narwal_publisher.Prelude.Membership.{mem}

-- const DEFAULT_HANDSHAKE_RELAYS
abbrev pub default_handshake_relays : List Text
default_handshake_relays = text "wss://nos.lol" ∷ text "wss://nostr.oxtr.dev" ∷ []

unfoldable pub resolve_handshake_relays : List Text → List Text
resolve_handshake_relays [] = default_handshake_relays
resolve_handshake_relays (r ∷ rs) = r ∷ rs

-- `for r in requested_relays`: those that are not there yet are pushed
unfoldable pub merge_relays : List Text → List Text → List Text
unfolding mem
merge_relays relays [] = relays
merge_relays relays (r ∷ requested) =
    merge_relays (if mem r relays then relays else relays ++ r ∷ []) requested

abbrev pub or_resolved : List Text → List Text → List Text
or_resolved requested [] = resolve_handshake_relays requested
or_resolved requested (r ∷ rs) = r ∷ rs

-- the relays on which a stored pairing is used again
unfoldable pub reuse_relays : List Text → List Text → List Text
unfolding merge_relays resolve_handshake_relays
reuse_relays stored requested = or_resolved requested (merge_relays stored requested)

-- `for r in &candidates`: a relay that is down is left out, unless it was asked for
unfoldable pub keep_reachable : Bool → List Text → List Text → List Text
unfolding mem
keep_reachable using_defaults connected [] = []
keep_reachable using_defaults connected (r ∷ candidates) =
    let rest = keep_reachable using_defaults connected candidates in
    if mem r connected || not using_defaults then r ∷ rest else rest

abbrev pub is_empty_list : List Text → Bool
is_empty_list [] = true
is_empty_list (r ∷ rs) = false

abbrev pub or_candidates : List Text → List Text → List Text
or_candidates candidates [] = candidates
or_candidates candidates (r ∷ rs) = r ∷ rs

-- the relays that the QR code advertises
unfoldable pub effective_relays : List Text → List Text → List Text
unfolding keep_reachable resolve_handshake_relays
effective_relays requested connected =
    or_candidates (resolve_handshake_relays requested)
      (keep_reachable (is_empty_list requested) connected (resolve_handshake_relays requested))

-- what QUERY_SET leaves as it is: ASCII letters and digits and - . _ ~
unfoldable pub is_unreserved : ℕ → Bool
is_unreserved c =
    (leb 48 c && leb c 57)
    || (leb 65 c && leb c 90)
    || (leb 97 c && leb c 122)
    || c == 45
    || c == 46
    || c == 95
    || c == 126

-- a hexadecimal digit, upper case
unfoldable pub hex_digit : ℕ → ℕ
hex_digit d = if ltb d 10 then 48 + d else 55 + d

unfoldable pub encode_byte : ℕ → Text
unfolding is_unreserved hex_digit
encode_byte c =
    if is_unreserved c then c ∷ [] else b'%' ∷ hex_digit (c / 16) ∷ hex_digit (c % 16) ∷ []

-- `utf8_percent_encode(s, QUERY_SET)`
unfoldable pub pct : Text → Text
unfolding encode_byte
pct [] = []
pct (c ∷ cs) = encode_byte c ++ pct cs

-- `if !q.is_empty() { q.push('&') }`
unfoldable pub separated : Text → Text
separated [] = []
separated (c ∷ cs) = (c ∷ cs) ++ b'&' ∷ []

-- `for r in relays`, where `q` is what was written so far
unfoldable pub relay_params : Text → List Text → Text
unfolding pct separated
relay_params q [] = q
relay_params q (r ∷ relays) = relay_params (separated q ++ (text "relay=" ++ pct r)) relays

-- the event kinds that the publisher signs
abbrev pub permissions : Text
permissions = text "sign_event:24242,sign_event:17091,sign_event:37091"

unfoldable pub query_of : List Text → Text → Text
unfolding relay_params
query_of relays secret =
    relay_params [] relays
    ++ (text "&secret=" ++ (pct secret ++ (text "&name=narwal-cli&perms=" ++ pct permissions)))

-- format!("nostrconnect://{}?{}", app_pubkey.to_hex(), q)
unfoldable pub pairing_uri : Text → List Text → Text → Text
unfolding query_of
pairing_uri app_pubkey_hex relays secret =
    text "nostrconnect://" ++ (app_pubkey_hex ++ (text "?" ++ query_of relays secret))
