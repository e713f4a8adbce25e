-- ===== src/Nostr.antt =====
-- src/nostr_pub.rs, src/nostr_fetch.rs: the root event of a cache. A tag is its list of texts, the
-- name first. The Nostr client is a parameter.
pub mod Tags
use narwal_publisher.Prelude.{
  ℕ, List, [], ◌∷◌, ◌++◌, map, Option, none, some, Bool, true, false, Text, text, text_eq, leb,
  Result, ok, err, ◌>>=◌, if◌then◌else◌,
}

abbrev pub Tag : Type 0
Tag = List Text

pub record Event : Type 0 where
  pub kind : ℕ
  pub tags : List Tag
  pub created_at : ℕ

-- `PublishConfig` of src/nostr_pub.rs, less the signer
pub record Announcement : Type 0 where
  pub relays : List Text
  pub channel : Option Text
  pub htree_uri : Text
  pub blossom_servers : List Text
  pub nix_sig_keys : List Text

-- `FetchConfig`, less the signer
pub record FetchConfig : Type 0 where
  pub relays : List Text
  pub channel : Option Text
  pub author : Option Text

pub record RootEvent : Type 0 where
  pub htree_uri : Text
  pub blossom_servers : List Text
  pub nix_sig_keys : List Text

pub data NostrError : Type 0 where
  bad_relay : Text → NostrError
  sign_failed send_failed not_accepted : NostrError
  invalid_pubkey fetch_failed missing_htree : NostrError

unfoldable pub kind_of : Option Text → ℕ
kind_of (some channel) = 37091
kind_of none = 17091

-- `Tag::custom` with one value, `Tag::identifier`
abbrev pub custom : Text → Text → Tag
custom name value = name ∷ value ∷ []

unfoldable pub channel_tags : Option Text → List Tag
channel_tags none = []
channel_tags (some channel) = custom (text "d") channel ∷ []

unfoldable pub root_tags : Announcement → List Tag
unfolding channel_tags
root_tags a =
    custom (text "htree") a.htree_uri
    ∷ (map (custom (text "blossom")) a.blossom_servers
        ++ (map (custom (text "nixSigKey")) a.nix_sig_keys ++ channel_tags a.channel))

-- what a fetch asks for: the kind, the number of events, the identifier and the author
pub record Filter : Type 0 where
  pub kind : ℕ
  pub limit : ℕ
  pub identifier : Option Text
  pub author : Option Text

-- The client: which relays it takes, signing, the relays that accept an event, what a filter
-- finds, and parsing a public key.
pub record Client : Type 0 where
  pub takes_relay : Text → Bool
  pub sign_event : ℕ → List Tag → Option Event
  pub send_event : Event → Option (List Text)
  pub fetch_events : Filter → Option (List Event)
  pub parse_pubkey : Text → Option Text

unfoldable pub add_relays : Client → List Text → Result NostrError (Unit {0})
add_relays client [] = ok tt
add_relays client (relay ∷ relays) =
    let rest = add_relays client relays in
    if client.takes_relay relay then rest else err (bad_relay relay)

unfoldable pub or_nostr_error {ℓ} : {A : Type ℓ} → Option A → NostrError → Result NostrError A
or_nostr_error none e = err e
or_nostr_error (some a) e = ok a

-- `if output.success.is_empty()`
unfoldable pub accepted : List Text → Result NostrError (Unit {0})
accepted [] = err not_accepted
accepted (relay ∷ relays) = ok tt

unfoldable pub publish_cache : Client → Announcement → Result NostrError (Unit {0})
unfolding add_relays or_nostr_error kind_of root_tags accepted
publish_cache client a = do
  relays_added ← add_relays client a.relays
  event ← or_nostr_error (client.sign_event (kind_of a.channel) (root_tags a)) sign_failed
  success ← or_nostr_error (client.send_event event) send_failed
  accepted success

-- `Tag::kind` and `Tag::content`
unfoldable pub has_name : Text → Tag → Bool
has_name name [] = false
has_name name (first ∷ values) = text_eq first name

unfoldable pub content_of : Tag → Option Text
content_of (first ∷ value ∷ values) = some value
content_of _ = none

-- `find` of the first tag of a name, and then its content
unfoldable pub first_content : Text → List Tag → Option Text
unfolding has_name content_of
first_content name [] = none
first_content name (tag ∷ tags) =
    let rest = first_content name tags in if has_name name tag then content_of tag else rest

unfoldable pub push_content : Option Text → List Text → List Text
push_content none rest = rest
push_content (some value) rest = value ∷ rest

-- `filter` by the name, `filter_map` to the content
unfoldable pub all_contents : Text → List Tag → List Text
unfolding has_name content_of push_content
all_contents name [] = []
all_contents name (tag ∷ tags) =
    let rest = all_contents name tags in
    if has_name name tag then push_content (content_of tag) rest else rest

-- `max_by_key` keeps the last of several maxima
unfoldable pub newest : Event → List Event → Event
newest best [] = best
newest best (e ∷ es) = newest (if leb best.created_at e.created_at then e else best) es

unfoldable pub root_of : Event → Result NostrError RootEvent
unfolding first_content all_contents or_nostr_error
root_of event = do
  htree_uri ← or_nostr_error (first_content (text "htree") event.tags) missing_htree
  ok (record {
    htree_uri = htree_uri;
    blossom_servers = all_contents (text "blossom") event.tags;
    nix_sig_keys = all_contents (text "nixSigKey") event.tags;
  })

unfoldable pub latest_root : List Event → Result NostrError (Option RootEvent)
unfolding newest root_of
latest_root [] = ok none
latest_root (e ∷ es) = do root ← root_of (newest e es); ok (some root)

unfoldable pub parse_author : Client → Option Text → Result NostrError (Option Text)
unfolding or_nostr_error
parse_author client none = ok none
parse_author client (some author_hex) = do
  pk ← or_nostr_error (client.parse_pubkey author_hex) invalid_pubkey
  ok (some pk)

unfoldable pub fetch_latest_root : Client → FetchConfig → Result NostrError (Option RootEvent)
unfolding add_relays parse_author or_nostr_error kind_of latest_root
fetch_latest_root client config = do
  relays_added ← add_relays client config.relays
  author ← parse_author client config.author
  events ←
      or_nostr_error
        (client.fetch_events (record {
          kind = kind_of config.channel;
          limit = 1;
          identifier = config.channel;
          author = author;
        }))
        fetch_failed
  latest_root events
