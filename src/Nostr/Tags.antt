-- ===== src/Nostr/Tags.antt =====
-- src/nostr_pub.rs, src/nostr_fetch.rs: what a publish announces, the next publish reads back.
use narwal_publisher.Prelude.{
  ◌≤◌, ◌<◌, ◌≡◌, ap₂, refl, ap, ◌∙◌, List, [], ◌∷◌, ◌++◌, map, Option, none, some, true, false,
  Text, text, text_eq, leb, ok, if◌then◌else◌, arith, All, append-nil,
}
use narwal_publisher.Nostr.{
  Tag, Event, Announcement, RootEvent, custom, channel_tags, root_tags, has_name, content_of,
  first_content, push_content, all_contents, newest, root_of, latest_root, or_nostr_error,
}

all_contents-append :
    (name : Text) (xs ys : List Tag)
    → all_contents name (xs ++ ys) ≡ all_contents name xs ++ all_contents name ys
unfolding all_contents push_content content_of
all_contents-append name [] ys = refl
all_contents-append name ([] ∷ xs) ys = ground (arith, all_contents-append name xs ys)
all_contents-append name ((k ∷ []) ∷ xs) ys = ground (arith, all_contents-append name xs ys)
all_contents-append name ((k ∷ v ∷ vs) ∷ xs) ys = ground (arith, all_contents-append name xs ys)

all_contents-same :
    (name : Text) (values : List Text)
    → text_eq name name ≡ true
    → all_contents name (map (custom name) values) ≡ values
unfolding all_contents push_content content_of has_name
all_contents-same name [] h = refl
all_contents-same name (v ∷ values) h = rw h (ap (◌∷◌ v) (all_contents-same name values h))

all_contents-other :
    (name other : Text) (values : List Text)
    → text_eq other name ≡ false
    → all_contents name (map (custom other) values) ≡ []
unfolding all_contents push_content content_of has_name
all_contents-other name other [] h = refl
all_contents-other name other (v ∷ values) h = rw h (all_contents-other name other values h)

all_contents-channel :
    (name : Text) (channel : Option Text)
    → text_eq (text "d") name ≡ false
    → all_contents name (channel_tags channel) ≡ []
unfolding all_contents channel_tags has_name
all_contents-channel name none h = refl
all_contents-channel name (some c) h = rw h refl

blossom-root_tags :
    (a : Announcement) → all_contents (text "blossom") (root_tags a) ≡ a.blossom_servers
unfolding root_tags all_contents has_name text_eq
blossom-root_tags a =
    all_contents-append (text "blossom") (map (custom (text "blossom")) a.blossom_servers) _
    ∙ ap₂ (◌++◌) (all_contents-same (text "blossom") a.blossom_servers refl) (
        all_contents-append (text "blossom") (map (custom (text "nixSigKey")) a.nix_sig_keys) _
        ∙ ap₂ (◌++◌) (all_contents-other (text "blossom") (text "nixSigKey") a.nix_sig_keys refl)
            (all_contents-channel (text "blossom") a.channel refl))
    ∙ append-nil a.blossom_servers

sig_keys-root_tags :
    (a : Announcement) → all_contents (text "nixSigKey") (root_tags a) ≡ a.nix_sig_keys
unfolding root_tags all_contents has_name text_eq
sig_keys-root_tags a =
    all_contents-append (text "nixSigKey") (map (custom (text "blossom")) a.blossom_servers) _
    ∙ ap₂ (◌++◌) (all_contents-other (text "nixSigKey") (text "blossom") a.blossom_servers refl) (
        all_contents-append (text "nixSigKey") (map (custom (text "nixSigKey")) a.nix_sig_keys) _
        ∙ ap₂ (◌++◌) (all_contents-same (text "nixSigKey") a.nix_sig_keys refl)
            (all_contents-channel (text "nixSigKey") a.channel refl))
    ∙ append-nil a.nix_sig_keys

-- the root event of an announcement
abbrev pub announced : Announcement → RootEvent
announced a = record {
  htree_uri = a.htree_uri;
  blossom_servers = a.blossom_servers;
  nix_sig_keys = a.nix_sig_keys;
}

root_of-root_tags :
    (a : Announcement) (event : Event) → event.tags ≡ root_tags a → root_of event ≡ ok (announced a)
unfolding root_of or_nostr_error
root_of-root_tags a event same =
    rw
      (
        ap (first_content (text "htree")) same ∙ htree-root_tags,
        ap (all_contents (text "blossom")) same ∙ blossom-root_tags a,
        ap (all_contents (text "nixSigKey")) same ∙ sig_keys-root_tags a,
      )
      refl
  where
    htree-root_tags : first_content (text "htree") (root_tags a) ≡ some a.htree_uri
    htree-root_tags = unfold root_tags first_content has_name content_of text_eq in refl

newest_keeps :
    (best : Event) (es : List Event)
    → All (λ e. e.created_at < best.created_at) es
    → newest best es ≡ best
unfolding newest
newest_keeps best [] h = refl
newest_keeps best (e ∷ es) h = ground (arith, newest_keeps best es h.1, h.0)

newest_is :
    (best : Event) (before after : List Event) (event : Event)
    → best.created_at ≤ event.created_at
    → All (λ e. e.created_at ≤ event.created_at) before
    → All (λ e. e.created_at < event.created_at) after
    → newest best (before ++ event ∷ after) ≡ event
unfolding newest
newest_is best [] after event h hb ha = ground (arith, newest_keeps event after ha, h)
newest_is best (e ∷ before) after event h hb ha =
    newest_is (if leb best.created_at e.created_at then e else best) before after event
      (ground (arith, h, hb.0)) hb.1 ha

-- Where the newest of the events that relays return, the last one of several at the same second, has
-- the tags of an announcement, the root that is read has its URI, its servers and its signing keys,
-- each list whole and in order.
pub latest_root-announced :
    (a : Announcement) (event : Event) (before after : List Event)
    → event.tags ≡ root_tags a
    → All (λ e. e.created_at ≤ event.created_at) before
    → All (λ e. e.created_at < event.created_at) after
    → latest_root (before ++ event ∷ after) ≡ ok (some (announced a))
unfolding latest_root
latest_root-announced a event [] after same hb ha =
    rw (newest_keeps event after ha, root_of-root_tags a event same) refl
latest_root-announced a event (b ∷ before) after same hb ha =
    rw (newest_is b before after event hb.0 hb.1 ha, root_of-root_tags a event same) refl
