-- ===== src/Publish/Confirmed.antt =====
-- src/lib.rs, src/blossom.rs: what a run counts as stored, and the exchanges that confirm it.
use narwal_publisher.Prelude.{◌++◌}
use narwal_publisher.Prelude.{◌≡◌, List, [], ◌∷◌, Bool, true, false, Bytes, Text}
use narwal_publisher.Blossom.{Network, Session}
use narwal_publisher.Blossom.{upload as upload_blob}
use narwal_publisher.Blossom.{Exchange}
use narwal_publisher.Nostr.{Announcement}
use narwal_publisher.Blossom.Upload.{Visits}
use narwal_publisher.Publish.Steps.{Action, stored, rejected, announced, World, upload}

-- The exchanges of a run are those of its uploads, each of them visits to the servers: with a success
-- among them for a blob that counts as stored, with none for one that was rejected.
pub data IsConfirmed (network : Network) (hash_hex : Bytes → Text) (servers : List Text)
    : List Action → List Exchange → Type 0 where
  nothing : IsConfirmed network hash_hex servers [] []
  confirmed :
      {actions : List Action} {exchanges after : List Exchange} (bytes : Bytes)
      (new : List Exchange)
      → IsConfirmed network hash_hex servers actions exchanges
      → Visits network bytes (hash_hex bytes) exchanges servers true new
      → after ≡ new ++ exchanges
      → IsConfirmed network hash_hex servers (stored bytes ∷ actions) after
  refused :
      {actions : List Action} {exchanges after : List Exchange} (bytes : Bytes)
      (new : List Exchange)
      → IsConfirmed network hash_hex servers actions exchanges
      → Visits network bytes (hash_hex bytes) exchanges servers false new
      → after ≡ new ++ exchanges
      → IsConfirmed network hash_hex servers (rejected bytes ∷ actions) after
  event :
      {actions : List Action} {exchanges : List Exchange} (a : Announcement) (sent : Bool)
      → IsConfirmed network hash_hex servers actions exchanges
      → IsConfirmed network hash_hex servers (announced a sent ∷ actions) exchanges

module _ (network : Network) (hash_hex : Bytes → Text) (servers : List Text) where
  abbrev Confirms : World Session → Type 0
  Confirms world = IsConfirmed network hash_hex servers world.actions world.uploader.exchanges
