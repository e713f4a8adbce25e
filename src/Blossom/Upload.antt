-- ===== src/Blossom/Upload.antt =====
-- src/blossom.rs: what an upload says of the servers, and how many requests it sends.
use narwal_publisher.Prelude.{◌≤◌, ◌++◌}
use narwal_publisher.Prelude.{◌≡◌, List, [], ◌∷◌, Bool, false, ◌||◌, Bytes, Text}
use narwal_publisher.Blossom.{Exchange, Network, Session}
use narwal_publisher.Blossom.Exchanges.{target, AreTo, requests, any_succeeds}

-- The exchanges of one visit to each server after the exchanges `before`, the latest first: `here` to
-- the first server, then `later` to the others. `confirmed` tells whether a request of a visit was
-- answered with success.
pub data Visits (network : Network) (bytes : Bytes) (hash : Text)
    : List Exchange → List Text → Bool → List Exchange → Type 0 where
  no_server : {before : List Exchange} → Visits network bytes hash before [] false []
  visit :
      {before : List Exchange} {server : Text} {servers : List Text} {confirmed : Bool}
      {new : List Exchange} (here later : List Exchange) (rest : Bool)
      → requests here ≤ 4
      → AreTo (target network server bytes hash) here before
      → Visits network bytes hash (here ++ before) servers rest later
      → new ≡ later ++ here
      → confirmed ≡ (any_succeeds here || rest)
      → Visits network bytes hash before (server ∷ servers) confirmed new

-- the step added such visits
pub record Visited (network : Network) (bytes : Bytes) (hash : Text) (servers : List Text)
    (confirmed : Bool) (s t : Session) : Type 0 where
  pub new : List Exchange
  pub same : t.exchanges ≡ new ++ s.exchanges
  pub visits : Visits network bytes hash s.exchanges servers confirmed new
