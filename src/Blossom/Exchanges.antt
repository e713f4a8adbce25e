-- ===== src/Blossom/Exchanges.antt =====
-- src/blossom.rs: the requests among the exchanges, and those that confirm a blob.
use narwal_publisher.Prelude.{Bytes, length, subst}
use narwal_publisher.Prelude.{
  ℕ, suc, ◌+◌, ◌≤◌, ◌≡◌, refl, ap, List, [], ◌∷◌, ◌++◌, Bool, false, ◌||◌, none, some, arith, sym,
  ◌∙◌, append_assoc, Text,
}
use narwal_publisher.BlossomFetch.{is_success, blob_url}
use narwal_publisher.Blossom.{
  Exchange, Network, told_time, signed, head_blob, head_upload, put_blob, Session, upload_url,
}

-- the exchange is a reply that says that a server has the blob that was asked for or sent
abbrev pub succeeds : Exchange → Bool
succeeds (told_time t) = false
succeeds (signed expiration header) = false
succeeds (head_blob url none) = false
succeeds (head_blob url (some status)) = is_success status
succeeds (head_upload url hash size reply) = false
succeeds (put_blob url hash bytes auth none) = false
succeeds (put_blob url hash bytes auth (some reply)) = is_success reply.status

abbrev pub any_succeeds : List Exchange → Bool
any_succeeds [] = false
any_succeeds (e ∷ es) = succeeds e || any_succeeds es

-- an upload: the server, and the blob with its hash
pub record Target : Type 0 where
  pub network : Network
  pub server : Text
  pub bytes : Bytes
  pub hash : Text

abbrev pub target : Network → Text → Bytes → Text → Target
target network server bytes hash = record {
  network = network;
  server = server;
  bytes = bytes;
  hash = hash;
}

-- the exchange is no request, or a request to the URLs of the server, about this blob, with the
-- answer that the network has to it after the exchanges before
abbrev pub IsTo : Target → Exchange → List Exchange → Type 0
IsTo to (told_time t) before = Unit
IsTo to (signed expiration header) before = Unit
IsTo to (head_blob url reply) before =
    (url ≡ blob_url to.server to.hash) × (reply ≡ to.network.head before url)
IsTo to (head_upload url hash size reply) before =
    (url ≡ upload_url to.server)
    × (hash ≡ to.hash)
    × (size ≡ length to.bytes)
    × (reply ≡ to.network.preflight before url hash size)
IsTo to (put_blob url hash bytes auth reply) before =
    (url ≡ upload_url to.server)
    × (hash ≡ to.hash)
    × (bytes ≡ to.bytes)
    × (reply ≡ to.network.put before url hash bytes auth)

-- so is every exchange of a list, the latest first
abbrev pub AreTo : Target → List Exchange → List Exchange → Type 0
AreTo to [] before = Unit
AreTo to (e ∷ es) before = IsTo to e (es ++ before) × AreTo to es before

-- an exchange over HTTP
abbrev pub requests : List Exchange → ℕ
requests [] = 0
requests (told_time t ∷ es) = requests es
requests (signed expiration header ∷ es) = requests es
requests (head_blob url reply ∷ es) = suc (requests es)
requests (head_upload url hash size reply ∷ es) = suc (requests es)
requests (put_blob url hash bytes auth reply ∷ es) = suc (requests es)

-- the step added at most `limit` requests, all to this server and about this blob, and one says that
-- the server has it exactly if `confirmed`
pub record Added (to : Target) (limit : ℕ) (confirmed : Bool) (s t : Session) : Type 0 where
  pub new : List Exchange
  pub same : t.exchanges ≡ new ++ s.exchanges
  pub few : requests new ≤ limit
  pub found : any_succeeds new ≡ confirmed
  pub addressed : AreTo to new s.exchanges

AreTo-append :
    (to : Target) (ys xs before : List Exchange)
    → AreTo to ys (xs ++ before)
    → AreTo to xs before
    → AreTo to (ys ++ xs) before
AreTo-append to [] xs before hy hx = hx
AreTo-append to (y ∷ ys) xs before hy hx =
    (subst (IsTo to y) (sym (append_assoc ys xs before)) hy.0, AreTo-append to ys xs before hy.1 hx)

pub requests-append : (xs ys : List Exchange) → requests (xs ++ ys) ≡ requests xs + requests ys
requests-append [] ys = omega arith
requests-append (told_time t ∷ es) ys = requests-append es ys
requests-append (signed expiration header ∷ es) ys = requests-append es ys
requests-append (head_blob url reply ∷ es) ys = omega (arith, requests-append es ys)
requests-append (head_upload url hash size reply ∷ es) ys = omega (arith, requests-append es ys)
requests-append (put_blob url hash bytes auth reply ∷ es) ys = omega (arith, requests-append es ys)

pub any_succeeds-append :
    (xs ys : List Exchange) → any_succeeds (xs ++ ys) ≡ (any_succeeds xs || any_succeeds ys)
any_succeeds-append [] ys = refl
any_succeeds-append (e ∷ es) ys = ground (arith, any_succeeds-append es ys)

pub Added-trans :
    (to : Target) (n m : ℕ) (a b : Bool) (s t u : Session)
    → Added to n a s t
    → Added to m b t u
    → Added to (n + m) (a || b) s u
Added-trans to n m a b s t u x y = record {
  new = y.new ++ x.new;
  same = y.same ∙ ap (◌++◌ y.new) x.same ∙ sym (append_assoc y.new x.new s.exchanges);
  few = omega (arith, requests-append y.new x.new, x.few, y.few);
  found = ground (arith, any_succeeds-append y.new x.new, x.found, y.found);
  addressed =
      AreTo-append to y.new x.new s.exchanges (subst (AreTo to y.new) x.same y.addressed)
        x.addressed;
}

pub Added-none : (to : Target) (s t : Session) → t.exchanges ≡ s.exchanges → Added to 0 false s t
Added-none to s t same = record {
  new = [];
  same = same;
  few = omega arith;
  found = refl;
  addressed = tt;
}

pub Added-le :
    (to : Target) (n m : ℕ) (a : Bool) (s t : Session) → n ≤ m → Added to n a s t → Added to m a s t
Added-le to n m a s t h x = record {
  new = x.new;
  same = x.same;
  few = omega (arith, x.few, h);
  found = x.found;
  addressed = x.addressed;
}
