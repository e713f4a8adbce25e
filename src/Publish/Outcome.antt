-- ===== src/Publish/Outcome.antt =====
-- src/lib.rs: how a run can end: with uploads only, or with the root event behind them.
use narwal_publisher.Prelude.{
  ◌≡◌, refl, ap, sym, ◌∙◌, List, [], ◌∷◌, ◌++◌, Bool, Option, none, some, Bytes, Text, text, Result,
  ok, err, All, All-append, append_assoc,
}
use narwal_publisher.Prelude.Effects.{continue}
use narwal_publisher.Manifest.{DirEntry, build_directory_tree}
use narwal_publisher.Nhash.{nhash_encode}
use narwal_publisher.Nostr.{Announcement}
use narwal_publisher.Publish.{PublishConfig, PublishError, map_err, or_err, put_all, final_entries}
use narwal_publisher.Publish.Plan.{Outside, Prepared}
use narwal_publisher.Publish.Steps.{Action, announced, World, announcement}
use narwal_publisher.Publish.Order.{
  IsUpload, IsStored, HasStored, HasStored-append, IsUpload-IsStored, Good, Grown, Grown-trans,
}

pub map_err-eq-ok :
    {E A : Type 0} (wrap : E → PublishError) (r : Result E A) (a : A)
    → map_err wrap r ≡ ok a
    → r ≡ ok a
unfolding map_err
map_err-eq-ok wrap (ok b) a h = cc
map_err-eq-ok wrap (err e) a h = cc

pub or_err-eq-ok :
    {A : Type 0} (o : Option A) (e : PublishError) (a : A) → or_err o e ≡ ok a → o ≡ some a
unfolding or_err
or_err-eq-ok none e a h = cc
or_err-eq-ok (some b) e a h = cc

abbrev pub event_or : Announcement → List Action → Announcement
event_or a (announced b sent ∷ xs) = b
event_or a _ = a

pub Good-IsUpload :
    {A : Type 0} (r : Result PublishError A) (xs : List Action) → Good r xs → All IsUpload xs
Good-IsUpload (ok a) xs h = IsUpload-IsStored xs h
Good-IsUpload (err e) xs h = h

abbrev pub tail : List Action → List Action
tail [] = []
tail (x ∷ xs) = xs

pub HasStored-All :
    (xs ys : List Action) (nodes : List (Bytes × Bytes))
    → All (λ n. HasStored xs n.0) nodes
    → All (λ n. HasStored (xs ++ ys) n.0) nodes
HasStored-All xs ys [] h = tt
HasStored-All xs ys (n ∷ nodes) h = (HasStored-append xs ys n.0 h.0, HasStored-All xs ys nodes h.1)

-- what the root event says of the actions before it: it is the event of this run, for the root of the
-- tree of the entries of the cache and of this run, all of whose nodes are stored
pub record Backed (out : Outside) (config : PublishConfig) (run : Prepared)
    (new_entries : List DirEntry) (before : List Action) (a : Announcement) : Type 0 where
  pub stored_only : All IsStored before
  pub nodes : List (Bytes × Bytes)
  pub root_hash : Bytes
  pub nhash : Text
  pub built :
      build_directory_tree out.to_vec_named out.codecs.sha256
        (final_entries out.codecs.sha256 (put_all new_entries run.existing))
      ≡ some (nodes, root_hash)
  pub encoded : nhash_encode out.bech32 root_hash ≡ ok nhash
  pub event : a ≡ announcement out config run (text "htree://" ++ nhash)
  pub held : All (λ n. HasStored before n.0) nodes

module _ (out : Outside) (config : PublishConfig) (run : Prepared)
    (new_entries : List DirEntry) where
  pub Backed-append :
      (before more : List Action) (a : Announcement)
      → All IsStored more
      → Backed out config run new_entries before a
      → Backed out config run new_entries (before ++ more) a
  Backed-append before more a good b = record {
    stored_only = All-append IsStored before more b.stored_only good;
    nodes = b.nodes;
    root_hash = b.root_hash;
    nhash = b.nhash;
    built = b.built;
    encoded = b.encoded;
    event = b.event;
    held = HasStored-All before more b.nodes b.held;
  }

module _ {S : Type 0} (P : List Action → Announcement → Type 0) where
  -- either uploads only, or the event behind actions that `P` speaks of
  pub data Outcome (s : World S) : Result PublishError (Unit {0}) × World S → Type 0 where
    quiet : {p : Result PublishError (Unit {0}) × World S} → Grown s p → Outcome s p
    announces :
        {p : Result PublishError (Unit {0}) × World S} (a : Announcement) (sent : Bool)
        (before : List Action)
        → p.1.actions ≡ announced a sent ∷ before ++ s.actions
        → P before a
        → Outcome s p

module _ {S : Type 0} (P Q : List Action → Announcement → Type 0) where
  pub Outcome-trans :
      (s t : World S) (new : List Action) {p : Result PublishError (Unit {0}) × World S}
      → t.actions ≡ new ++ s.actions
      → All IsStored new
      → ((before : List Action) (a : Announcement) → P before a → Q (before ++ new) a)
      → Outcome P t p
      → Outcome Q s p
  Outcome-trans s t new {p} before good more (quiet g) = quiet (Grown-trans s t new p before good g)
  Outcome-trans s t new {p} before good more (announces a sent earlier same b) =
      announces a sent (earlier ++ new)
        (same
          ∙ ap (λ xs. announced a sent ∷ earlier ++ xs) before
          ∙ ap (◌∷◌ (announced a sent)) (sym (append_assoc earlier new s.actions)))
        (more earlier a b)

-- `P` goes on holding behind more uploads
abbrev pub Extends : (List Action → Announcement → Type 0) → Type 0
Extends P =
    (new before : List Action) (a : Announcement)
    → All IsStored new
    → P before a
    → P (before ++ new) a

module _ {S : Type 0} (P : List Action → Announcement → Type 0) where
  pub Outcome-continue :
      {A : Type 0} (s : World S) (p : Result PublishError A × World S)
      (next : A → World S → Result PublishError (Unit {0}) × World S)
      → Extends P
      → Grown s p
      → ((a : A) (t : World S) → p.0 ≡ ok a → Outcome P t (next a t))
      → Outcome P s (continue p next)
  Outcome-continue s (ok a, t) next more g h =
      Outcome-trans P P s t g.new g.same g.good (λ before b. more g.new before b g.good)
        (h a t refl)
  Outcome-continue s (err e, t) next more g h =
      quiet (record { new = g.new; same = g.same; good = g.good })
