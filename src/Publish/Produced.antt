-- ===== src/Publish/Produced.antt =====
-- src/lib.rs: where the entries of a run come from: the cache, or blobs that were stored.
use narwal_publisher.Prelude.{◌≡◌, List, [], ◌∷◌, ◌++◌, none, some, Text, ok, All}
use narwal_publisher.Prelude.Membership.{get}
use narwal_publisher.StorePath.{hash_part}
use narwal_publisher.Manifest.{DirEntry}
use narwal_publisher.Closure.{ClosureEntry}
use narwal_publisher.Publish.{narinfo_name}
use narwal_publisher.Publish.Plan.{Outside, Prepared}
use narwal_publisher.Publish.Paths.{Processed, process_path}
use narwal_publisher.Publish.Steps.{Action, World}
use narwal_publisher.Publish.Order.{IsStored, HasStored, HasStored-append}
use narwal_publisher.Publish.Held.{HasStored-append_right}

module _ (out : Outside) (run : Prepared) where
  -- the entry of a path that is not in the cache: its archive and its narinfo were stored
  pub record Fresh (actions : List Action) (path : ClosureEntry) (basename : Text) (e : DirEntry)
      : Type 0 where
    pub processed : Processed
    pub runs : process_path out run path basename (narinfo_name (hash_part basename)) ≡ ok processed
    pub entry : e ≡ processed.entry
    pub nar_stored : HasStored actions processed.nar
    pub narinfo_stored : HasStored actions processed.narinfo

  -- the entry that a path of the closure has in the tree
  pub data Entry (actions : List Action) (path : ClosureEntry) (e : DirEntry) : Type 0 where
    kept :
        (basename : Text)
        → out.file_name path.path ≡ some basename
        → get (narinfo_name (hash_part basename)) run.existing ≡ some e
        → Entry actions path e
    made :
        (basename : Text)
        → out.file_name path.path ≡ some basename
        → get (narinfo_name (hash_part basename)) run.existing ≡ none
        → Fresh actions path basename e
        → Entry actions path e

  -- one entry for each path of the closure
  abbrev pub Produced : List Action → List ClosureEntry → List DirEntry → Type 0
  Produced actions [] [] = Unit
  Produced actions [] (e ∷ es) = ⊥
  Produced actions (path ∷ paths) [] = ⊥
  Produced actions (path ∷ paths) (e ∷ es) = Entry actions path e × Produced actions paths es

  Entry-append :
      (xs ys : List Action) (path : ClosureEntry) (e : DirEntry)
      → Entry xs path e
      → Entry (xs ++ ys) path e
  Entry-append xs ys path e (kept basename f g) = kept basename f g
  Entry-append xs ys path e (made basename f g x) = made basename f g (record {
    processed = x.processed;
    runs = x.runs;
    entry = x.entry;
    nar_stored = HasStored-append xs ys x.processed.nar x.nar_stored;
    narinfo_stored = HasStored-append xs ys x.processed.narinfo x.narinfo_stored;
  })

  pub Entry-append_right :
      (xs ys : List Action) (path : ClosureEntry) (e : DirEntry)
      → Entry ys path e
      → Entry (xs ++ ys) path e
  Entry-append_right xs ys path e (kept basename f g) = kept basename f g
  Entry-append_right xs ys path e (made basename f g x) = made basename f g (record {
    processed = x.processed;
    runs = x.runs;
    entry = x.entry;
    nar_stored = HasStored-append_right xs ys x.processed.nar x.nar_stored;
    narinfo_stored = HasStored-append_right xs ys x.processed.narinfo x.narinfo_stored;
  })

  pub Produced-append :
      (xs ys : List Action) (paths : List ClosureEntry) (es : List DirEntry)
      → Produced xs paths es
      → Produced (xs ++ ys) paths es
  Produced-append xs ys [] [] h = tt
  Produced-append xs ys [] (e ∷ es) h = h
  Produced-append xs ys (path ∷ paths) [] h = h
  Produced-append xs ys (path ∷ paths) (e ∷ es) h =
      (Entry-append xs ys path e h.0, Produced-append xs ys paths es h.1)

  pub Produced-append_right :
      (xs ys : List Action) (paths : List ClosureEntry) (es : List DirEntry)
      → Produced ys paths es
      → Produced (xs ++ ys) paths es
  Produced-append_right xs ys [] [] h = tt
  Produced-append_right xs ys [] (e ∷ es) h = h
  Produced-append_right xs ys (path ∷ paths) [] h = h
  Produced-append_right xs ys (path ∷ paths) (e ∷ es) h =
      (Entry-append_right xs ys path e h.0, Produced-append_right xs ys paths es h.1)

  module _ {S : Type 0} where
    -- a step that made entries, and only stored blobs
    pub record Made (paths : List ClosureEntry) (es : List DirEntry) (s t : World S) : Type 0 where
      pub new : List Action
      pub same : t.actions ≡ new ++ s.actions
      pub good : All IsStored new
      pub produced : Produced new paths es
