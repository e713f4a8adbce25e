-- ===== src/Publish/Made.antt =====
-- src/lib.rs: the loop over the closure makes one entry for each path and only stores blobs.
use narwal_publisher.Prelude.{
  ◌≡◌, refl, ap, sym, subst, ◌∙◌, List, [], ◌∷◌, ◌++◌, false, Option, none, some, Text, Result, ok,
  All-append, append_assoc, ok-injective,
}
use mathlib.Core.Path.{subst₂}
use narwal_publisher.Prelude.Effects.{return, continue-eq-ok}
use narwal_publisher.Prelude.Membership.{get}
use narwal_publisher.StorePath.{hash_part}
use narwal_publisher.Manifest.{DirEntry}
use narwal_publisher.Closure.{ClosureEntry}
use narwal_publisher.Publish.{PublishError, invalid_path, or_err, narinfo_name}
use narwal_publisher.Publish.Plan.{Outside, Prepared}
use narwal_publisher.Publish.Paths.{Processed, process_path}
use narwal_publisher.Publish.Steps.{
  World, Uploader, upload_all, publish_path, publish_entry, publish_entries,
}
use narwal_publisher.Publish.Order.{IsStored}
use narwal_publisher.Publish.Outcome.{or_err-eq-ok}
use narwal_publisher.Publish.Held.{Held, upload_all-Held}
use narwal_publisher.Publish.Produced.{Entry-append_right, kept, made, Produced-append, Made}

module _ {S : Type 0} (uploader : Uploader S) (out : Outside) (run : Prepared) where
  publish_path-Held :
      (path : ClosureEntry) (basename : Text) (e : DirEntry) (s : World S)
      → (publish_path uploader out false run path basename (narinfo_name (hash_part basename)) s).0
        ≡ ok e
      → (p : Processed) × (process_path out run path basename (narinfo_name (hash_part basename))
          ≡ ok p)
        × (e ≡ p.entry)
        × Held
            (p.nar ∷ p.narinfo ∷ [])
            s
            (publish_path uploader out false run path basename
              (narinfo_name (hash_part basename))
              s).1
  unfolding publish_path
  publish_path-Held path basename e s h =
      let name = narinfo_name (hash_part basename) in
      let (processed, runs, f) = continue-eq-ok (process_path out run path basename name, s) _ h in
      let blobs = processed.nar ∷ processed.narinfo ∷ [] in
      let (_, up, g) =
        continue-eq-ok (upload_all uploader false blobs s) _
          (ap (λ (q : Result PublishError DirEntry × World S). q.0) (sym f) ∙ h) in
      let t : World S = (upload_all uploader false blobs s).1 in
      let held = upload_all-Held uploader blobs s t (ap (λ r. (r, t)) up) in
      (
        processed,
        runs,
        ok-injective (sym h ∙ ap (λ (q : Result PublishError DirEntry × World S). q.0) (f ∙ g)),
        subst (Held blobs s)
            (ap (λ (q : Result PublishError DirEntry × World S). q.1) (sym (f ∙ g))) held,
      )

  -- one round of the loop
  publish_entry-Made :
      (path : ClosureEntry) (basename : Text) (e : DirEntry) (s : World S)
      → out.file_name path.path ≡ some basename
      → (publish_entry uploader out false run path basename s).0 ≡ ok e
      → Made out run (path ∷ []) (e ∷ []) s (publish_entry uploader out false run path basename s).1
  unfolding publish_entry
  publish_entry-Made path basename e s named h =
      go (get (narinfo_name (hash_part basename)) run.existing) refl h
    where
      go :
          (o : Option DirEntry)
          → get (narinfo_name (hash_part basename)) run.existing ≡ o
          → (elim o as (λ _. World S → Result PublishError DirEntry × World S) [
            | some known ↦ return known
            | none ↦
                publish_path uploader out false run path basename
                  (narinfo_name (hash_part basename))
          ]
              s).0
            ≡ ok e
          → Made out run
              (path ∷ [])
              (e ∷ [])
              s
              (elim o as (λ _. World S → Result PublishError DirEntry × World S) [
                | some known ↦ return known
                | none ↦
                    publish_path uploader out false run path basename
                      (narinfo_name (hash_part basename))
              ]
                s).1
      go (some known) found same = record {
        new = [];
        same = refl;
        good = tt;
        produced = (kept basename named (found ∙ ap some (ok-injective same)), tt);
      }
      go none absent same =
          let (processed, runs, is_entry, held) = publish_path-Held path basename e s same in
          record {
            new = held.new;
            same = held.same;
            good = held.good;
            produced = (
              made basename named absent (record {
                processed = processed;
                runs = runs;
                entry = is_entry;
                nar_stored = held.held.0;
                narinfo_stored = held.held.1.0;
              }),
              tt,
            );
          }

  Made-cons :
      (path : ClosureEntry) (paths : List ClosureEntry) (e : DirEntry) (es : List DirEntry)
      (s t u : World S)
      → Made out run (path ∷ []) (e ∷ []) s t
      → Made out run paths es t u
      → Made out run (path ∷ paths) (e ∷ es) s u
  Made-cons path paths e es s t u x y = record {
    new = y.new ++ x.new;
    same = y.same ∙ ap (◌++◌ y.new) x.same ∙ sym (append_assoc y.new x.new s.actions);
    good = All-append IsStored y.new x.new y.good x.good;
    produced = (
      Entry-append_right out run y.new x.new path e x.produced.0,
      Produced-append out run y.new x.new paths es y.produced,
    );
  }

  -- Where all the entries of a run were made, each path of the closure has one, from the cache or
  -- with its blobs stored.
  pub publish_entries-Made :
      (paths : List ClosureEntry) (es : List DirEntry) (s : World S)
      → (publish_entries uploader out false run paths s).0 ≡ ok es
      → Made out run paths es s (publish_entries uploader out false run paths s).1
  unfolding publish_entries
  publish_entries-Made [] [] s h = record { new = []; same = refl; good = tt; produced = tt }
  publish_entries-Made [] (e ∷ es) s h = cc
  publish_entries-Made (path ∷ paths) es s h =
      let (basename, named, a) =
        continue-eq-ok (or_err (out.file_name path.path) (invalid_path path.path), s) _ h in
      let (e, made_one, b) =
        continue-eq-ok (publish_entry uploader out false run path basename s) _
          (ap (λ (q : Result PublishError (List DirEntry) × World S). q.0) (sym a) ∙ h) in
      let t : World S = (publish_entry uploader out false run path basename s).1 in
      let (rest, made_rest, c) =
        continue-eq-ok (publish_entries uploader out false run paths t) _
          (ap (λ (q : Result PublishError (List DirEntry) × World S). q.0) (sym (a ∙ b)) ∙ h) in
      let whole = a ∙ b ∙ c in
      subst₂ (λ v u. Made out run (path ∷ paths) v s u)
        (ok-injective
          (ap (λ (q : Result PublishError (List DirEntry) × World S). q.0) (sym whole) ∙ h))
        (ap (λ (q : Result PublishError (List DirEntry) × World S). q.1) (sym whole))
        (Made-cons path paths e rest s t (publish_entries uploader out false run paths t).1
          (publish_entry-Made path basename e s
            (or_err-eq-ok (out.file_name path.path) (invalid_path path.path) basename named)
            made_one)
          (publish_entries-Made paths rest t made_rest))
