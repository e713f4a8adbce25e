-- ===== src/Publish/Order.antt =====
-- src/lib.rs: which actions the steps of a run add before the root event goes out.
use narwal_publisher.Prelude.{
  ◌≡◌, ◌⊎◌, inl, inr, refl, ap, sym, ◌∙◌, List, [], ◌∷◌, ◌++◌, Bool, true, false, Bytes, Text,
  Result, ok, err, All, All-append, append_assoc, Bool-cases, Option-cases,
}
use narwal_publisher.Prelude.Effects.{continue}
use narwal_publisher.Prelude.Membership.{get}
use narwal_publisher.StorePath.{hash_part}
use narwal_publisher.Closure.{ClosureEntry}
use narwal_publisher.Publish.{PublishError, invalid_path, or_err, narinfo_name}
use narwal_publisher.Publish.Plan.{Outside, Prepared}
use narwal_publisher.Publish.Paths.{process_path}
use narwal_publisher.Publish.Steps.{
  Action, stored, rejected, announced, World, Uploader, upload, upload_all, publish_path,
  publish_entry, publish_entries,
}

-- an upload, and one that succeeded
abbrev pub IsUpload : Action → Type 0
IsUpload (stored bytes) = Unit
IsUpload (rejected bytes) = Unit
IsUpload (announced a sent) = ⊥

abbrev pub IsStored : Action → Type 0
IsStored (stored bytes) = Unit
IsStored (rejected bytes) = ⊥
IsStored (announced a sent) = ⊥

-- the blob was stored by one of the actions
abbrev pub HasStored : List Action → Bytes → Type 0
HasStored [] bytes = ⊥
HasStored (stored b ∷ actions) bytes = (b ≡ bytes) ⊎ HasStored actions bytes
HasStored (rejected b ∷ actions) bytes = HasStored actions bytes
HasStored (announced a sent ∷ actions) bytes = HasStored actions bytes

pub HasStored-append :
    (xs ys : List Action) (bytes : Bytes) → HasStored xs bytes → HasStored (xs ++ ys) bytes
HasStored-append [] ys bytes h = absurd h
HasStored-append (stored b ∷ xs) ys bytes (inl same) = inl same
HasStored-append (stored b ∷ xs) ys bytes (inr h) = inr (HasStored-append xs ys bytes h)
HasStored-append (rejected b ∷ xs) ys bytes h = HasStored-append xs ys bytes h
HasStored-append (announced a sent ∷ xs) ys bytes h = HasStored-append xs ys bytes h

pub IsUpload-IsStored : (xs : List Action) → All IsStored xs → All IsUpload xs
IsUpload-IsStored [] h = tt
IsUpload-IsStored (stored b ∷ xs) h = (tt, IsUpload-IsStored xs h.1)
IsUpload-IsStored (rejected b ∷ xs) h = absurd h.0
IsUpload-IsStored (announced a sent ∷ xs) h = absurd h.0

-- of a step that succeeds every upload succeeded
abbrev pub Good : {A : Type 0} → Result PublishError A → List Action → Type 0
Good (ok a) new = All IsStored new
Good (err e) new = All IsUpload new

module _ {S : Type 0} where
  -- the step added uploads only
  pub record Grown {A : Type 0} (s : World S) (p : Result PublishError A × World S) : Type 0 where
    pub new : List Action
    pub same : p.1.actions ≡ new ++ s.actions
    pub good : Good p.0 new

  pub Grown-lift : {A : Type 0} (s : World S) (r : Result PublishError A) → Grown s (r, s)
  Grown-lift s (ok a) = record { new = []; same = refl; good = tt }
  Grown-lift s (err e) = record { new = []; same = refl; good = tt }

  pub Grown-trans :
      {B : Type 0} (s t : World S) (new : List Action) (p : Result PublishError B × World S)
      → t.actions ≡ new ++ s.actions
      → All IsStored new
      → Grown t p
      → Grown s p
  Grown-trans s t new (ok b, u) before good g = record {
    new = g.new ++ new;
    same = g.same ∙ ap (◌++◌ g.new) before ∙ sym (append_assoc g.new new s.actions);
    good = All-append IsStored g.new new g.good good;
  }
  Grown-trans s t new (err e, u) before good g = record {
    new = g.new ++ new;
    same = g.same ∙ ap (◌++◌ g.new) before ∙ sym (append_assoc g.new new s.actions);
    good = All-append IsUpload g.new new g.good (IsUpload-IsStored new good);
  }

  pub Grown-continue :
      {A B : Type 0} (s : World S) (p : Result PublishError A × World S)
      (next : A → World S → Result PublishError B × World S)
      → Grown s p
      → ((a : A) (t : World S) → Grown t (next a t))
      → Grown s (continue p next)
  Grown-continue s (ok a, t) next g h = Grown-trans s t g.new (next a t) g.same g.good (h a t)
  Grown-continue s (err e, t) next g h = record { new = g.new; same = g.same; good = g.good }

module _ {S : Type 0} (uploader : Uploader S) where
  pub upload-Grown : (bytes : Bytes) (s : World S) → Grown s (upload uploader bytes s)
  unfolding upload
  upload-Grown bytes s = elim (Bool-cases (uploader.upload_bytes bytes s.uploader).0) [
    | inl success ↦ rw success (record { new = stored bytes ∷ []; same = refl; good = (tt, tt) })
    | inr failure ↦ rw failure (record { new = rejected bytes ∷ []; same = refl; good = (tt, tt) })
  ]

  pub upload_all-Grown :
      (dry_run : Bool) (blobs : List Bytes) (s : World S)
      → Grown s (upload_all uploader dry_run blobs s)
  unfolding upload_all
  upload_all-Grown dry_run [] s = Grown-lift s (ok tt)
  upload_all-Grown true (b ∷ blobs) s = Grown-lift s (ok tt)
  upload_all-Grown false (b ∷ blobs) s =
      Grown-continue s (upload uploader b s) _ (upload-Grown b s)
        (λ _ t. upload_all-Grown false blobs t)

  module _ (out : Outside) (dry_run : Bool) (run : Prepared) where
    publish_path-Grown :
        (entry : ClosureEntry) (basename name : Text) (s : World S)
        → Grown s (publish_path uploader out dry_run run entry basename name s)
    unfolding publish_path
    publish_path-Grown entry basename name s =
        Grown-continue s (process_path out run entry basename name, s) _
          (Grown-lift s (process_path out run entry basename name))
          (λ processed t.
            Grown-continue t
              (upload_all uploader dry_run (processed.nar ∷ processed.narinfo ∷ []) t) _
              (upload_all-Grown dry_run (processed.nar ∷ processed.narinfo ∷ []) t)
              (λ _ u. Grown-lift u (ok processed.entry)))

    publish_entry-Grown :
        (entry : ClosureEntry) (basename : Text) (s : World S)
        → Grown s (publish_entry uploader out dry_run run entry basename s)
    unfolding publish_entry
    publish_entry-Grown entry basename s =
        elim (Option-cases (get (narinfo_name (hash_part basename)) run.existing)) [
          | inl absent ↦
              rw (absent, publish_entry)
                (publish_path-Grown entry basename (narinfo_name (hash_part basename)) s)
          | inr (known, found) ↦ rw (found, publish_entry) (Grown-lift s (ok known))
        ]

    pub publish_entries-Grown :
        (entries : List ClosureEntry) (s : World S)
        → Grown s (publish_entries uploader out dry_run run entries s)
    unfolding publish_entries
    publish_entries-Grown [] s = Grown-lift s (ok [])
    publish_entries-Grown (entry ∷ entries) s =
        Grown-continue s (or_err (out.file_name entry.path) (invalid_path entry.path), s) _
          (Grown-lift s (or_err (out.file_name entry.path) (invalid_path entry.path)))
          (λ basename t.
            Grown-continue t (publish_entry uploader out dry_run run entry basename t) _
              (publish_entry-Grown entry basename t)
              (λ new u.
                Grown-continue u (publish_entries uploader out dry_run run entries u) _
                  (publish_entries-Grown entries u) (λ rest v. Grown-lift v (ok (new ∷ rest)))))
