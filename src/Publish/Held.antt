-- ===== src/Publish/Held.antt =====
-- src/lib.rs: uploads that end without an error have stored every blob.
use narwal_publisher.Prelude.{
  ◌≡◌, inl, inr, refl, ap, sym, ◌∙◌, List, [], ◌∷◌, ◌++◌, false, Bytes, Result, ok, err, All,
  All-append, append_assoc, Bool-cases,
}
use narwal_publisher.Prelude.Effects.{continue}
use narwal_publisher.Publish.{PublishError}
use narwal_publisher.Publish.Steps.{
  Action, stored, rejected, announced, World, Uploader, upload, upload_all,
}
use narwal_publisher.Publish.Order.{IsStored, HasStored, HasStored-append}

pub All-HasStored-append :
    (xs ys : List Action) (blobs : List Bytes)
    → All (λ b. HasStored xs b) blobs
    → All (λ b. HasStored (xs ++ ys) b) blobs
All-HasStored-append xs ys [] h = tt
All-HasStored-append xs ys (b ∷ blobs) h =
    (HasStored-append xs ys b h.0, All-HasStored-append xs ys blobs h.1)

pub HasStored-append_right :
    (xs ys : List Action) (bytes : Bytes) → HasStored ys bytes → HasStored (xs ++ ys) bytes
HasStored-append_right [] ys bytes h = h
HasStored-append_right (stored b ∷ xs) ys bytes h = inr (HasStored-append_right xs ys bytes h)
HasStored-append_right (rejected b ∷ xs) ys bytes h = HasStored-append_right xs ys bytes h
HasStored-append_right (announced a sent ∷ xs) ys bytes h = HasStored-append_right xs ys bytes h

module _ {S : Type 0} where
  -- uploads that end without an error have stored every blob
  pub record Held (blobs : List Bytes) (s t : World S) : Type 0 where
    pub new : List Action
    pub same : t.actions ≡ new ++ s.actions
    pub good : All IsStored new
    pub held : All (λ b. HasStored new b) blobs

module _ {S : Type 0} (uploader : Uploader S) where
  pub upload_ok :
      (bytes : Bytes) (s t : World S)
      → upload uploader bytes s ≡ (ok tt, t)
      → t.actions ≡ stored bytes ∷ s.actions
  unfolding upload
  upload_ok bytes s t e = elim (Bool-cases (uploader.upload_bytes bytes s.uploader).0) [
    | inl success ↦
        sym (ap (λ (p : Result PublishError (Unit {0}) × World S). p.1.actions) (rw success at e))
    | inr failure ↦
        cc (ap (λ (p : Result PublishError (Unit {0}) × World S). p.0) (rw failure at e))
  ]

  pub upload_all-Held :
      (blobs : List Bytes) (s t : World S)
      → upload_all uploader false blobs s ≡ (ok tt, t)
      → Held blobs s t
  unfolding upload_all
  upload_all-Held [] s t e = record {
    new = [];
    same = sym (ap (λ (p : Result PublishError (Unit {0}) × World S). p.1.actions) e);
    good = tt;
    held = tt;
  }
  upload_all-Held (b ∷ blobs) s t e = first (upload uploader b s) refl e (upload_all-Held blobs)
    where
      first :
          (p : Result PublishError (Unit {0}) × World S)
          → upload uploader b s ≡ p
          → continue p (λ _. upload_all uploader false blobs) ≡ (ok tt, t)
          → ((w v : World S) → upload_all uploader false blobs w ≡ (ok tt, v) → Held blobs w v)
          → Held (b ∷ blobs) s t
      first (err x, w) here there ih =
          cc (ap (λ (p : Result PublishError (Unit {0}) × World S). p.0) there)
      first (ok tt, w) here there ih =
          let h = ih w t there in
          record {
            new = h.new ++ stored b ∷ [];
            same =
                h.same
                ∙ ap (◌++◌ h.new) (upload_ok b s w here)
                ∙ sym (append_assoc h.new (stored b ∷ []) s.actions);
            good = All-append IsStored h.new (stored b ∷ []) h.good (tt, tt);
            held = (
              HasStored-append_right h.new (stored b ∷ []) b (inl refl),
              All-HasStored-append h.new (stored b ∷ []) blobs h.held,
            );
          }
