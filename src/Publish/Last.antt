-- ===== src/Publish/Last.antt =====
-- src/lib.rs: the root event goes out last, after every blob that it leads to was stored.
use narwal_publisher.Prelude.{
  ◌≡◌, refl, ap, sym, ◌∙◌, subst, List, [], ◌∷◌, ◌++◌, Bool, true, false, Result, ok, err, All,
  append-nil,
}
use mathlib.Core.Path.{subst₂}
use narwal_publisher.Prelude.Effects.{continue}
use narwal_publisher.Manifest.{DirEntry}
use narwal_publisher.Nostr.{Announcement}
use narwal_publisher.Publish.{PublishConfig, PublishError}
use narwal_publisher.Publish.Plan.{Outside, Prepared, check_and_prepare}
use narwal_publisher.Publish.Steps.{
  Action, announced, World, Uploader, publish_entries, finish_run, publish,
}
use narwal_publisher.Publish.Order.{IsUpload, IsUpload-IsStored, Grown, publish_entries-Grown}
use narwal_publisher.Publish.Outcome.{
  event_or, Good-IsUpload, tail, Backed, Backed-append, Outcome, Outcome-trans, quiet, announces,
}
use narwal_publisher.Publish.Produced.{Produced, Produced-append_right, Made}
use narwal_publisher.Publish.Made.{publish_entries-Made}
use narwal_publisher.Publish.Finish.{Backs, finish_run-Outcome}

module _ {S : Type 0} (uploader : Uploader S) where
  -- what a run has done before its root event, and what the event says
  pub record Complete (out : Outside) (config : PublishConfig) (before : List Action)
      (a : Announcement) : Type 0 where
    pub run : Prepared
    pub new_entries : List DirEntry
    pub prepared : check_and_prepare out config ≡ ok run
    pub backed : Backed out config run new_entries before a
    pub produced : Produced out run before run.closure new_entries

  module _ (out : Outside) (config : PublishConfig) where
    -- the loop over the closure and what follows, by whether the run is dry
    entries-Outcome :
        (dry_run : Bool) (run : Prepared) (s : World S)
        → check_and_prepare out config ≡ ok run
        → Outcome (Complete out config) s (
            continue
              (publish_entries uploader out dry_run run run.closure s)
              (finish_run uploader out dry_run config run))
    entries-Outcome true run s prepared =
        step (publish_entries uploader out true run run.closure s)
          (publish_entries-Grown uploader out true run run.closure s)
      where
        step :
            (p : Result PublishError (List DirEntry) × World S)
            → Grown s p
            → Outcome (Complete out config) s (continue p (finish_run uploader out true config run))
        step (err e, t) g = quiet (record { new = g.new; same = g.same; good = g.good })
        step (ok es, t) g =
            Outcome-trans (Backs uploader out config run es true) (Complete out config) s t g.new
              g.same g.good (λ before a b. absurd b)
              (finish_run-Outcome uploader out config run es true t)
    entries-Outcome false run s prepared =
        step (publish_entries uploader out false run run.closure s)
          (publish_entries-Grown uploader out false run run.closure s)
          (λ es h. publish_entries-Made uploader out run run.closure es s h)
      where
        step :
            (p : Result PublishError (List DirEntry) × World S)
            → Grown s p
            → ((es : List DirEntry) → p.0 ≡ ok es → Made out run run.closure es s p.1)
            → Outcome
                (Complete out config)
                s
                (continue p (finish_run uploader out false config run))
        step (err e, t) g made = quiet (record { new = g.new; same = g.same; good = g.good })
        step (ok es, t) g made =
            let m = made es refl in
            Outcome-trans (Backs uploader out config run es false) (Complete out config) s t m.new
              m.same m.good
              (λ before a b. record {
                run = run;
                new_entries = es;
                prepared = prepared;
                backed = Backed-append out config run es before m.new a m.good b;
                produced = Produced-append_right out run before m.new run.closure es m.produced;
              })
              (finish_run-Outcome uploader out config run es false t)

    publish-Outcome :
        (s : World S) → Outcome (Complete out config) s (publish uploader out config s)
    unfolding publish
    publish-Outcome s = step (check_and_prepare out config) refl
      where
        step :
            (r : Result PublishError Prepared)
            → check_and_prepare out config ≡ r
            → Outcome (Complete out config) s (
                continue
                  (r, s)
                  (λ run t.
                    continue
                      (publish_entries uploader out config.dry_run run run.closure t)
                      (finish_run uploader out config.dry_run config run)))
        step (err e) failed = quiet (record { new = []; same = refl; good = tt })
        step (ok run) prepared = entries-Outcome config.dry_run run s prepared

  no_event :
      (xs after before : List Action) (a : Announcement) (sent : Bool)
      → All IsUpload xs
      → xs ≡ after ++ announced a sent ∷ before
      → ⊥
  no_event xs [] before a sent h e = (subst (All IsUpload) e h).0
  no_event [] (x ∷ after) before a sent h e = cc
  no_event (y ∷ xs) (x ∷ after) before a sent h e = no_event xs after before a sent h.1 (ap tail e)

  -- If a run that starts with no actions announces a root event at any point, it is the last action
  -- and every action before it is an upload that succeeded. The event has the relays, channel, servers
  -- and key of the run, and the root of the tree that `build_directory_tree` makes of the entries of
  -- the cache and of this run, and every node of the tree was stored before. Each path of the closure
  -- has its entry of this run: one that the cache had under the name of its narinfo, or one whose
  -- archive and narinfo, as `process_path` makes them, were stored before.
  pub publish_announces_last :
      (out : Outside) (config : PublishConfig) (s : World S) (a : Announcement) (sent : Bool)
      (after before : List Action)
      → s.actions ≡ []
      → (publish uploader out config s).1.actions ≡ after ++ announced a sent ∷ before
      → (after ≡ []) × Complete out config before a
  publish_announces_last out config s a sent after before start shape =
      last (publish uploader out config s) after (publish-Outcome out config s) shape
    where
      last :
          (p : Result PublishError (Unit {0}) × World S) (later : List Action)
          → Outcome (Complete out config) s p
          → p.1.actions ≡ later ++ announced a sent ∷ before
          → (later ≡ []) × Complete out config before a
      last p later (quiet g) e = absurd (
          no_event g.new later before a sent (Good-IsUpload p.0 g.new g.good)
            (sym (g.same ∙ ap (◌++◌ g.new) start ∙ append-nil g.new) ∙ e))
      last p [] (announces b sent' earlier same complete) e =
          let whole =
            sym (
              same
              ∙ ap (λ xs. announced b sent' ∷ earlier ++ xs) start
              ∙ append-nil (announced b sent' ∷ earlier))
            ∙ e in
          (refl, subst₂ (Complete out config) (ap tail whole) (ap (event_or b) whole) complete)
      last p (x ∷ later) (announces b sent' earlier same complete) e =
          let whole =
            sym (
              same
              ∙ ap (λ xs. announced b sent' ∷ earlier ++ xs) start
              ∙ append-nil (announced b sent' ∷ earlier))
            ∙ e in
          absurd (
            no_event earlier later before a sent
              (IsUpload-IsStored earlier complete.backed.stored_only) (ap tail whole))
