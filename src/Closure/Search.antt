-- ===== src/Closure/Search.antt =====
-- src/closure.rs: the worklist search finds exactly the paths that references lead to.
use narwal_publisher.Prelude.{
  ℕ, zero, suc, ◌≡◌, ◌↔◌, ◌⊎◌, inl, inr, ap, sym, ◌∙◌, List, [], some, Text, Result, ok, arith,
  Bool-cases, subst, ok-injective, ◌>>=◌,
}
use narwal_publisher.Prelude.Membership.{mem, Has, get}
use narwal_publisher.Closure.{ClosureEntry, ClosureError, Closure, Bfs, bfs}
use narwal_publisher.Closure.Graph.{Reach, root, step}
use narwal_publisher.Closure.Steps.{
  List-cases, Result-cases, bfs_empty, bfs_zero, bfs_old, bfs_new, expanded, expand_ok, expand_err,
}
use narwal_publisher.Closure.SearchInv.{Inv, Inv-pop, Inv-expand}

module _ (scan : Text → Result ClosureError ClosureEntry) (roots : List Text) where
  seen_only :
      (s : Bfs)
      → s.worklist ≡ []
      → (x : Text) → Has s.visited x ⊎ Has s.worklist x
      → Has s.visited x
  unfolding mem
  seen_only s empty x seen = ground (arith, ap (mem x) empty)

  -- what holds of the state of a finished search
  Found : Closure → Type 0
  Found closure = (s : Bfs) × (s.closure ≡ closure) × (s.worklist ≡ []) × Inv scan roots s

  bfs_rule :
      (fuel : ℕ) (s : Bfs) (closure : Closure)
      → Inv scan roots s
      → bfs scan fuel s ≡ ok closure
      → Found closure
  unfolding Found
  bfs_rule zero s closure h done = elim (List-cases s.worklist) [
    | inl empty ↦ (s, ok-injective (sym (bfs_empty scan 0 s empty) ∙ done), empty, h)
    | inr (hp, rest, top) ↦ cc (bfs_zero scan s hp rest top)
  ]
  bfs_rule (suc fuel) s closure h done = elim (List-cases s.worklist) [
    | inl empty ↦ (s, ok-injective (sym (bfs_empty scan (suc fuel) s empty) ∙ done), empty, h)
    | inr (hp, rest, top) ↦ elim (Bool-cases (mem hp s.visited)) [
      | inl old ↦
          bfs_rule fuel (record s { worklist = rest }) closure
            (Inv-pop scan roots s hp rest top old h)
            (sym (bfs_old scan s hp rest top fuel old) ∙ done)
      | inr new ↦ elim (Result-cases (scan hp)) [
        | inl (entry, scans) ↦
            bfs_rule fuel (expanded scan s hp rest entry) closure
              (Inv-expand scan roots s hp rest entry top new scans h)
              (sym (
                  bfs_new scan s hp rest top fuel new
                  ∙ ap (λ r. r >>= bfs scan fuel) (expand_ok scan s hp rest entry scans))
                ∙ done)
        | inr (e, fails) ↦ cc (
            bfs_new scan s hp rest top fuel new
            ∙ ap (λ r. r >>= bfs scan fuel) (expand_err scan s hp rest e fails))
      ]
    ]
  ]

  reached_visited :
      (s : Bfs)
      → s.worklist ≡ []
      → Inv scan roots s
      → {x : Text} → Reach scan roots x
      → Has s.visited x
  reached_visited s empty h (root {x} r) = seen_only s empty x (h.started x r)
  reached_visited s empty h (step {x} u e p k m) =
      seen_only s empty x (h.closed u x e (reached_visited s empty h p) k m)

  Inv-start :
      (worklist : List Text)
      → ((x : Text) → Has worklist x ↔ Has roots x)
      → Inv scan roots (record { closure = []; worklist = worklist; visited = [] })
  unfolding mem get
  Inv-start worklist same = record {
    entered = λ x e. ((λ h. cc), (λ h. cc (h.0)));
    scanned = λ x v. cc;
    seen_reached = λ x v. cc;
    queued_reached = λ x q. root ((same x).0 q);
    started = λ x r. inr ((same x).1 r);
    closed = λ u x e v k m. cc;
  }

  -- A finished search from the roots has an entry under a hash part exactly when references lead
  -- to it, and the entry is the one that its scan gave.
  pub bfs_correct :
      (fuel : ℕ) (worklist : List Text) (closure : Closure) (x : Text)
      → ((x : Text) → Has worklist x ↔ Has roots x)
      → bfs scan fuel (record { closure = []; worklist = worklist; visited = [] }) ≡ ok closure
      → Reach scan roots x ↔ ((e : ClosureEntry) × (get x closure ≡ some e) × (scan x ≡ ok e))
  unfolding Found
  bfs_correct fuel worklist closure x same done =
      let (s, final, empty, h) =
        bfs_rule fuel (record { closure = []; worklist = worklist; visited = [] }) closure
          (Inv-start worklist same) done in
      (
        λ r.
            let v = reached_visited s empty h r in
            let (e, k) = h.scanned x v in
            (e, subst (λ (c : Closure). get x c ≡ some e) final ((h.entered x e).1 (v, k)), k),
        λ (e, found, k). h.seen_reached x ((h.entered x e).0 (rw final found)).0,
      )

  -- an entry of a finished search is what its scan gave, and references lead to it
  pub bfs_entry :
      (fuel : ℕ) (worklist : List Text) (closure : Closure) (x : Text) (e : ClosureEntry)
      → ((x : Text) → Has worklist x ↔ Has roots x)
      → bfs scan fuel (record { closure = []; worklist = worklist; visited = [] }) ≡ ok closure
      → get x closure ≡ some e
      → (scan x ≡ ok e) × Reach scan roots x
  unfolding Found
  bfs_entry fuel worklist closure x e same done found =
      let (s, final, empty, h) =
        bfs_rule fuel (record { closure = []; worklist = worklist; visited = [] }) closure
          (Inv-start worklist same) done in
      let (v, k) = (h.entered x e).0 (rw final found) in (k, h.seen_reached x v)
