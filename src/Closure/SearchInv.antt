-- ===== src/Closure/SearchInv.antt =====
-- src/closure.rs: what holds of the state of the worklist search in every round.
use narwal_publisher.Prelude.{
  ◌≡◌, ◌↔◌, ◌⊎◌, inl, inr, refl, ap, sym, ◌∙◌, List, ◌∷◌, some, Text, text_eq, text_eq_iff, Result,
  ok, arith, Bool-cases, subst, ok-injective,
}
use narwal_publisher.Prelude.Membership.{mem, Has, Lacks, get, get-insert, mem-cons}
use narwal_publisher.Closure.{ClosureEntry, ClosureError, Bfs, push_unvisited}
use narwal_publisher.Closure.Graph.{Reach, step}
use narwal_publisher.Closure.Steps.{expanded, Has-push_unvisited}

module _ (scan : Text → Result ClosureError ClosureEntry) (roots : List Text) where
  pub record Inv (s : Bfs) : Type 0 where
    pub entered :
        (x : Text) (e : ClosureEntry)
        → (get x s.closure ≡ some e) ↔ (Has s.visited x × (scan x ≡ ok e))
    pub scanned : (x : Text) → Has s.visited x → (e : ClosureEntry) × (scan x ≡ ok e)
    pub seen_reached : (x : Text) → Has s.visited x → Reach scan roots x
    pub queued_reached : (x : Text) → Has s.worklist x → Reach scan roots x
    pub started : (x : Text) → Has roots x → Has s.visited x ⊎ Has s.worklist x
    pub closed :
        (u x : Text) (e : ClosureEntry)
        → Has s.visited u
        → scan u ≡ ok e
        → Has e.references x
        → Has s.visited x ⊎ Has s.worklist x

  -- a hash part that was visited before is dropped
  pub Inv-pop :
      (s : Bfs) (hp : Text) (rest : List Text)
      → s.worklist ≡ hp ∷ rest
      → Has s.visited hp
      → Inv s
      → Inv (record s { worklist = rest })
  Inv-pop s hp rest top old h = record {
    entered = h.entered;
    scanned = h.scanned;
    seen_reached = h.seen_reached;
    queued_reached = λ x q. h.queued_reached x (rw top ((mem-cons x hp rest).1 (inr q)));
    started = λ x r. drop_top x (h.started x r);
    closed = λ u x e v k m. drop_top x (h.closed u x e v k m);
  }
    where
      drop_top : (x : Text) → Has s.visited x ⊎ Has s.worklist x → Has s.visited x ⊎ Has rest x
      drop_top x seen = ground (arith, mem-cons x hp rest, ap (mem x) top)

  -- a new hash part is visited and its references are pushed
  pub Inv-expand :
      (s : Bfs) (hp : Text) (rest : List Text) (entry : ClosureEntry)
      → s.worklist ≡ hp ∷ rest
      → Lacks s.visited hp
      → scan hp ≡ ok entry
      → Inv s
      → Inv (expanded scan s hp rest entry)
  Inv-expand s hp rest entry top new scans h = record {
    entered = λ x e. elim (Bool-cases (text_eq x hp)) [
      | inl same ↦ ground (
        arith,
        get-insert hp x entry s.closure,
        mem-cons x hp s.visited,
        text_eq_iff x hp,
        ap scan ((text_eq_iff x hp).0 same),
      )
      | inr other ↦ ground (
        arith,
        get-insert hp x entry s.closure,
        mem-cons x hp s.visited,
        text_eq_iff x hp,
        h.entered x e,
      )
    ];
    scanned = λ x v. elim (mem-cons' x v) [
      | inl same ↦ (entry, ap scan same ∙ scans)
      | inr old ↦ h.scanned x old
    ];
    seen_reached = λ x v. elim (mem-cons' x v) [
      | inl same ↦ subst (Reach scan roots) (sym same) (h.queued_reached hp on_top)
      | inr old ↦ h.seen_reached x old
    ];
    queued_reached = λ x q.
        elim ((Has-push_unvisited (hp ∷ s.visited) entry.references rest x).0 q) [
          | inl old ↦ h.queued_reached x (rw top ((mem-cons x hp rest).1 (inr old)))
          | inr (m, _) ↦ step hp entry (h.queued_reached hp on_top) scans m
        ];
    started = λ x r. keep x (h.started x r);
    closed = λ u x e v k m. elim (mem-cons' u v) [
      | inl same ↦ pushed x (
          subst (λ (d : ClosureEntry). Has d.references x)
            (ok-injective (sym k ∙ ap scan same ∙ scans)) m)
      | inr old ↦ keep x (h.closed u x e old k m)
    ];
  }
    where
      mem-cons' : (x : Text) → Has (hp ∷ s.visited) x → (x ≡ hp) ⊎ Has s.visited x
      mem-cons' x v = (mem-cons x hp s.visited).0 v

      on_top : Has s.worklist hp
      on_top = rw top ((mem-cons hp hp rest).1 (inl refl))

      keep :
          (x : Text)
          → Has s.visited x ⊎ Has s.worklist x
          → Has (hp ∷ s.visited) x ⊎ Has (push_unvisited (hp ∷ s.visited) entry.references rest) x
      keep x seen = ground (
        arith,
        mem-cons x hp rest,
        ap (mem x) top,
        mem-cons x hp s.visited,
        Has-push_unvisited (hp ∷ s.visited) entry.references rest x,
      )

      pushed :
          (x : Text)
          → Has entry.references x
          → Has (hp ∷ s.visited) x ⊎ Has (push_unvisited (hp ∷ s.visited) entry.references rest) x
      pushed x m = elim (Bool-cases (mem x (hp ∷ s.visited))) [
        | inl seen ↦ inl seen
        | inr unseen ↦
            inr ((Has-push_unvisited (hp ∷ s.visited) entry.references rest x).1 (inr (m, unseen)))
      ]
