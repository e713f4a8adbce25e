-- ===== src/Closure/Order/Gray.antt =====
-- src/closure.rs: the state of a depth-first visit, and the visits that emit nothing.
use narwal_publisher.Prelude.{
  ℕ, ◌<◌, ◌≡◌, ◌⊎◌, inl, inr, ap, sym, subst, List, [], ◌∷◌, none, Text, arith, Bool-cases,
}
use narwal_publisher.Prelude.Membership.{mem, Has, Lacks, get, mem-cons, Has-singleton}
use narwal_publisher.Closure.{Closure, Dfs}
use narwal_publisher.Closure.Order.{IsKey, Emits, IsDistinct, IsOrdered}

module _ (closure : Closure) (rank : Text → ℕ) where
  -- The state of the visit, where `gray` are the hash parts whose references are being visited and
  -- `done` are those whose entries were emitted.
  pub record Inv (gray done : List Text) (s : Dfs) : Type 0 where
    pub emits : Emits closure done s.1
    pub ordered : IsOrdered closure [] done
    pub distinct : IsDistinct done
    pub done_visited : (x : Text) → Has done x → Has s.0 x
    pub gray_visited : (x : Text) → Has gray x → Has s.0 x
    pub done_not_gray : (x : Text) → Has done x → Lacks gray x
    pub visited_done : (x : Text) → Has s.0 x → IsKey closure x → Has done x ⊎ Has gray x

  -- no hash part that is being visited depends on `hp`'s entry's rank or below
  abbrev pub Below : List Text → Text → Type 0
  Below gray hp = IsKey closure hp → (g : Text) → Has gray g → rank hp < rank g

  pub record After (gray : List Text) (hps : List Text) (s s' : Dfs) : Type 0 where
    pub done : List Text
    pub inv : Inv gray done s'
    pub reached : (x : Text) → Has hps x → Has s'.0 x
    pub grows : (x : Text) → Has s.0 x → Has s'.0 x

  -- a hash part without an entry is only marked
  pub absent-After :
      (gray done : List Text) (hp : Text) (s : Dfs)
      → get hp closure ≡ none
      → Inv gray done s
      → After gray (hp ∷ []) s (hp ∷ s.0, s.1)
  unfolding mem
  absent-After gray done hp s absent h = record {
    done = done;
    inv = record {
      emits = h.emits;
      ordered = h.ordered;
      distinct = h.distinct;
      done_visited = λ x d. (mem-cons x hp s.0).1 (inr (h.done_visited x d));
      gray_visited = λ x g. (mem-cons x hp s.0).1 (inr (h.gray_visited x g));
      done_not_gray = h.done_not_gray;
      visited_done = λ x v k. elim ((mem-cons x hp s.0).0 v) [
        | inl same ↦ absurd (no_key x same k)
        | inr old ↦ h.visited_done x old k
      ];
    };
    reached = λ x m. (mem-cons x hp s.0).1 (one_of x ((mem-cons x hp []).0 m));
    grows = λ x v. (mem-cons x hp s.0).1 (inr v);
  }
    where
      no_key : (x : Text) → x ≡ hp → ¬ IsKey closure x
      no_key x same (e, k) = cc (ap (λ y. get y closure) same)

      one_of : (x : Text) → (x ≡ hp) ⊎ Has [] x → (x ≡ hp) ⊎ Has s.0 x
      one_of x (inl same) = inl same
      one_of x (inr m) = cc

  -- the references of `hp` are visited with `hp` gray
  pub Inv-enter :
      (gray done : List Text) (hp : Text) (s : Dfs)
      → Lacks s.0 hp
      → Inv gray done s
      → Inv (hp ∷ gray) done (hp ∷ s.0, s.1)
  Inv-enter gray done hp s new h = record {
    emits = h.emits;
    ordered = h.ordered;
    distinct = h.distinct;
    done_visited = λ x d. (mem-cons x hp s.0).1 (inr (h.done_visited x d));
    gray_visited = λ x g. ground (arith, mem-cons x hp gray, mem-cons x hp s.0, h.gray_visited x);
    done_not_gray = λ x d. elim (Bool-cases (mem x (hp ∷ gray))) [
      | inl is_gray ↦ elim ((mem-cons x hp gray).0 is_gray) [
        | inl same ↦ cc (ap (λ y. mem y s.0) same, h.done_visited x d)
        | inr old ↦ cc (h.done_not_gray x d)
      ]
      | inr not_gray ↦ not_gray
    ];
    visited_done = λ x v k. elim ((mem-cons x hp s.0).0 v) [
      | inl same ↦ inr ((mem-cons x hp gray).1 (inl same))
      | inr old ↦ elim (h.visited_done x old k) [
        | inl d ↦ inl d
        | inr g ↦ inr ((mem-cons x hp gray).1 (inr g))
      ]
    ];
  }

  pub seen-After :
      (gray done : List Text) (hp : Text) (s : Dfs)
      → Has s.0 hp
      → Inv gray done s
      → After gray (hp ∷ []) s s
  seen-After gray done hp s seen h = record {
    done = done;
    inv = h;
    reached = λ x m. subst (Has s.0) (sym (Has-singleton x hp m)) seen;
    grows = λ x v. v;
  }
