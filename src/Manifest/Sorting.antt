-- ===== src/Manifest/Sorting.antt =====
-- src/manifest.rs: `sorted.sort_by(|a, b| a.name.as_bytes().cmp(b.name.as_bytes()))`.
use mathlib.Core.Logic.{∥∥₁_elim}
use mathlib.Core.List.{Perm, Permᴰ}
use mathlib.Core.List.Perm
use mathlib.Core.HLevel.{hedberg}
use mathlib.Core.Path.{subst₂, ap₂}
use mathlib.Core.List
use native.Mathlib.Decide.{ℕ_discrete}
use narwal_publisher.Prelude.{
  ◌≡◌, ◌≢◌, refl, suc, length, ap, sym, subst, ◌∙◌, true, List, [], ◌∷◌, arith, All, Bool-cases,
  inl, inr,
}
use narwal_publisher.Prelude.ByteOrder.{bytes_le, bytes_le_total, bytes_le_trans, bytes_le_antisymm}
use narwal_publisher.Manifest.{DirEntry, insert_entry, sort_entries}

-- ascending by the bytes of the name
abbrev pub IsByName : List DirEntry → Type 0
IsByName [] = Unit
IsByName (e ∷ es) = All (λ d. bytes_le e.name d.name ≡ true) es × IsByName es

-- no name occurs twice
abbrev pub HasDistinctNames : List DirEntry → Type 0
HasDistinctNames [] = Unit
HasDistinctNames (e ∷ es) = All (λ d. e.name ≢ d.name) es × HasDistinctNames es

All-insert_entry {κ} :
    (P : DirEntry → Type κ) (e : DirEntry) (ds : List DirEntry)
    → P e
    → All P ds
    → All P (insert_entry e ds)
unfolding insert_entry
All-insert_entry P e [] pe h = (pe, tt)
All-insert_entry P e (d ∷ ds) pe h = elim (Bool-cases (bytes_le e.name d.name)) [
  | inl before ↦ rw before (pe, h)
  | inr after ↦ rw after (h.0, All-insert_entry P e ds pe h.1)
]

All-before :
    (e d : DirEntry) (ds : List DirEntry)
    → bytes_le e.name d.name ≡ true
    → All (λ x. bytes_le d.name x.name ≡ true) ds
    → All (λ x. bytes_le e.name x.name ≡ true) ds
All-before e d [] h k = tt
All-before e d (x ∷ ds) h k = (bytes_le_trans e.name d.name x.name h k.0, All-before e d ds h k.1)

insert_entry-IsByName :
    (e : DirEntry) (ds : List DirEntry) → IsByName ds → IsByName (insert_entry e ds)
unfolding insert_entry
insert_entry-IsByName e [] h = (tt, tt)
insert_entry-IsByName e (d ∷ ds) h = elim (Bool-cases (bytes_le e.name d.name)) [
  | inl before ↦ rw before ((before, All-before e d ds before h.0), h)
  | inr after ↦ rw after (
    All-insert_entry (λ x. bytes_le d.name x.name ≡ true) e ds (bytes_le_total e.name d.name after)
        h.0,
    insert_entry-IsByName e ds h.1,
  )
]

-- The entries come out in the order of their names' bytes.
pub sort_entries-IsByName : (es : List DirEntry) → IsByName (sort_entries es)
unfolding sort_entries
sort_entries-IsByName [] = tt
sort_entries-IsByName (e ∷ es) =
    insert_entry-IsByName e (sort_entries es) (sort_entries-IsByName es)

insert_entry-perm : (e : DirEntry) (ds : List DirEntry) → Perm (insert_entry e ds) (e ∷ ds)
unfolding insert_entry
insert_entry-perm e [] = Perm.refl (e ∷ [])
insert_entry-perm e (d ∷ ds) = elim (Bool-cases (bytes_le e.name d.name)) [
  | inl before ↦ rw before (Perm.refl (e ∷ d ∷ ds))
  | inr after ↦ rw after (Perm.trans (Perm.cons d (insert_entry-perm e ds)) (Perm.swap e d ds))
]

-- No entry is lost, none is added.
pub sort_entries-perm : (es : List DirEntry) → Perm (sort_entries es) es
unfolding sort_entries
sort_entries-perm [] = Perm.refl []
sort_entries-perm (e ∷ es) =
    Perm.trans (insert_entry-perm e (sort_entries es)) (Perm.cons e (sort_entries-perm es))

pub All-sort_entries {κ} :
    (P : DirEntry → Type κ) (es : List DirEntry) → All P es → All P (sort_entries es)
unfolding sort_entries
All-sort_entries P [] h = tt
All-sort_entries P (e ∷ es) h =
    All-insert_entry P e (sort_entries es) h.0 (All-sort_entries P es h.1)

All-of_insert_entry {κ} :
    (P : DirEntry → Type κ) (e : DirEntry) (ds : List DirEntry)
    → All P (insert_entry e ds)
    → P e × All P ds
unfolding insert_entry
All-of_insert_entry P e [] h = (h.0, tt)
All-of_insert_entry P e (d ∷ ds) h = elim (Bool-cases (bytes_le e.name d.name)) [
  | inl before ↦ rw before at h
  | inr after ↦
      let k = rw after at h in let rest = All-of_insert_entry P e ds k.1 in (rest.0, (k.0, rest.1))
]

pub All-of_sort_entries {κ} :
    (P : DirEntry → Type κ) (es : List DirEntry) → All P (sort_entries es) → All P es
unfolding sort_entries
All-of_sort_entries P [] h = tt
All-of_sort_entries P (e ∷ es) h =
    let k = All-of_insert_entry P e (sort_entries es) h in (k.0, All-of_sort_entries P es k.1)

-- Entries of different names may be inserted in either order.
insert_entry_comm :
    (a b : DirEntry) (ds : List DirEntry)
    → a.name ≢ b.name
    → insert_entry a (insert_entry b ds) ≡ insert_entry b (insert_entry a ds)
unfolding insert_entry
insert_entry_comm a b [] ne = ground (
  arith,
  bytes_le_total a.name b.name,
  bytes_le_total b.name a.name,
  bytes_le_antisymm a.name b.name,
)
insert_entry_comm a b (d ∷ ds) ne = ground (
  arith,
  bytes_le_total a.name b.name,
  bytes_le_antisymm a.name b.name,
  bytes_le_trans a.name b.name d.name,
  bytes_le_trans b.name a.name d.name,
  bytes_le_total a.name d.name,
  bytes_le_total b.name d.name,
  insert_entry_comm a b ds,
)

All-permᴰ {κ} : (P : DirEntry → Type κ) {xs ys : List DirEntry} → Permᴰ xs ys → All P xs → All P ys
All-permᴰ P Permᴰ.nil h = tt
All-permᴰ P (Permᴰ.cons e p) h = (subst P e h.0, All-permᴰ P p h.1)
All-permᴰ P (Permᴰ.swap e f) h = (subst P f h.1.0, (subst P e h.0, h.1.1))
All-permᴰ P (Permᴰ.trans p q) h = All-permᴰ P q (All-permᴰ P p h)

HasDistinctNames-permᴰ :
    {xs ys : List DirEntry} → Permᴰ xs ys → HasDistinctNames xs → HasDistinctNames ys
HasDistinctNames-permᴰ Permᴰ.nil h = tt
HasDistinctNames-permᴰ (Permᴰ.cons {l₂ = l} e p) h =
    (subst (λ x. All (λ d. x.name ≢ d.name) l) e (All-permᴰ _ p h.0), HasDistinctNames-permᴰ p h.1)
HasDistinctNames-permᴰ (Permᴰ.swap {l} e f) h =
    subst₂ (λ x y. HasDistinctNames (x ∷ y ∷ l)) f e
      ((λ same. h.0.0 (sym same), h.1.0), (h.0.1, h.1.1))
HasDistinctNames-permᴰ (Permᴰ.trans p q) h = HasDistinctNames-permᴰ q (HasDistinctNames-permᴰ p h)

sort_entries-permᴰ :
    {xs ys : List DirEntry} → Permᴰ xs ys → HasDistinctNames xs → sort_entries xs ≡ sort_entries ys
unfolding sort_entries
sort_entries-permᴰ Permᴰ.nil h = refl
sort_entries-permᴰ (Permᴰ.cons e p) h = ap₂ insert_entry e (sort_entries-permᴰ p h.1)
sort_entries-permᴰ (Permᴰ.swap {a} {b} {l} e f) h =
    insert_entry_comm a b (sort_entries l) h.0.0
    ∙ ap₂ (λ x y. insert_entry x (insert_entry y (sort_entries l))) f e
sort_entries-permᴰ (Permᴰ.trans p q) h =
    sort_entries-permᴰ p h ∙ sort_entries-permᴰ q (HasDistinctNames-permᴰ p h)

DirEntry-discrete : Discrete DirEntry
DirEntry-discrete = hlevel ℕ_discrete

entries_set : {xs ys : List DirEntry} → IsProp (xs ≡ ys)
entries_set {xs} {ys} = List.is_set (hedberg DirEntry-discrete) xs ys

-- With distinct names the order in which the entries come does not matter.
pub sort_entries_unique :
    (xs ys : List DirEntry) → Perm xs ys → HasDistinctNames xs → sort_entries xs ≡ sort_entries ys
sort_entries_unique xs ys p h = ∥∥₁_elim p entries_set (λ q. sort_entries-permᴰ q h)

length-insert_entry :
    (e : DirEntry) (ds : List DirEntry) → length (insert_entry e ds) ≡ suc (length ds)
unfolding insert_entry
length-insert_entry e [] = refl
length-insert_entry e (d ∷ ds) = ground (arith, length-insert_entry e ds)

pub length-sort_entries : (es : List DirEntry) → length (sort_entries es) ≡ length es
unfolding sort_entries
length-sort_entries [] = refl
length-sort_entries (e ∷ es) =
    length-insert_entry e (sort_entries es) ∙ ap suc (length-sort_entries es)
