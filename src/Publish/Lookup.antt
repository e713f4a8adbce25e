-- ===== src/Publish/Lookup.antt =====
-- src/lib.rs: a map that is written out in any order and inserted again answers as before.
use narwal_publisher.Prelude.{All-append_right}
use narwal_publisher.Prelude.{
  ◌≡◌, ◌⊎◌, inl, inr, refl, sym, ap, ◌∙◌, List, [], ◌∷◌, ◌++◌, true, false, Option, none, some,
  Text, text_eq, text_eq_iff, All, All-append, All-append_left, arith, Bool-cases, Option-cases,
  if◌then◌else◌,
}
use narwal_publisher.Prelude.Membership.{get}
use narwal_publisher.Manifest.{DirEntry, sort_entries}
use narwal_publisher.Manifest.Sorting.{All-sort_entries, All-of_sort_entries}
use narwal_publisher.Publish.{Entries, put_all, values}
use narwal_publisher.Publish.Merge.{find_new, get-put_all}
use narwal_publisher.Publish.Existing.{IsMap}

pub find_new-some :
    (k : Text) (es : List DirEntry) (x : DirEntry)
    → (e : DirEntry) × (find_new k es (some x) ≡ some e)
find_new-some k [] x = (x, refl)
find_new-some k (e ∷ es) x = elim (Bool-cases (text_eq k e.name)) [
  | inl same ↦ rw same (find_new-some k es e)
  | inr other ↦ rw other (find_new-some k es x)
]

-- all entries of the name are the one that is given
abbrev Agrees : Text → Option DirEntry → List DirEntry → Type 0
Agrees k o = All (λ x. text_eq k x.name ≡ true → some x ≡ o)

-- no entry has the name
abbrev Misses : Text → List DirEntry → Type 0
Misses k = All (λ x. text_eq k x.name ≡ false)

-- all entries have other names, or the last of the name is the one that is given
find_new-keeps :
    (k : Text) (o old : Option DirEntry) (es : List DirEntry)
    → Agrees k o es
    → old ≡ o
    → find_new k es old ≡ o
find_new-keeps k o old [] h same = same
find_new-keeps k o old (e ∷ es) h same = elim (Bool-cases (text_eq k e.name)) [
  | inl named ↦ rw named (find_new-keeps k o (some e) es h.1 (h.0 named))
  | inr other ↦ rw other (find_new-keeps k o old es h.1 same)
]

find_new-Agrees :
    (k : Text) (o : Option DirEntry) (es : List DirEntry)
    → Agrees k o es
    → (find_new k es none ≡ o) ⊎ Misses k es
find_new-Agrees k o [] h = inr tt
find_new-Agrees k o (e ∷ es) h = elim (Bool-cases (text_eq k e.name)) [
  | inl named ↦ inl (rw named (find_new-keeps k o (some e) es h.1 (h.0 named)))
  | inr other ↦ elim (find_new-Agrees k o es h.1) [
    | inl found ↦ inl (rw other found)
    | inr missed ↦ inr (other, missed)
  ]
]

find_new-Misses : (k : Text) (es : List DirEntry) → Misses k es → find_new k es none ≡ none
find_new-Misses k [] h = refl
find_new-Misses k (e ∷ es) h = rw h.0 (find_new-Misses k es h.1)

Agrees-Misses : (k : Text) (o : Option DirEntry) (es : List DirEntry) → Misses k es → Agrees k o es
Agrees-Misses k o [] h = tt
Agrees-Misses k o (e ∷ es) h = ((λ named. cc (named, h.0)), Agrees-Misses k o es h.1)

-- an entry in front, under a name that no other has
Agrees-cons :
    (k j : Text) (f : DirEntry) (m : Entries) (es : List DirEntry)
    → get j m ≡ none
    → Agrees k (get k m) es
    → Agrees k (if text_eq k j then some f else get k m) es
Agrees-cons k j f m [] absent h = tt
Agrees-cons k j f m (e ∷ es) absent h = (
  (λ named. elim (Bool-cases (text_eq k j)) [
    | inl same ↦ absurd (cc (h.0 named, absent, ap (λ x. get x m) ((text_eq_iff k j).0 same)))
    | inr other ↦ rw other (h.0 named)
  ]),
  Agrees-cons k j f m es absent h.1,
)

values-Agrees : (k : Text) (m : Entries) → IsMap m → Agrees k (get k m) (values m)
unfolding values get
values-Agrees k [] h = tt
values-Agrees k ((j, e) ∷ m) h = (
  (λ named. ground (arith, h.0, text_eq_iff k j, text_eq_iff k e.name)),
  Agrees-cons k j e m (values m) h.1 (values-Agrees k m h.2),
)

values-found :
    (k : Text) (m : Entries) (e : DirEntry) → IsMap m → get k m ≡ some e → Misses k (values m) → ⊥
unfolding values get
values-found k [] e h found missed = cc
values-found k ((j, f) ∷ m) e h found missed = elim (Bool-cases (text_eq k j)) [
  | inl same ↦ cc (missed.0, same, h.0)
  | inr other ↦ values-found k m e h.2 (rw other at found) missed.1
]

-- what is under a name that the last entry does not have
pub get-put_all-sort_entries :
    (k : Text) (m : Entries) (more : List DirEntry)
    → IsMap m
    → Misses k more
    → get k (put_all (sort_entries (values m ++ more)) []) ≡ get k m
unfolding get
get-put_all-sort_entries k m more h other =
    get-put_all k (sort_entries (values m ++ more)) []
    ∙ elim (find_new-Agrees k (get k m) (sort_entries (values m ++ more)) (
        All-sort_entries _ (values m ++ more) (
          All-append _ (values m) more (values-Agrees k m h)
            (Agrees-Misses k (get k m) more other)))) [
              | inl found ↦ found
              | inr missed ↦ elim (Option-cases (get k m)) [
                | inl absent ↦
                    find_new-Misses k (sort_entries (values m ++ more)) missed ∙ sym absent
                | inr (e, found) ↦ absurd (
                    values-found k m e h found (
                      All-append_left _ (values m) more
                        (All-of_sort_entries _ (values m ++ more) missed)))
              ]
            ]

find_new_or-Misses :
    (k : Text) (es : List DirEntry) → ((x : DirEntry) × (find_new k es none ≡ some x)) ⊎ Misses k es
find_new_or-Misses k [] = inr tt
find_new_or-Misses k (e ∷ es) = elim (Bool-cases (text_eq k e.name)) [
  | inl named ↦ inl (rw named (find_new-some k es e))
  | inr other ↦ elim (find_new_or-Misses k es) [
    | inl found ↦ inl (rw other found)
    | inr missed ↦ inr (other, missed)
  ]
]

-- a name that the last entry has is found
pub get-put_all-last :
    (es : List DirEntry) (e : DirEntry)
    → (x : DirEntry) × (get e.name (put_all (sort_entries (es ++ e ∷ [])) []) ≡ some x)
unfolding get
get-put_all-last es e = elim (find_new_or-Misses e.name (sort_entries (es ++ e ∷ []))) [
  | inl (x, found) ↦ (x, get-put_all e.name (sort_entries (es ++ e ∷ [])) [] ∙ found)
  | inr missed ↦
      let last = All-append_right _ es (e ∷ []) (All-of_sort_entries _ (es ++ e ∷ []) missed) in
      absurd (cc (last.0, (text_eq_iff e.name e.name).1 refl))
]
