-- ===== src/Publish/Merge.antt =====
-- src/lib.rs: what the tree of a run holds: the entries of the cache and those of this run.
use narwal_publisher.Prelude.{
  ℕ, ◌+◌, ◌≤◌, ◌≡◌, refl, ap, ◌∙◌, List, [], ◌∷◌, ◌++◌, Option, none, some, Bytes, Text, text,
  text_eq, text_eq_iff, arith, if◌then◌else◌,
}
use narwal_publisher.Prelude.Membership.{get}
use narwal_publisher.Manifest.{DirEntry}
use narwal_publisher.Publish.{Entries, remove, put, put_all, values, final_entries}

pub get-remove :
    (j k : Text) (m : Entries) → get j (remove k m) ≡ (if text_eq j k then none else get j m)
unfolding get remove
get-remove j k [] = ground arith
get-remove j k ((i, e) ∷ m) =
    ground (arith, get-remove j k m, text_eq_iff j k, text_eq_iff j i, text_eq_iff k i)

get-put :
    (j k : Text) (e : DirEntry) (m : Entries)
    → get j (put k e m) ≡ (if text_eq j k then some e else get j m)
unfolding put get
get-put j k e m = ground (arith, get-remove j k m)

-- the last of the new entries of a name, and otherwise what the map had
abbrev pub find_new : Text → List DirEntry → Option DirEntry → Option DirEntry
find_new k [] old = old
find_new k (e ∷ es) old = find_new k es (if text_eq k e.name then some e else old)

-- Merging the entries of a run into those of the cache leaves under each name the last entry of the
-- run that has it, and under a name that the run does not have the entry of the cache.
pub get-put_all :
    (k : Text) (new : List DirEntry) (m : Entries)
    → get k (put_all new m) ≡ find_new k new (get k m)
unfolding put_all
get-put_all k [] m = refl
get-put_all k (e ∷ es) m =
    get-put_all k es (put e.name e m) ∙ ap (find_new k es) (get-put k e.name e m)

-- how many entries have the name
unfoldable pub count_name : Text → List DirEntry → ℕ
count_name k [] = 0
count_name k (e ∷ es) = (if text_eq k e.name then 1 else 0) + count_name k es

count_name-append :
    (k : Text) (xs ys : List DirEntry) → count_name k (xs ++ ys) ≡ count_name k xs + count_name k ys
unfolding count_name
count_name-append k [] ys = omega arith
count_name-append k (x ∷ xs) ys = omega (arith, count_name-append k xs ys)

-- each entry is kept under its own name
abbrev pub IsNamed : Entries → Type 0
IsNamed [] = Unit
IsNamed ((k, e) ∷ m) = (k ≡ e.name) × IsNamed m

count_name-get :
    (k : Text) (e : DirEntry) (m : Entries)
    → IsNamed m
    → get k m ≡ some e
    → 1 ≤ count_name k (values m)
unfolding count_name values get
count_name-get k e [] named h = cc
count_name-get k e ((j, f) ∷ m) named h =
    ground (arith, count_name-get k e m named.1, named.0, text_eq_iff k j, text_eq_iff k f.name)

-- where the map already has an entry for nix-cache-info, the entries of the tree have two of that name
pub cache_info_twice :
    (sha256 : Bytes → Bytes) (entries : Entries) (e : DirEntry)
    → IsNamed entries
    → get (text "nix-cache-info") entries ≡ some e
    → 2 ≤ count_name (text "nix-cache-info") (final_entries sha256 entries)
unfolding final_entries count_name text_eq
cache_info_twice sha256 entries e named h = omega (
  arith,
  count_name-get (text "nix-cache-info") e entries named h,
  count_name-append (text "nix-cache-info") (values entries) _,
)
