-- ===== src/Publish/Sized.antt =====
-- src/lib.rs: every entry of a run has a hash of 32 bytes, where SHA-256 gives such.
use narwal_publisher.Prelude.{ap, refl, ◌∙◌}
use narwal_publisher.Prelude.{
  ◌≡◌, sym, subst, List, [], ◌∷◌, Option, none, some, Bytes, Text, ok, All, All-append, length,
  ok-injective, >>=-eq-ok, Bool-cases, inl, inr, text_eq,
}
use mathlib.Core.Option.{some-injective}
use narwal_publisher.Prelude.Membership.{get}
use narwal_publisher.StorePath.{hash_part}
use narwal_publisher.Manifest.{DirEntry}
use narwal_publisher.Nhash.{parse_nhash_uri}
use narwal_publisher.BlossomFetch.{fetch}
use narwal_publisher.TreeReader.{flatten_tree}
use narwal_publisher.TreeReader.Sized.{IsSized, flatten_tree-IsSized}
use narwal_publisher.Closure.{ClosureEntry}
use narwal_publisher.Compress.{encode_store_path, compress, nar_url}
use narwal_publisher.Nostr.{RootEvent}
use narwal_publisher.Publish.{
  PublishConfig, Entries, put, put_all, remove, values, final_entries, map_err, or_err,
  narinfo_name, nhash_error, tree_error, compress_error, bad_basename,
}
use narwal_publisher.Publish.Plan.{Outside, Prepared, existing_entries, check_and_prepare}
use narwal_publisher.Publish.Paths.{Processed, process_path, check_hash, signatures, narinfo_with}
use narwal_publisher.Publish.Steps.{Action}
use narwal_publisher.Publish.Produced.{Entry, kept, made, Produced}
use narwal_publisher.Publish.Outcome.{map_err-eq-ok}
use narwal_publisher.Publish.Existing.{prepared_existing}

abbrev pub AreSized : Entries → Type 0
AreSized = All (λ p. IsSized p.1)

remove-AreSized : (k : Text) (m : Entries) → AreSized m → AreSized (remove k m)
unfolding remove
remove-AreSized k [] h = tt
remove-AreSized k ((j, e) ∷ m) h = elim (Bool-cases (text_eq k j)) [
  | inl same ↦ rw same (remove-AreSized k m h.1)
  | inr other ↦ rw other (h.0, remove-AreSized k m h.1)
]

pub put_all-AreSized :
    (es : List DirEntry) (m : Entries) → All IsSized es → AreSized m → AreSized (put_all es m)
unfolding put_all put
put_all-AreSized [] m h k = k
put_all-AreSized (e ∷ es) m h k =
    put_all-AreSized es (put e.name e m) h.1 (h.0, remove-AreSized e.name m k)

values-IsSized : (m : Entries) → AreSized m → All IsSized (values m)
unfolding values
values-IsSized [] h = tt
values-IsSized (p ∷ m) h = (h.0, values-IsSized m h.1)

pub final_entries-IsSized :
    (sha256 : Bytes → Bytes) (m : Entries)
    → ((bytes : Bytes) → length (sha256 bytes) ≡ 32)
    → AreSized m
    → All IsSized (final_entries sha256 m)
unfolding final_entries
final_entries-IsSized sha256 m size h =
    All-append IsSized (values m) _ (values-IsSized m h) (size _, tt)

get-IsSized : (k : Text) (e : DirEntry) (m : Entries) → AreSized m → get k m ≡ some e → IsSized e
unfolding get
get-IsSized k e [] h found = cc
get-IsSized k e ((j, f) ∷ m) h found = elim (Bool-cases (text_eq k j)) [
  | inl same ↦ subst IsSized (some-injective f e (rw same at found)) h.0
  | inr other ↦ get-IsSized k e m h.1 (rw other at found)
]

module _ (out : Outside) where
  pub process_path_entry :
      (run : Prepared) (path : ClosureEntry) (basename name : Text) (p : Processed)
      → process_path out run path basename name ≡ ok p
      → (p.entry.name ≡ name) × (p.entry.hash ≡ out.codecs.sha256 p.narinfo)
  unfolding process_path
  process_path_entry run path basename name p h =
      let (nar, _, a) =
        >>=-eq-ok (map_err compress_error (encode_store_path out.codecs path.path)) _ h in
      let (_, _, b) = >>=-eq-ok (check_hash out basename path nar) _ a in
      let (compressed, _, c) =
        >>=-eq-ok (map_err compress_error (compress out.codecs nar.bytes run.compression)) _ b in
      let (url, _, d) =
        >>=-eq-ok (map_err compress_error (nar_url out.codecs compressed.file_hash run.compression))
          _ c in
      let (sp, _, e) =
        >>=-eq-ok (or_err (out.from_basename basename) (bad_basename basename)) _ d in
      let (sigs, _, f) =
        >>=-eq-ok (signatures out run path sp url compressed run.signing_key) _ e in
      let (narinfo, _, g) = >>=-eq-ok (narinfo_with out run path sp url compressed sigs) _ f in
      subst
        (λ (x : Processed). (x.entry.name ≡ name) × (x.entry.hash ≡ out.codecs.sha256 x.narinfo))
        (ok-injective g) (refl, refl)

module _ (out : Outside) (size : (bytes : Bytes) → length (out.codecs.sha256 bytes) ≡ 32) where
  pub existing_entries-AreSized :
      (servers : List Text) (root : Option RootEvent) (m : Entries)
      → existing_entries out servers root ≡ ok m
      → AreSized m
  unfolding existing_entries
  existing_entries-AreSized servers none m h = subst AreSized (ok-injective h) tt
  existing_entries-AreSized servers (some root) m h =
      let (root_hash, parsed, e) =
        >>=-eq-ok (map_err nhash_error (parse_nhash_uri out.bech32 root.htree_uri)) _ h in
      let (entries, read, f) =
        >>=-eq-ok
          (map_err tree_error (
            flatten_tree out.from_slice out.hex
              (fetch out.http_get out.codecs.sha256 out.hex servers) out.tree_depth root_hash))
          _ e in
      subst AreSized (ok-injective f) (
        put_all-AreSized entries []
          (flatten_tree-IsSized out.from_slice out.hex
            (fetch out.http_get out.codecs.sha256 out.hex servers) out.tree_depth root_hash entries
            (map_err-eq-ok tree_error _ entries read))
          tt)

  entry-IsSized :
      (run : Prepared) (actions : List Action) (path : ClosureEntry) (e : DirEntry)
      → AreSized run.existing
      → Entry out run actions path e
      → IsSized e
  entry-IsSized run actions path e h (kept basename named found) =
      get-IsSized (narinfo_name (hash_part basename)) e run.existing h found
  entry-IsSized run actions path e h (made basename named absent x) = subst IsSized (sym x.entry) (
      ap length
        (process_path_entry out run path basename (narinfo_name (hash_part basename)) x.processed
          x.runs).1
      ∙ size x.processed.narinfo)

  pub entries-IsSized :
      (run : Prepared) (actions : List Action) (paths : List ClosureEntry) (es : List DirEntry)
      → AreSized run.existing
      → Produced out run actions paths es
      → All IsSized es
  entries-IsSized run actions [] [] h made_all = tt
  entries-IsSized run actions [] (e ∷ es) h made_all = absurd made_all
  entries-IsSized run actions (path ∷ paths) [] h made_all = absurd made_all
  entries-IsSized run actions (path ∷ paths) (e ∷ es) h made_all = (
    entry-IsSized run actions path e h made_all.0,
    entries-IsSized run actions paths es h made_all.1,
  )

  pub prepared-AreSized :
      (config : PublishConfig) (run : Prepared)
      → check_and_prepare out config ≡ ok run
      → AreSized run.existing
  prepared-AreSized config run prepared =
      let (servers, root, read) = prepared_existing out config run prepared in
      existing_entries-AreSized servers root run.existing read
