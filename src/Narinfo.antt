-- ===== src/Narinfo.antt =====
-- src/narinfo.rs: the fields that a narinfo is built from. The crate `nix_narinfo` is a parameter.
use narwal_publisher.Prelude.{
  ℕ, List, [], ◌∷◌, ◌++◌, Option, none, some, Bytes, Text, Result, ok, err,
}
use narwal_publisher.Compress.{Compression}

pub record Signature : Type 0 where
  pub key_name : Text
  pub encoded : Text

-- the state of a `NarInfoBuilder`; a hash is SHA-256, and the optional fields are unset at first
pub record Builder : Type 0 where
  pub store_dir : Text
  pub store_path : Text
  pub url : Text
  pub nar_hash : Bytes
  pub nar_size : ℕ
  pub compression : Option Compression
  pub file_hash : Option Bytes
  pub file_size : Option ℕ
  pub references : Option (List Text)
  pub signatures : List Signature

pub record NarInfoOutput : Type 0 where
  pub bytes : Bytes
  pub fingerprint : Text

-- `build`, `fingerprint` and `to_canonical_bytes` of the crate
pub record NarInfoCrate : Type 0 where
  pub build : Builder → Option Builder
  pub fingerprint_of : Builder → Text
  pub to_canonical_bytes : Builder → Bytes

pub data NarInfoError : Type 0 where
  build_failed : NarInfoError

-- `NarInfoBuilder::new_in`
unfoldable pub new_in : Text → Text → Text → Bytes → ℕ → Builder
new_in store_dir store_path url nar_hash nar_size = record {
  store_dir = store_dir;
  store_path = store_path;
  url = url;
  nar_hash = nar_hash;
  nar_size = nar_size;
  compression = none;
  file_hash = none;
  file_size = none;
  references = none;
  signatures = [];
}

-- references are set only where there are some
unfoldable pub with_references : List Text → Builder → Builder
with_references [] builder = builder
with_references (r ∷ rs) builder = record builder { references = some (r ∷ rs) }

-- `for sig in signatures`
unfoldable pub with_signatures : List Signature → Builder → Builder
with_signatures [] builder = builder
with_signatures (sig ∷ sigs) builder =
    with_signatures sigs (record builder { signatures = builder.signatures ++ sig ∷ [] })

unfoldable pub finish : NarInfoCrate → Option Builder → Result NarInfoError NarInfoOutput
finish crate none = err build_failed
finish crate (some info) =
    ok (record { bytes = crate.to_canonical_bytes info; fingerprint = crate.fingerprint_of info })

unfoldable pub build_narinfo :
    NarInfoCrate
    → Text
    → Text
    → Text
    → Bytes
    → ℕ
    → Compression
    → Bytes
    → ℕ
    → List Text
    → List Signature
    → Result NarInfoError NarInfoOutput
unfolding new_in with_references with_signatures finish
build_narinfo crate store_dir store_path url nar_hash nar_size compression file_hash file_size
      references signatures =
    let builder = record (new_in store_dir store_path url nar_hash nar_size) {
      compression = some compression;
      file_hash = some file_hash;
      file_size = some file_size;
    } in
    finish crate (crate.build (with_signatures signatures (with_references references builder)))
