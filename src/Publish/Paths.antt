-- ===== src/Publish/Paths.antt =====
-- src/lib.rs: steps 4a to 4e and 4g of `publish`: the blobs of one path and its entry in the tree.
use narwal_publisher.Prelude.{
  List, [], ◌∷◌, Option, none, some, Bytes, Text, text_eq, length, Result, ok, err, ◌>>=◌,
  if◌then◌else◌,
}
use narwal_publisher.StorePath.{split_first}
use narwal_publisher.Manifest.{DirEntry}
use narwal_publisher.Closure.{ClosureEntry}
use narwal_publisher.Compress.{CompressedNar, NarOutput, compress, nar_url, encode_store_path}
use narwal_publisher.Narinfo.{NarInfoOutput, Signature, build_narinfo}
use narwal_publisher.Signing.{SigningKeyPair, sign_fingerprint}
use narwal_publisher.Publish.{
  PublishError, hash_mismatch, compress_error, bad_basename, narinfo_error, map_err, or_err,
}
use narwal_publisher.Publish.Plan.{Outside, Prepared}

-- the blobs of a path, and the entry that its narinfo has in the tree
pub record Processed : Type 0 where
  pub nar : Bytes
  pub narinfo : Bytes
  pub entry : DirEntry

module _ (out : Outside) where
  -- the first path of the closure with this hash part, as a store path
  unfoldable pub reference_path : List ClosureEntry → Text → Option Text
  reference_path [] hp = none
  reference_path (e ∷ es) hp =
      let rest = reference_path es hp in
      elim (out.file_name e.path) [
        | none ↦ rest
        | some name ↦ if text_eq (split_first name) hp then out.from_basename name else rest
      ]

  unfoldable pub keep_some : Option Text → List Text → List Text
  keep_some none rest = rest
  keep_some (some path) rest = path ∷ rest

  -- `filter_map` over the references
  unfoldable pub reference_paths : List ClosureEntry → List Text → List Text
  unfolding reference_path keep_some
  reference_paths closure [] = []
  reference_paths closure (hp ∷ hps) =
      keep_some (reference_path closure hp) (reference_paths closure hps)

  -- `build_narinfo` with the fields of the run
  unfoldable pub narinfo_with :
      Prepared
      → ClosureEntry
      → Text
      → Text
      → CompressedNar
      → List Signature
      → Result PublishError NarInfoOutput
  unfolding reference_paths map_err
  narinfo_with run entry sp url compressed sigs = map_err narinfo_error (
      build_narinfo out.narinfo run.store_dir sp url entry.nar_hash entry.nar_size run.compression
        compressed.file_hash compressed.file_size (reference_paths run.closure entry.references)
        sigs)

  -- 4e: with a signing key, the fingerprint of the unsigned narinfo is signed
  unfoldable pub signatures :
      Prepared
      → ClosureEntry
      → Text
      → Text
      → CompressedNar
      → Option SigningKeyPair
      → Result PublishError (List Signature)
  unfolding narinfo_with
  signatures run entry sp url compressed none = ok []
  signatures run entry sp url compressed (some sk) =
      narinfo_with run entry sp url compressed [] >>= λ unsigned.
      ok (sign_fingerprint out.crypto sk unsigned.fingerprint ∷ [])

  -- the hash of the closure scan must be that of the encoding
  unfoldable pub check_hash : Text → ClosureEntry → NarOutput → Result PublishError (Unit {0})
  check_hash basename entry nar =
      if text_eq nar.nar_hash entry.nar_hash then ok tt else err (hash_mismatch basename)

  unfoldable pub process_path :
      Prepared → ClosureEntry → Text → Text → Result PublishError Processed
  unfolding check_hash signatures narinfo_with map_err or_err
  process_path run entry basename name = do
    nar ← map_err compress_error (encode_store_path out.codecs entry.path)
    hash_checked ← check_hash basename entry nar
    compressed ← map_err compress_error (compress out.codecs nar.bytes run.compression)
    url ← map_err compress_error (nar_url out.codecs compressed.file_hash run.compression)
    sp ← or_err (out.from_basename basename) (bad_basename basename)
    sigs ← signatures run entry sp url compressed run.signing_key
    narinfo ← narinfo_with run entry sp url compressed sigs
    ok (record {
      nar = compressed.bytes;
      narinfo = narinfo.bytes;
      entry = record {
        name = name;
        hash = out.codecs.sha256 narinfo.bytes;
        size = length narinfo.bytes;
      };
    })
