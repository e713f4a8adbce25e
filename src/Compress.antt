-- ===== src/Compress.antt =====
-- src/compress.rs, src/nar.rs: NARs and their compression. The encoders and SHA-256 are parameters.
use narwal_publisher.Prelude.{
  ℕ, ◌++◌, Option, none, some, Bytes, Text, text, length, Result, ok, err, ◌>>=◌,
}

-- `nix_narinfo::Compression`; the code names three of its values
pub data Compression : Type 0 where
  xz zstd uncompressed : Compression
  other_compression : Text → Compression

pub data CompressError : Type 0 where
  encoder_failed : CompressError
  unsupported : CompressError
  nar_failed : Text → CompressError

pub record CompressedNar : Type 0 where
  pub bytes : Bytes
  pub file_hash : Bytes
  pub file_size : ℕ

-- const XZ_LEVEL
abbrev pub xz_level : ℕ
xz_level = 6

abbrev pub or_fail {ℓ} : {A : Type ℓ} → Option A → CompressError → Result CompressError A
or_fail none e = err e
or_fail (some a) e = ok a

-- what the code calls of the crates xz2, zstd, sha2, nix_derivation and nix_archive
pub record Codecs : Type 0 where
  pub xz_encode : ℕ → Bytes → Option Bytes
  pub zstd_encode : ℕ → Bytes → Option Bytes
  pub sha256 : Bytes → Bytes
  pub nixbase32 : Bytes → Text
  pub hash_path : Text → Option (Bytes × ℕ)
  pub encode_path : Text → Option Bytes

unfoldable pub extension : Compression → Result CompressError Text
extension xz = ok (text "nar.xz")
extension zstd = ok (text "nar.zst")
extension uncompressed = ok (text "nar")
extension (other_compression name) = err unsupported

module _ (codecs : Codecs) where
  unfoldable pub encode : Bytes → Compression → Result CompressError Bytes
  encode nar_bytes xz = or_fail (codecs.xz_encode xz_level nar_bytes) encoder_failed
  encode nar_bytes zstd = or_fail (codecs.zstd_encode 6 nar_bytes) encoder_failed
  encode nar_bytes uncompressed = ok nar_bytes
  encode nar_bytes (other_compression name) = err unsupported

  unfoldable pub compress : Bytes → Compression → Result CompressError CompressedNar
  unfolding encode
  compress nar_bytes compression = do
    compressed ← encode nar_bytes compression
    ok (record {
      bytes = compressed;
      file_hash = codecs.sha256 compressed;
      file_size = length compressed;
    })

  -- format!("nar/{}.{}", encoded, ext)
  unfoldable pub nar_url : Bytes → Compression → Result CompressError Text
  unfolding extension
  nar_url file_hash compression = do
    ext ← extension compression
    ok (text "nar/" ++ (codecs.nixbase32 file_hash ++ (text "." ++ ext)))

pub record NarOutput : Type 0 where
  pub bytes : Bytes
  pub nar_hash : Bytes
  pub nar_size : ℕ

unfoldable pub encode_store_path : Codecs → Text → Result CompressError NarOutput
encode_store_path codecs path = do
  hashed ← or_fail (codecs.hash_path path) (nar_failed path)
  bytes ← or_fail (codecs.encode_path path) (nar_failed path)
  ok (record { bytes = bytes; nar_hash = hashed.0; nar_size = hashed.1 })
