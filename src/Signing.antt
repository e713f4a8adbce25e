-- ===== src/Signing.antt =====
-- src/signing.rs: the Nix cache key. Ed25519 and Base64 are parameters.
pub mod Key
use narwal_publisher.Prelude.{
  ℕ, List, [], ◌∷◌, ◌++◌, Option, none, some, Bytes, Text, text, length, take, drop, Result, ok,
  err, ◌>>=◌, ◌==◌, if◌then◌else◌,
}
use narwal_publisher.Secrets.{FileSystem, SecretError, trim, deny_weak_permissions, read_to_string}
use narwal_publisher.Narinfo.{Signature}
use mathlib.Core.Option

pub data KeyError : Type 0 where
  unreadable_key : SecretError → KeyError
  no_colon : KeyError
  bad_base64 : KeyError
  bad_length : ℕ → KeyError

-- what the code calls of the crates ed25519_dalek and base64
pub record Crypto : Type 0 where
  pub verifying_key : Bytes → Bytes
  pub sign : Bytes → Bytes → Bytes
  pub base64_encode : Bytes → Text
  pub base64_decode : Text → Option Bytes

-- `secret` is the seed, `public` the key derived from it
pub record SigningKeyPair : Type 0 where
  pub keyname : Text
  pub secret : Bytes
  pub public : Bytes

-- `str::split_once(':')`
unfoldable pub split_colon : Text → Option (Text × Text)
split_colon [] = none
split_colon (c ∷ cs) =
    let rest = Option.map (λ (p : Text × Text). (c ∷ p.0, p.1)) (split_colon cs) in
    if c == b':' then some ([], cs) else rest

unfoldable pub or_key_error {ℓ} : {A : Type ℓ} → Option A → KeyError → Result KeyError A
or_key_error none e = err e
or_key_error (some a) e = ok a

unfoldable pub lift_secret {ℓ} : {A : Type ℓ} → Result SecretError A → Result KeyError A
lift_secret (ok a) = ok a
lift_secret (err e) = err (unreadable_key e)

module _ (crypto : Crypto) where
  -- the derived key is used, whatever bytes 32 to 64 hold
  unfoldable pub pair_of : Text → Bytes → Result KeyError SigningKeyPair
  pair_of keyname raw =
      if length raw == 64
      then ok (record {
        keyname = keyname;
        secret = take 32 raw;
        public = crypto.verifying_key (take 32 raw);
      })
      else err (bad_length (length raw))

  unfoldable pub from_secret_str : Text → Result KeyError SigningKeyPair
  unfolding split_colon or_key_error pair_of trim
  from_secret_str s = do
    parts ← or_key_error (split_colon s) no_colon
    raw ← or_key_error (crypto.base64_decode (trim parts.1)) bad_base64
    pair_of parts.0 raw

  unfoldable pub from_secret_file : FileSystem → Text → Result KeyError SigningKeyPair
  unfolding lift_secret deny_weak_permissions read_to_string from_secret_str
  from_secret_file fs path = do
    allowed ← lift_secret (deny_weak_permissions fs path)
    content ← lift_secret (read_to_string fs path)
    from_secret_str (trim content)

  unfoldable pub sign_fingerprint : SigningKeyPair → Bytes → Signature
  sign_fingerprint pair fingerprint = record {
    key_name = pair.keyname;
    encoded = crypto.base64_encode (crypto.sign pair.secret fingerprint);
  }

  unfoldable pub public_key_string : SigningKeyPair → Text
  public_key_string pair = pair.keyname ++ (text ":" ++ crypto.base64_encode pair.public)
