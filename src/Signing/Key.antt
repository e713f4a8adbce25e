-- ===== src/Signing/Key.antt =====
-- src/signing.rs: a key file in Nix's format is loaded as the key that was written to it.
use narwal_publisher.Prelude.{
  ◌≡◌, ◌≢◌, refl, [], ◌∷◌, ◌++◌, some, Bytes, Text, length, take, ok, arith, All,
  take-append_length, length-append, subst,
}
use narwal_publisher.Secrets.{trim}
use narwal_publisher.Signing.{Crypto, split_colon, or_key_error, pair_of, from_secret_str}

split_colon-append :
    (name rest : Text)
    → All (λ c. c ≢ b':') name
    → split_colon (name ++ b':' ∷ rest) ≡ some (name, rest)
unfolding split_colon
split_colon-append [] rest h = refl
split_colon-append (c ∷ cs) rest h = ground (arith, split_colon-append cs rest h.1)

pair_of_whole :
    (crypto : Crypto) (name : Text) (seed embedded : Bytes)
    → length seed ≡ 32
    → length embedded ≡ 32
    → pair_of crypto name (seed ++ embedded)
      ≡ ok (record { keyname = name; secret = seed; public = crypto.verifying_key seed })
unfolding pair_of
pair_of_whole crypto name seed embedded size size' =
    let whole : take 32 (seed ++ embedded) ≡ seed =
      subst (λ n. take n (seed ++ embedded) ≡ seed) size (take-append_length seed embedded) in
    let total : length (seed ++ embedded) ≡ 64 = omega (arith, length-append seed embedded) in
    rw (total, whole) refl

-- The text `name:base64` of a 32-byte seed and 32 more bytes is loaded as that name, that seed and
-- the public key derived from the seed, whatever the 32 more bytes are, when the name has no colon
-- and Base64 decodes what it encodes, also after `trim`.
pub from_secret_str-written :
    (crypto : Crypto) (name : Text) (seed embedded : Bytes)
    → All (λ c. c ≢ b':') name
    → length seed ≡ 32
    → length embedded ≡ 32
    → crypto.base64_decode (trim (crypto.base64_encode (seed ++ embedded)))
      ≡ some (seed ++ embedded)
    → from_secret_str crypto (name ++ b':' ∷ crypto.base64_encode (seed ++ embedded))
      ≡ ok (record { keyname = name; secret = seed; public = crypto.verifying_key seed })
unfolding from_secret_str or_key_error
from_secret_str-written crypto name seed embedded no_colon size size' decodes =
    rw (split_colon-append name (crypto.base64_encode (seed ++ embedded)) no_colon, decodes)
      (pair_of_whole crypto name seed embedded size size')
