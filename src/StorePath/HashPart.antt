-- ===== src/StorePath/HashPart.antt =====
-- src/store_path.rs, src/closure.rs: the two ways to cut a name at its first dash agree.
use narwal_publisher.Prelude.{◌≡◌, ◌≢◌, refl, ◌∙◌, sym, [], ◌∷◌, ◌++◌, Text, arith, All}
use narwal_publisher.StorePath.{hash_part, split_first}

-- `split('-').next()` of src/closure.rs and `hash_part` of src/store_path.rs give the same text.
pub split_first-eq-hash_part : (name : Text) → split_first name ≡ hash_part name
unfolding split_first hash_part
split_first-eq-hash_part [] = refl
split_first-eq-hash_part (c ∷ cs) = ground (arith, split_first-eq-hash_part cs)

split_first-append :
    (hash rest : Text) → All (λ c. c ≢ b'-') hash → split_first (hash ++ b'-' ∷ rest) ≡ hash
unfolding split_first
split_first-append [] rest no_dash = refl
split_first-append (c ∷ cs) rest no_dash = ground (arith, split_first-append cs rest)

-- The hash part of a name `prefix-suffix` is the prefix, when that has no dash.
pub hash_part-append :
    (hash rest : Text) → All (λ c. c ≢ b'-') hash → hash_part (hash ++ b'-' ∷ rest) ≡ hash
hash_part-append hash rest no_dash =
    sym (split_first-eq-hash_part (hash ++ b'-' ∷ rest)) ∙ split_first-append hash rest no_dash
