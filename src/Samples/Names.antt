-- ===== src/Samples/Names.antt =====
-- Samples for src/nhash.rs, `parse_nhash_uri` and src/store_path.rs.
use narwal_publisher.Prelude.{
  ◌≡◌, ◌≢◌, ◌↔◌, refl, sym, subst, [], ◌∷◌, ◌++◌, Option, none, some, Bytes, Text, text, ok, err,
  length, take, drop, replicate, take-append_length, drop-append_length,
}
use mathlib.Core.Option.{some-injective}
use narwal_publisher.Nhash.{
  Bech32, nhash_encode, parse_nhash_uri, parse_tlv, find_hash, out_of_fuel,
}
use narwal_publisher.Nhash.Tlv.{HoldsHash, parse_tlv_iff, parse_tlv_terminates}
use narwal_publisher.Nhash.RoundTrip.{IsLawful, parse_nhash_uri-nhash_encode}

abbrev decode : Text → Option (Text × Bytes)
decode [] = none
decode (n ∷ rest) = some (take n rest, drop n rest)

-- the prefix with its length before it, then the bytes
abbrev pub plain_bech32 : Bech32
plain_bech32 = record {
  hrp_parse = λ s. some s;
  encode = λ hrp bytes. some (length hrp ∷ hrp ++ bytes);
  decode = decode;
}

pub plain_bech32-IsLawful : IsLawful plain_bech32
plain_bech32-IsLawful = record {
  decode-encode = λ bytes s h.
      subst (λ (t : Text). decode t ≡ some (text "nhash", bytes)) (some-injective _ _ h)
        (decoded (text "nhash") bytes);
  hrp_parse_same = λ hrp h. some-injective _ _ (sym h);
}
  where
    decoded : (hrp : Text) (bytes : Bytes) → decode (length hrp ∷ hrp ++ bytes) ≡ some (hrp, bytes)
    decoded hrp bytes = λ i. some (take-append_length hrp bytes i, drop-append_length hrp bytes i)

abbrev sample_hash : Bytes
sample_hash = replicate 32 66

abbrev sample_nhash : Text
sample_nhash = 5 ∷ text "nhash" ++ (0 ∷ 32 ∷ sample_hash)

sample_encoded : nhash_encode plain_bech32 sample_hash ≡ ok sample_nhash
unfolding nhash_encode
sample_encoded = refl

parse_nhash_uri-nhash_encode_example :
    parse_nhash_uri plain_bech32 (text "htree://" ++ sample_nhash) ≡ ok sample_hash
parse_nhash_uri-nhash_encode_example =
    parse_nhash_uri-nhash_encode plain_bech32 sample_hash sample_nhash plain_bech32-IsLawful refl
      sample_encoded

-- an entry of type 5 before the hash
abbrev with_key : Bytes
with_key = 5 ∷ 2 ∷ 1 ∷ 1 ∷ 0 ∷ 32 ∷ sample_hash

key_skipped : parse_tlv with_key ≡ ok sample_hash
unfolding parse_tlv find_hash
key_skipped = refl

parse_tlv_iff_example : (parse_tlv with_key ≡ ok sample_hash) ↔ HoldsHash with_key sample_hash
parse_tlv_iff_example = parse_tlv_iff with_key sample_hash

parse_tlv_terminates_example : parse_tlv with_key ≢ err out_of_fuel
parse_tlv_terminates_example = parse_tlv_terminates with_key
