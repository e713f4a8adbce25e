-- ===== src/Nhash/RoundTrip.antt =====
-- src/nhash.rs, src/tree_reader.rs: what `nhash_encode` writes, `parse_nhash_uri` reads.
use narwal_publisher.Prelude.{subst, refl}
use narwal_publisher.Prelude.{
  ◌≡◌, ◌++◌, some, Bytes, Text, text, length, ok, arith, text_eq_iff, refl, ap, sym, append-nil, [],
  ◌∷◌,
}
use narwal_publisher.Nhash.Tlv.{HoldsHash, here, parse_tlv_iff}
use narwal_publisher.Nhash.{Bech32, nhash_encode, parse_nhash_uri}

-- what the code relies on, of the prefix that it uses: it is parsed to itself, and `decode` inverts
-- `encode` under it
pub record IsLawful (crate : Bech32) : Type 0 where
  pub decode-encode :
      (bytes : Bytes) (s : Text)
      → crate.encode (text "nhash") bytes ≡ some s
      → crate.decode s ≡ some (text "nhash", bytes)
  pub hrp_parse_same : (hrp : Text) → crate.hrp_parse (text "nhash") ≡ some hrp → hrp ≡ text "nhash"

find_hash-encoded : (hash : Bytes) → length hash ≡ 32 → HoldsHash (0 ∷ 32 ∷ hash) hash
find_hash-encoded hash size =
    here 0 32 hash [] (refl, refl) size (ap (λ v. 0 ∷ 32 ∷ v) (sym (append-nil hash)))

encoded_parts :
    (crate : Bech32) (hash : Bytes) (nhash : Text)
    → nhash_encode crate hash ≡ ok nhash
    → (hrp : Text) × (crate.hrp_parse (text "nhash") ≡ some hrp)
      × (crate.encode hrp (0 ∷ 32 ∷ hash) ≡ some nhash)
unfolding nhash_encode
encoded_parts crate hash nhash h = ground arith

-- The URI of an encoded 32-byte hash is parsed to that hash, for a bech32 crate that decodes what
-- it encodes.
pub parse_nhash_uri-nhash_encode :
    (crate : Bech32) (hash : Bytes) (nhash : Text)
    → IsLawful crate
    → length hash ≡ 32
    → nhash_encode crate hash ≡ ok nhash
    → parse_nhash_uri crate (text "htree://" ++ nhash) ≡ ok hash
unfolding parse_nhash_uri
parse_nhash_uri-nhash_encode crate hash nhash law size h =
    let (hrp, parsed, encoded) = encoded_parts crate hash nhash h in
    let sent =
      subst (λ (p : Text). crate.encode p (0 ∷ 32 ∷ hash) ≡ some nhash)
        (law.hrp_parse_same hrp parsed) encoded in
    rw
      (
        law.decode-encode (0 ∷ 32 ∷ hash) nhash sent,
        (text_eq_iff (text "nhash") (text "nhash")).1 refl,
      )
      ((parse_tlv_iff (0 ∷ 32 ∷ hash) hash).1 (find_hash-encoded hash size))
