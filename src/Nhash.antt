-- ===== src/Nhash.antt =====
-- src/nhash.rs and `parse_nhash_uri` of src/tree_reader.rs: the hash of a root as bech32 over
-- type-length-value entries. The crate `bech32` is a parameter.
pub mod Tlv
pub mod RoundTrip
use narwal_publisher.Prelude.{
  ℕ, zero, suc, List, [], ◌∷◌, ◌++◌, Bool, true, false, ◌&&◌, Option, none, some, Bytes, Text, text,
  text_eq, length, take, drop, ltb, ◌==◌, if◌then◌else◌, Result, ok, err, ◌>>=◌,
}

-- What the code calls of the crate `bech32`.
pub record Bech32 : Type 0 where
  pub hrp_parse : Text → Option Text
  pub encode : Text → Bytes → Option Text
  pub decode : Text → Option (Text × Bytes)

pub data NhashError : Type 0 where
  invalid_hrp encode_failed : NhashError
  not_htree invalid_bech32 wrong_hrp : NhashError
  truncated_tlv truncated_value no_hash : NhashError
  out_of_fuel : NhashError

-- const TLV_HASH
abbrev pub tlv_hash : ℕ
tlv_hash = 0

-- `ok_or_else`, and `map_err` on the results of the crate
abbrev pub ok_or {ℓ} : {A : Type ℓ} → Option A → NhashError → Result NhashError A
ok_or none e = err e
ok_or (some a) e = ok a

unfoldable pub nhash_encode : Bech32 → Bytes → Result NhashError Text
nhash_encode crate hash = do
  let tlv = tlv_hash ∷ 32 ∷ hash
  hrp ← ok_or (crate.hrp_parse (text "nhash")) invalid_hrp
  ok_or (crate.encode hrp tlv) encode_failed

-- `str::strip_prefix`
unfoldable pub strip_prefix : Text → Text → Option Text
strip_prefix [] s = some s
strip_prefix (p ∷ ps) [] = none
strip_prefix (p ∷ ps) (c ∷ cs) = if p == c then strip_prefix ps cs else none

-- `while i < data.len()` over data[i..]
unfoldable pub find_hash : ℕ → Bytes → Result NhashError Bytes
find_hash fuel [] = err no_hash
find_hash fuel (tlv_type ∷ []) = err truncated_tlv
find_hash zero (tlv_type ∷ tlv_len ∷ value) = err out_of_fuel
find_hash (suc fuel) (tlv_type ∷ tlv_len ∷ value) =
    let next = find_hash fuel (drop tlv_len value) in
    if ltb (length value) tlv_len
    then err truncated_value
    else if tlv_type == 0 && tlv_len == 32
    then ok (take 32 value)
    else next

-- every round takes two bytes at least
unfoldable pub parse_tlv : Bytes → Result NhashError Bytes
parse_tlv bytes = find_hash (length bytes) bytes

unfoldable pub check_hrp : Text × Bytes → Result NhashError Bytes
check_hrp (hrp, bytes) = if text_eq hrp (text "nhash") then ok bytes else err wrong_hrp

unfoldable pub parse_nhash_uri : Bech32 → Text → Result NhashError Bytes
unfolding strip_prefix check_hrp
parse_nhash_uri crate uri = do
  nhash ← ok_or (strip_prefix (text "htree://") uri) not_htree
  decoded ← ok_or (crate.decode nhash) invalid_bech32
  bytes ← check_hrp decoded
  parse_tlv bytes
