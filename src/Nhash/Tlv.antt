-- ===== src/Nhash/Tlv.antt =====
-- The loop of `parse_nhash_uri` (src/tree_reader.rs) against the format that its comment describes.
use narwal_publisher.Prelude.{
  ℕ, zero, suc, ◌≤◌, ◌<◌, ◌≡◌, ◌≢◌, ◌↔◌, ap, subst, ◌∙◌, sym, [], ◌∷◌, ◌++◌, true, ◌&&◌, Bytes,
  length, take, drop, arith, ok, err, ltb, ◌==◌, length-append, length-take, length-drop,
  take-append-drop, Bool-cases, inl, inr, ltb→ge, ltb→lt, lt→ltb, le→ltb, ok-injective,
  take-append_length, drop-append_length,
}
use narwal_publisher.Nhash.{out_of_fuel, truncated_value, find_hash, parse_tlv}

abbrev pub IsHashEntry : ℕ → ℕ → Type 0
IsHashEntry t len = (t ≡ 0) × (len ≡ 32)

-- The first entry of type 0 and length 32 among whole entries holds the hash.
pub data HoldsHash : Bytes → Bytes → Type 0 where
  here :
      (t len : ℕ) (value rest : Bytes) {bytes : Bytes}
      → IsHashEntry t len
      → length value ≡ len
      → bytes ≡ t ∷ len ∷ value ++ rest
      → HoldsHash bytes value
  skip :
      (t len : ℕ) (value rest : Bytes) {bytes hash : Bytes}
      → ¬ IsHashEntry t len
      → length value ≡ len
      → bytes ≡ t ∷ len ∷ value ++ rest
      → HoldsHash rest hash
      → HoldsHash bytes hash

is_hash_iff : (t len : ℕ) → ((t == 0 && len == 32) ≡ true) ↔ IsHashEntry t len
is_hash_iff t len = ground arith

-- one round, by what the entry is
module _ (fuel t len : ℕ) (value : Bytes) where
  find_hash_short :
      length value < len → find_hash (suc fuel) (t ∷ len ∷ value) ≡ err truncated_value
  unfolding find_hash
  find_hash_short short = rw (lt→ltb (length value) len short)

  find_hash_found :
      len ≤ length value
      → IsHashEntry t len
      → find_hash (suc fuel) (t ∷ len ∷ value) ≡ ok (take 32 value)
  unfolding find_hash
  find_hash_found whole is_hash =
      rw (le→ltb (length value) len whole, (is_hash_iff t len).1 is_hash)

  find_hash_other :
      len ≤ length value
      → ¬ IsHashEntry t len
      → find_hash (suc fuel) (t ∷ len ∷ value) ≡ find_hash fuel (drop len value)
  unfolding find_hash
  find_hash_other whole other = elim (Bool-cases (t == 0 && len == 32)) [
    | inl is_hash ↦ absurd (other ((is_hash_iff t len).0 is_hash))
    | inr not_hash ↦ rw (le→ltb (length value) len whole, not_hash)
  ]

-- the three cases of a round
data Entry (t len : ℕ) (value : Bytes) : Type 0 where
  short : length value < len → Entry t len value
  found : len ≤ length value → IsHashEntry t len → Entry t len value
  other : len ≤ length value → ¬ IsHashEntry t len → Entry t len value

entry_of : (t len : ℕ) (value : Bytes) → Entry t len value
entry_of t len value = elim (Bool-cases (ltb (length value) len)) [
  | inl few ↦ short (ltb→lt (length value) len few)
  | inr enough ↦ elim (Bool-cases (t == 0 && len == 32)) [
    | inl is_hash ↦ found (ltb→ge (length value) len enough) ((is_hash_iff t len).0 is_hash)
    | inr not_hash ↦
        other (ltb→ge (length value) len enough) (λ e. cc (not_hash, (is_hash_iff t len).1 e))
  ]
]

split_value :
    (t len : ℕ) (value : Bytes) → t ∷ len ∷ value ≡ t ∷ len ∷ take len value ++ drop len value
split_value t len value = ap (λ v. t ∷ len ∷ v) (sym (take-append-drop len value))

length-take_le : (len : ℕ) (value : Bytes) → len ≤ length value → length (take len value) ≡ len
length-take_le len value whole = omega (arith, length-take len value)

find_hash_round :
    (fuel t len : ℕ) (value hash : Bytes)
    → Entry t len value
    → ((rest : Bytes) → find_hash fuel rest ≡ ok hash → HoldsHash rest hash)
    → find_hash (suc fuel) (t ∷ len ∷ value) ≡ ok hash
    → HoldsHash (t ∷ len ∷ value) hash
find_hash_round fuel t len value hash (short few) ih h = cc (find_hash_short fuel t len value few)
find_hash_round fuel t len value hash (found whole is_hash) ih h =
    let same = ok-injective (sym (find_hash_found fuel t len value whole is_hash) ∙ h) in
    let whole_value = length-take_le len value whole in
    subst (HoldsHash (t ∷ len ∷ value)) (ap (λ n. take n value) is_hash.1 ∙ same)
      (here t len (take len value) (drop len value) is_hash whole_value (split_value t len value))
find_hash_round fuel t len value hash (other whole not_hash) ih h =
    skip t len (take len value) (drop len value) not_hash (length-take_le len value whole)
      (split_value t len value)
      (ih (drop len value) (sym (find_hash_other fuel t len value whole not_hash) ∙ h))

find_hash_sound :
    (fuel : ℕ) (bytes hash : Bytes) → find_hash fuel bytes ≡ ok hash → HoldsHash bytes hash
unfolding find_hash
find_hash_sound fuel [] hash h = cc
find_hash_sound zero (t ∷ []) hash h = cc
find_hash_sound (suc fuel) (t ∷ []) hash h = cc
find_hash_sound zero (t ∷ len ∷ value) hash h = cc
find_hash_sound (suc fuel) (t ∷ len ∷ value) hash h =
    find_hash_round fuel t len value hash (entry_of t len value)
      (λ rest. find_hash_sound fuel rest hash) h

find_hash_complete :
    (fuel : ℕ) {bytes hash : Bytes}
    → HoldsHash bytes hash
    → length bytes ≤ fuel
    → find_hash fuel bytes ≡ ok hash
find_hash_complete zero (here t len value rest is_hash size e) enough =
    absurd (omega (arith, ap length e))
find_hash_complete (suc fuel) (here t len value rest is_hash size e) enough =
    ap (find_hash (suc fuel)) e
    ∙ find_hash_found fuel t len (value ++ rest) (omega (arith, length-append value rest)) is_hash
    ∙ ap (λ n. ok (take n (value ++ rest))) (sym (size ∙ is_hash.1))
    ∙ ap ok (take-append_length value rest)
find_hash_complete zero (skip t len value rest not_hash size e tail) enough =
    absurd (omega (arith, ap length e))
find_hash_complete (suc fuel) (skip t len value rest not_hash size e tail) enough =
    ap (find_hash (suc fuel)) e
    ∙ find_hash_other fuel t len (value ++ rest) (omega (arith, length-append value rest)) not_hash
    ∙ ap (λ n. find_hash fuel (drop n (value ++ rest))) (sym size)
    ∙ ap (find_hash fuel) (drop-append_length value rest)
    ∙ find_hash_complete fuel tail (omega (arith, ap length e, length-append value rest))

-- The loop finds a hash exactly when some entry of type 0 and length 32 stands behind whole
-- entries, and then it is that entry's value.
pub parse_tlv_iff : (bytes hash : Bytes) → (parse_tlv bytes ≡ ok hash) ↔ HoldsHash bytes hash
unfolding parse_tlv
parse_tlv_iff bytes hash = (
  find_hash_sound (length bytes) bytes hash,
  λ h. find_hash_complete (length bytes) h (omega arith),
)

find_hash_ends :
    (fuel t len : ℕ) (value : Bytes)
    → Entry t len value
    → find_hash fuel (drop len value) ≢ err out_of_fuel
    → find_hash (suc fuel) (t ∷ len ∷ value) ≢ err out_of_fuel
find_hash_ends fuel t len value (short few) ih h = cc (find_hash_short fuel t len value few)
find_hash_ends fuel t len value (found whole is_hash) ih h =
    cc (find_hash_found fuel t len value whole is_hash)
find_hash_ends fuel t len value (other whole not_hash) ih h =
    ih (sym (find_hash_other fuel t len value whole not_hash) ∙ h)

find_hash_fuel :
    (fuel : ℕ) (bytes : Bytes) → length bytes ≤ fuel → find_hash fuel bytes ≢ err out_of_fuel
unfolding find_hash
find_hash_fuel fuel [] enough h = cc
find_hash_fuel zero (t ∷ []) enough h = cc
find_hash_fuel (suc fuel) (t ∷ []) enough h = cc
find_hash_fuel zero (t ∷ len ∷ value) enough h = absurd (omega arith)
find_hash_fuel (suc fuel) (t ∷ len ∷ value) enough h =
    find_hash_ends fuel t len value (entry_of t len value)
      (find_hash_fuel fuel (drop len value) (omega (arith, length-drop len value))) h

-- The fuel of `parse_tlv` is enough on every input.
pub parse_tlv_terminates : (bytes : Bytes) → parse_tlv bytes ≢ err out_of_fuel
unfolding parse_tlv
parse_tlv_terminates bytes = find_hash_fuel (length bytes) bytes (omega arith)
