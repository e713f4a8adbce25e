-- ===== src/Prelude/Chunks.antt =====
-- Rust's `slice::chunks(n)` for n > 0: consecutive slices of n elements, the last may be shorter.
use Prim.Native.Nat.{ℕ, zero, suc, ◌+◌, ◌*◌, ◌≤◌, ◌<◌}
use mathlib.Core.Path.{◌≡◌, refl, ap, ◌∙◌}
use mathlib.Core.List.{List, [], ◌∷◌, ◌++◌}
use native.Mathlib.Omega.{arith}
use narwal_publisher.Prelude.Lists.{
  length, take, drop, concat, length-take, length-drop, take-append-drop, take_all, drop_all, All,
}

module _ {ℓ} {A : Type ℓ} where
  -- as many rounds as elements are enough, since each takes one at least
  chunk_rounds : ℕ → ℕ → List A → List (List A)
  chunk_rounds rounds n [] = []
  chunk_rounds zero n (x ∷ xs) = []
  chunk_rounds (suc rounds) n (x ∷ xs) = take n (x ∷ xs) ∷ chunk_rounds rounds n (drop n (x ∷ xs))

  unfoldable pub chunks : ℕ → List A → List (List A)
  unfolding chunk_rounds
  chunks n xs = chunk_rounds (length xs) n xs

  chunk_rounds-concat :
      (rounds n : ℕ) (xs : List A)
      → 0 < n
      → length xs ≤ rounds
      → concat (chunk_rounds rounds n xs) ≡ xs
  unfolding chunk_rounds
  chunk_rounds-concat rounds n [] pos enough = refl
  chunk_rounds-concat zero n (x ∷ xs) pos enough = absurd (omega arith)
  chunk_rounds-concat (suc rounds) n (x ∷ xs) pos enough =
      ap (λ rest. take n (x ∷ xs) ++ rest)
        (chunk_rounds-concat rounds n (drop n (x ∷ xs)) pos (omega (arith, length-drop n (x ∷ xs))))
      ∙ take-append-drop n (x ∷ xs)

  -- The chunks are the list, in order.
  pub concat-chunks : (n : ℕ) (xs : List A) → 0 < n → concat (chunks n xs) ≡ xs
  unfolding chunks
  concat-chunks n xs pos = chunk_rounds-concat (length xs) n xs pos (omega arith)

  chunk_rounds-sizes :
      (rounds n : ℕ) (xs : List A) → All (λ c. length c ≤ n) (chunk_rounds rounds n xs)
  unfolding chunk_rounds
  chunk_rounds-sizes rounds n [] = tt
  chunk_rounds-sizes zero n (x ∷ xs) = tt
  chunk_rounds-sizes (suc rounds) n (x ∷ xs) =
      (omega (arith, length-take n (x ∷ xs)), chunk_rounds-sizes rounds n (drop n (x ∷ xs)))

  pub length-chunk-le : (n : ℕ) (xs : List A) → All (λ c. length c ≤ n) (chunks n xs)
  unfolding chunks
  length-chunk-le n xs = chunk_rounds-sizes (length xs) n xs

  -- Each chunk but the last is full.
  chunk_rounds-count :
      (rounds n : ℕ) (xs : List A) → 2 ≤ n → 2 * length (chunk_rounds rounds n xs) ≤ length xs + 1
  unfolding chunk_rounds
  chunk_rounds-count rounds n [] h = omega arith
  chunk_rounds-count zero n (x ∷ xs) h = omega arith
  chunk_rounds-count (suc rounds) n (x ∷ []) h =
      rw (drop_all n (x ∷ []) (omega arith)) (omega arith)
  chunk_rounds-count (suc rounds) n (x ∷ y ∷ xs) h =
      omega (arith, length-drop n (x ∷ y ∷ xs), chunk_rounds-count rounds n (drop n (x ∷ y ∷ xs)) h)

  -- More than one element makes fewer chunks than elements.
  pub length-chunks-lt :
      (n : ℕ) (xs : List A) → 2 ≤ n → 2 ≤ length xs → length (chunks n xs) < length xs
  unfolding chunks
  length-chunks-lt n xs h many = omega (arith, chunk_rounds-count (length xs) n xs h)

  pub length-chunks-le : (n : ℕ) (xs : List A) → 2 ≤ n → length (chunks n xs) ≤ length xs
  unfolding chunks
  length-chunks-le n xs h = omega (arith, chunk_rounds-count (length xs) n xs h)

  chunk_rounds-pos :
      (rounds n : ℕ) (xs : List A)
      → 0 < length xs
      → 0 < rounds
      → 0 < length (chunk_rounds rounds n xs)
  unfolding chunk_rounds
  chunk_rounds-pos rounds n [] h r = h
  chunk_rounds-pos zero n (x ∷ xs) h r = r
  chunk_rounds-pos (suc rounds) n (x ∷ xs) h r = omega arith

  pub length-chunks-pos : (n : ℕ) (xs : List A) → 0 < length xs → 0 < length (chunks n xs)
  unfolding chunks
  length-chunks-pos n xs h = chunk_rounds-pos (length xs) n xs h h

  -- A list that fits in one chunk is one chunk.
  pub chunks-single :
      (n : ℕ) (x : A) (xs : List A) → length (x ∷ xs) ≤ n → chunks n (x ∷ xs) ≡ (x ∷ xs) ∷ []
  unfolding chunks
  chunks-single n x xs h = rw (drop_all n (x ∷ xs) h, take_all n (x ∷ xs) h)
