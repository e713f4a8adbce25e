-- ===== src/Samples/Codec.antt =====
-- A self-delimiting encoding of tree nodes, standing for MessagePack in the samples.
use narwal_publisher.Prelude.{
  ℕ, zero, suc, ◌<◌, ◌≡◌, refl, List, [], ◌∷◌, ◌++◌, Option, none, some, Bytes, Text, arith, length,
  take, drop, length-append, take-append_length, drop-append_length,
}
use mathlib.Core.Option
use narwal_publisher.Manifest.{WireLink, WireTreeNode}

abbrev name_tag : Option Text → ℕ
name_tag none = 0
name_tag (some n) = suc (length n)

abbrev name_bytes : Option Text → Bytes
name_bytes none = []
name_bytes (some n) = n

abbrev put_links : List WireLink → Bytes
put_links [] = 0 ∷ []
put_links (x ∷ xs) =
    1 ∷ x.s ∷ x.t ∷ length x.h ∷ name_tag x.n ∷ x.h ++ (name_bytes x.n ++ put_links xs)

abbrev pub put_node : WireTreeNode → Bytes
put_node w = w.t ∷ put_links w.l

abbrev get_name : ℕ → Bytes → Option Text × Bytes
get_name zero bytes = (none, bytes)
get_name (suc n) bytes = (some (take n bytes), drop n bytes)

abbrev get_links : ℕ → Bytes → Option (List WireLink)
get_links (suc fuel) (suc _ ∷ s ∷ t ∷ h ∷ n ∷ bytes) =
    let (name, rest) = get_name n (drop h bytes) in
    Option.map (λ links. record { h = take h bytes; n = name; s = s; t = t } ∷ links)
      (get_links fuel rest)
get_links (suc fuel) (zero ∷ []) = some []
get_links _ _ = none

abbrev pub get_node : Bytes → Option WireTreeNode
get_node [] = none
get_node (t ∷ bytes) =
    Option.map (λ links. record { l = links; t = t }) (get_links (length bytes) bytes)

get_name-put :
    (n : Option Text) (rest : Bytes) → get_name (name_tag n) (name_bytes n ++ rest) ≡ (n, rest)
get_name-put none rest = refl
get_name-put (some n) rest = λ i. (some (take-append_length n rest i), drop-append_length n rest i)

get_links-put :
    (fuel : ℕ) (links : List WireLink)
    → length links < fuel
    → get_links fuel (put_links links) ≡ some links
get_links-put zero links h = absurd (omega arith)
get_links-put (suc fuel) [] h = refl
get_links-put (suc fuel) (x ∷ xs) h =
    let rest = name_bytes x.n ++ put_links xs in
    rw (
      take-append_length x.h rest,
      drop-append_length x.h rest,
      get_name-put x.n (put_links xs),
      get_links-put fuel xs (omega arith),
    )

length-put_links : (links : List WireLink) → length links < length (put_links links)
length-put_links [] = omega arith
length-put_links (x ∷ xs) = omega (
  arith,
  length-append x.h (name_bytes x.n ++ put_links xs),
  length-append (name_bytes x.n) (put_links xs),
  length-put_links xs,
)

pub get_node-put_node : (w : WireTreeNode) → get_node (put_node w) ≡ some w
get_node-put_node w = rw (get_links-put (length (put_links w.l)) w.l (length-put_links w.l))
