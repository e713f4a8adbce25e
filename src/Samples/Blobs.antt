-- ===== src/Samples/Blobs.antt =====
-- Samples for src/blossom_fetch.rs.
use narwal_publisher.Prelude.{
  ◌+◌, ◌≡◌, inr, refl, List, [], ◌∷◌, ◌++◌, some, Bytes, Text, text, text_eq, ok, err,
  if◌then◌else◌, All, ◌↔◌,
}
use narwal_publisher.BlossomFetch.{Reply, network_error, replied, blob_url, fetch, not_found}
use narwal_publisher.BlossomFetch.Laws.{
  fetch_verified, fetch_decided, fetch-eq-not_found, PassesOver, verdict,
}

-- a hash of one number, the sum of the bytes
abbrev sum : Bytes → Bytes
sum [] = 0 ∷ []
sum (b ∷ bs) = elim (sum bs) [ [] ↦ [] | s ∷ _ ↦ (b + s) ∷ [] ]

abbrev plain : Bytes → Text
plain bytes = bytes

-- the first server is down, the second serves other content, the third the blob
abbrev replies : Text → Reply
unfolding text_eq blob_url
replies url =
    if text_eq url (text "b/" ++ 10 ∷ [])
    then replied 200 (some (9 ∷ []))
    else if text_eq url (text "c/" ++ 10 ∷ [])
    then replied 200 (some (4 ∷ 6 ∷ []))
    else network_error

abbrev passed : List Text
passed = text "a" ∷ text "b/" ∷ []

abbrev servers : List Text
servers = passed ++ text "c" ∷ text "d" ∷ []

fetched : fetch replies sum plain servers (10 ∷ []) ≡ ok (4 ∷ 6 ∷ [])
unfolding fetch text_eq blob_url
fetched = refl

fetch_verified_example : plain (sum (4 ∷ 6 ∷ [])) ≡ 10 ∷ []
fetch_verified_example = fetch_verified replies sum plain servers (10 ∷ []) (4 ∷ 6 ∷ []) fetched

passed_over :
    All (λ b. PassesOver replies sum plain (10 ∷ []) (replies (blob_url b (10 ∷ [])))) passed
unfolding text_eq blob_url
passed_over = (tt, (inr (λ h. cc), tt))

fetch_decided_example :
    fetch replies sum plain servers (10 ∷ [])
    ≡ verdict replies sum plain (text "c") (some (4 ∷ 6 ∷ []))
unfolding text_eq blob_url
fetch_decided_example =
    fetch_decided replies sum plain passed (text "d" ∷ []) (text "c") (10 ∷ []) 200
      (some (4 ∷ 6 ∷ [])) passed_over refl refl refl

fetch-eq-not_found_example :
    (fetch replies sum plain passed (10 ∷ []) ≡ err (not_found (10 ∷ [])))
    ↔ All (λ b. PassesOver replies sum plain (10 ∷ []) (replies (blob_url b (10 ∷ [])))) passed
fetch-eq-not_found_example = fetch-eq-not_found replies sum plain passed (10 ∷ [])
