-- ===== src/Samples/Pairings.antt =====
-- Samples for src/nip46/pair.rs and src/nip46/signer.rs.
use narwal_publisher.Prelude.{
  ◌≡◌, ◌↔◌, ◌⊎◌, inl, refl, List, [], ◌∷◌, ◌++◌, map, some, Text, text, text_eq, arith,
}
use narwal_publisher.Prelude.Membership.{Has, mem}
use narwal_publisher.Nip46.Pair.{pct, query_of, reuse_relays}
use narwal_publisher.Nip46.Pair.Uri.{
  percent_decode, percent_decode-pct, split_amp, relay_param, fixed_params, split_amp-query_of,
}
use narwal_publisher.Nip46.Pair.Relays.{reuse_relays_iff}

relay_encoded : pct (text "wss://a b&c") ≡ text "wss%3A%2F%2Fa%20b%26c"
unfolding pct
relay_encoded = refl

percent_decode-pct_example : percent_decode (pct (text "wss://a b&c")) ≡ some (text "wss://a b&c")
percent_decode-pct_example = percent_decode-pct (text "wss://a b&c") (omega arith)

split_amp-query_of_example :
    split_amp (query_of (text "wss://a" ∷ text "wss://b&x=1" ∷ []) (text "s3"))
    ≡ map relay_param (text "wss://a" ∷ text "wss://b&x=1" ∷ []) ++ fixed_params (text "s3")
split_amp-query_of_example =
    split_amp-query_of (text "wss://a") (text "wss://b&x=1" ∷ []) (text "s3") (omega arith)
      (omega arith) (omega arith)

abbrev stored_relays : List Text
stored_relays = text "wss://a" ∷ []

abbrev asked_relays : List Text
asked_relays = text "wss://b" ∷ []

first_stored : Has stored_relays (text "wss://a") ⊎ Has asked_relays (text "wss://a")
unfolding mem text_eq
first_stored = inl refl

reuse_relays_iff_example :
    Has (reuse_relays stored_relays asked_relays) (text "wss://c")
    ↔ (Has stored_relays (text "wss://c") ⊎ Has asked_relays (text "wss://c"))
reuse_relays_iff_example =
    reuse_relays_iff stored_relays asked_relays (text "wss://c") (text "wss://a") first_stored
