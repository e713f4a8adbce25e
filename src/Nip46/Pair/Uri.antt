-- ===== src/Nip46/Pair/Uri.antt =====
-- src/nip46/pair.rs: a reader of the pairing URI gets back what was written into it.
use narwal_publisher.Prelude.{leb, ◌&&◌}
use narwal_publisher.Prelude.{
  ℕ, ◌+◌, ◌*◌, ◌-◌, ◌/◌, ◌%◌, ◌<◌, ◌≡◌, ◌≢◌, inl, inr, refl, ap, ◌∙◌, List, [], ◌∷◌, ◌++◌, map,
  true, Option, none, some, Text, text, ◌==◌, arith, if◌then◌else◌, Bool-cases, All, All-append,
  append_assoc,
}
use mathlib.Core.Option
use narwal_publisher.Nip46.Pair.{
  is_unreserved, hex_digit, encode_byte, pct, separated, relay_params, permissions, query_of,
}

-- RFC 3986: the value of a hexadecimal digit, of either case, `none` for another character
abbrev pub digit_value : ℕ → Option ℕ
digit_value c =
    if leb 48 c && leb c 57
    then some (c - 48)
    else if leb 65 c && leb c 70
    then some (c - 55)
    else if leb 97 c && leb c 102
    then some (c - 87)
    else none

-- the byte of two digits, in front of what follows
abbrev escaped_byte : Option ℕ → Option ℕ → Option Text → Option Text
escaped_byte (some d) (some e) (some rest) = some ((16 * d + e) ∷ rest)
escaped_byte _ _ _ = none

-- RFC 3986: percent-decoding
abbrev pub percent_decode : Text → Option Text
percent_decode [] = some []
percent_decode (c ∷ []) = if c == b'%' then none else some (c ∷ [])
percent_decode (c ∷ d ∷ []) =
    if c == b'%' then none else Option.map (◌∷◌ c) (percent_decode (d ∷ []))
percent_decode (c ∷ d ∷ e ∷ cs) =
    let escaped = escaped_byte (digit_value d) (digit_value e) (percent_decode cs) in
    let plain = Option.map (◌∷◌ c) (percent_decode (d ∷ e ∷ cs)) in
    if c == b'%' then escaped else plain

percent_decode-plain :
    (c : ℕ) (cs : Text)
    → c ≢ b'%'
    → percent_decode (c ∷ cs) ≡ Option.map (◌∷◌ c) (percent_decode cs)
percent_decode-plain c [] plain = ground arith
percent_decode-plain c (d ∷ []) plain = ground arith
percent_decode-plain c (d ∷ e ∷ cs) plain = ground arith

digit_value-hex_digit : (d : ℕ) → d < 16 → digit_value (hex_digit d) ≡ some d
unfolding hex_digit
digit_value-hex_digit d small = ground arith

-- Percent-decoding gives back every text of bytes that `pct` encoded.
pub percent_decode-pct : (s : Text) → All (λ c. c < 256) s → percent_decode (pct s) ≡ some s
unfolding pct encode_byte
percent_decode-pct [] bytes = refl
percent_decode-pct (c ∷ cs) bytes = elim (Bool-cases (is_unreserved c)) [
  | inl plain ↦ rw plain (
      percent_decode-plain c (pct cs) (not_percent c plain)
      ∙ ap (Option.map (◌∷◌ c)) (percent_decode-pct cs bytes.1))
  | inr escaped ↦
      rw
        (
          escaped,
          percent_decode-pct cs bytes.1,
          digit_value-hex_digit (c / 16) (omega (arith, bytes.0)),
          digit_value-hex_digit (c % 16) (omega arith),
        )
        (ap (λ b. some (b ∷ cs)) (omega arith))
]
  where
    not_percent : (c : ℕ) → is_unreserved c ≡ true → c ≢ b'%'
    not_percent c h = unfold is_unreserved in ground arith

-- the parts of a query, cut at each ampersand
abbrev pub push_char : ℕ → List Text → List Text
push_char c [] = (c ∷ []) ∷ []
push_char c (p ∷ ps) = (c ∷ p) ∷ ps

abbrev pub split_amp : Text → List Text
split_amp [] = [] ∷ []
split_amp (c ∷ cs) = let rest = split_amp cs in if c == b'&' then [] ∷ rest else push_char c rest

split_amp_whole : (s : Text) → All (λ c. c ≢ b'&') s → split_amp s ≡ s ∷ []
split_amp_whole [] plain = refl
split_amp_whole (c ∷ cs) plain = rw (split_amp_whole cs plain.1) (ground (arith, plain.0))

split_amp-append :
    (s rest : Text) → All (λ c. c ≢ b'&') s → split_amp (s ++ b'&' ∷ rest) ≡ s ∷ split_amp rest
split_amp-append [] rest plain = refl
split_amp-append (c ∷ cs) rest plain =
    rw (split_amp-append cs rest plain.1) (ground (arith, plain.0))

pct_plain : (s : Text) → All (λ c. c < 256) s → All (λ c. c ≢ b'&') (pct s)
unfolding pct encode_byte is_unreserved hex_digit
pct_plain [] bytes = tt
pct_plain (c ∷ cs) bytes = elim (Bool-cases (is_unreserved c)) [
  | inl plain ↦ rw plain ((ground arith), pct_plain cs bytes.1)
  | inr escaped ↦
      rw escaped ((omega arith), (ground (arith, bytes.0), (ground arith, pct_plain cs bytes.1)))
]

-- one parameter of the query
abbrev pub relay_param : Text → Text
relay_param r = text "relay=" ++ pct r

-- the parameters behind the first, and then `rest`
abbrev tail_params : List Text → Text → Text
tail_params [] rest = rest
tail_params (r ∷ relays) rest = b'&' ∷ (relay_param r ++ tail_params relays rest)

relay_params_tail :
    (c : ℕ) (q : Text) (relays : List Text) (rest : Text)
    → relay_params (c ∷ q) relays ++ rest ≡ (c ∷ q) ++ tail_params relays rest
unfolding relay_params separated
relay_params_tail c q [] rest = refl
relay_params_tail c q (r ∷ relays) rest =
    relay_params_tail c ((q ++ b'&' ∷ []) ++ relay_param r) relays rest
    ∙ ap (◌∷◌ c) (
        append_assoc (q ++ b'&' ∷ []) (relay_param r) (tail_params relays rest)
        ∙ append_assoc q (b'&' ∷ []) (relay_param r ++ tail_params relays rest))

relay_param_plain : (r : Text) → All (λ c. c < 256) r → All (λ c. c ≢ b'&') (relay_param r)
relay_param_plain r bytes =
    All-append (λ c. c ≢ b'&') (text "relay=") (pct r) (omega arith) (pct_plain r bytes)

split_amp-tail_params :
    (s : Text) (relays : List Text) (rest : Text)
    → All (λ c. c ≢ b'&') s
    → All (λ r. All (λ c. c < 256) r) relays
    → split_amp (s ++ tail_params relays (b'&' ∷ rest))
      ≡ s ∷ map relay_param relays ++ split_amp rest
split_amp-tail_params s [] rest plain bytes = split_amp-append s rest plain
split_amp-tail_params s (r ∷ relays) rest plain bytes =
    split_amp-append s (relay_param r ++ tail_params relays (b'&' ∷ rest)) plain
    ∙ ap (◌∷◌ s)
        (split_amp-tail_params (relay_param r) relays rest (relay_param_plain r bytes.0) bytes.1)

-- the parameters that follow the relays
abbrev pub fixed_params : Text → List Text
fixed_params secret =
    (text "secret=" ++ pct secret)
    ∷ text "name=narwal-cli"
    ∷ (text "perms=" ++ pct permissions)
    ∷ []

split_fixed :
    (secret : Text)
    → All (λ c. c < 256) secret
    → split_amp
        (text "secret=" ++ (pct secret ++ (text "&name=narwal-cli&perms=" ++ pct permissions)))
      ≡ fixed_params secret
split_fixed secret bytes =
    split_amp-append (text "secret=" ++ pct secret)
      (text "name=narwal-cli&perms=" ++ pct permissions)
      (All-append (λ c. c ≢ b'&') (text "secret=") (pct secret) (omega arith)
        (pct_plain secret bytes))
    ∙ ap (◌∷◌ (text "secret=" ++ pct secret)) (
        split_amp-append (text "name=narwal-cli") (text "perms=" ++ pct permissions) (omega arith)
        ∙ ap (◌∷◌ (text "name=narwal-cli")) (
            split_amp_whole (text "perms=" ++ pct permissions) (
              All-append (λ c. c ≢ b'&') (text "perms=") (pct permissions) (omega arith)
                (pct_plain permissions (omega arith)))))

-- Cut at its ampersands, the query is one parameter for each relay, in order, and then the secret,
-- the name and the permissions, whatever bytes the relays and the secret hold.
pub split_amp-query_of :
    (r : Text) (relays : List Text) (secret : Text)
    → All (λ c. c < 256) r
    → All (λ x. All (λ c. c < 256) x) relays
    → All (λ c. c < 256) secret
    → split_amp (query_of (r ∷ relays) secret) ≡ map relay_param (r ∷ relays) ++ fixed_params secret
unfolding query_of relay_params separated
split_amp-query_of r relays secret bytes all secret_bytes =
    let rest =
      text "secret=" ++ (pct secret ++ (text "&name=narwal-cli&perms=" ++ pct permissions)) in
    ap split_amp (relay_params_tail b'r' (text "elay=" ++ pct r) relays (b'&' ∷ rest))
    ∙ split_amp-tail_params (relay_param r) relays rest (relay_param_plain r bytes) all
    ∙ ap (λ ps. relay_param r ∷ map relay_param relays ++ ps) (split_fixed secret secret_bytes)
