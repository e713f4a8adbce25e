-- ===== src/Cli/Sources.antt =====
-- src/main.rs, src/lib.rs: the command line and the pipeline agree on what a run needs.
use narwal_publisher.Prelude.{
  ◌+◌, ◌≡◌, ◌≢◌, ◌↔◌, inl, inr, List, Bool, true, false, Option, none, some, Text, Result, ok, err,
  refl, >>=-eq-err, arith,
}
use narwal_publisher.Publish.{PublishError, pairing_error, key_source, map_err, or_err}
use narwal_publisher.Publish.Plan.{
  Outside, choose_signer, match_source, local_signer, qr_signer, bunker_signer, from_pairing,
  pairing_file_of,
}
use narwal_publisher.Secrets.{FileSystem}
use narwal_publisher.Nip46.Session.{PairingError, default_pairing_file}
use narwal_publisher.Nip46.Transport.{Bunker}
use narwal_publisher.Nip46.Pairing.{PairError}
use narwal_publisher.Cli.{Cli, given, flagged, count_sources, publish_config}

module _ (out : Outside) where
  from_pairing_ne : (p : Result PairError Bunker × FileSystem) → from_pairing out p ≢ err key_source
  unfolding from_pairing
  from_pairing_ne (ok bunker, files) = λ h. cc
  from_pairing_ne (err e, files) = λ h. cc

  no_file_ne :
      (r : Result PairingError Text)
      → ◌≢◌ {A = Result PublishError Text} (map_err pairing_error r) (err key_source)
  unfolding map_err
  no_file_ne (ok file) h = cc
  no_file_ne (err e) h = cc

  -- a pairing that fails does so for another reason
  qr_signer_ne :
      (relays : List Text) (pairing_file : Option Text)
      → qr_signer out relays pairing_file ≢ err key_source
  unfolding qr_signer pairing_file_of map_err
  qr_signer_ne relays (some p) h = from_pairing_ne _ h
  qr_signer_ne relays none h = elim (>>=-eq-err (pairing_file_of out none) _ h) [
    | inl e ↦ no_file_ne (default_pairing_file out.home) e
    | inr (file, _, e) ↦ from_pairing_ne _ e
  ]

  match_source_iff :
      (relays : List Text) (pairing_file sec_file bunker : Option Text) (qr : Bool)
      → (match_source out relays pairing_file sec_file bunker qr ≡ err key_source)
        ↔ ((given sec_file + (given bunker + flagged qr)) ≢ 1)
  unfolding match_source local_signer bunker_signer map_err or_err
  match_source_iff relays pairing_file none none false = ground arith
  match_source_iff relays pairing_file none none true =
      ((λ h. absurd (qr_signer_ne relays pairing_file h)), (λ h. absurd (h refl)))
  match_source_iff relays pairing_file none (some b) false = ground arith
  match_source_iff relays pairing_file none (some b) true = ground arith
  match_source_iff relays pairing_file (some s) none false = ground arith
  match_source_iff relays pairing_file (some s) none true = ground arith
  match_source_iff relays pairing_file (some s) (some b) false = ground arith
  match_source_iff relays pairing_file (some s) (some b) true = ground arith

  -- The pipeline refuses the key sources of a command line exactly when their number is not one,
  -- which is what `validate_publish` tests.
  pub choose_signer_iff :
      (cli : Cli)
      → (choose_signer out (publish_config cli) ≡ err key_source) ↔ (count_sources cli ≢ 1)
  unfolding choose_signer publish_config count_sources
  choose_signer_iff cli =
      match_source_iff cli.pairing.bunker_relays cli.pairing.pairing_file cli.sec_file cli.bunker
        cli.qr
