-- ===== src/Nip46/Pairing/Gate.antt =====
-- src/main.rs and src/nip46/pair.rs: the relays that the code of `narwal pair` advertises.
use narwal_publisher.Prelude.{Option, some, refl, subst, arith, if◌then◌else◌}
use narwal_publisher.Cli.{Cli, PairingArgs, pair, pair_only, pair_task, main, is_empty}
use narwal_publisher.Prelude.{◌≡◌, sym, ◌∙◌, List, [], ◌∷◌, Text, text, ok, >>=-eq-ok, ok-injective}
use narwal_publisher.Nip46.Session.{SerdeJson}
use narwal_publisher.Nip46.Transport.{Network}
use narwal_publisher.Nip46.Bunker.{KeyCrate}
use narwal_publisher.Nip46.Pair.{resolve_handshake_relays, effective_relays}
use narwal_publisher.Nip46.Pair.Relays.{requested_kept}
use narwal_publisher.Nip46.Pairing.{
  Ceremony, bad_handshake_relay, relay_failed, check_each, handshake_relays,
}

resolved_kept :
    (requested connected : List Text)
    → effective_relays (resolve_handshake_relays requested) connected
      ≡ resolve_handshake_relays requested
unfolding resolve_handshake_relays
resolved_kept [] connected =
    requested_kept connected (text "wss://nos.lol") (text "wss://nostr.oxtr.dev" ∷ [])
resolved_kept (r ∷ rs) connected = requested_kept connected r rs

resolved_cases :
    (requested : List Text)
    → resolve_handshake_relays requested ≡ (
        if is_empty requested
        then text "wss://nos.lol" ∷ text "wss://nostr.oxtr.dev" ∷ []
        else requested)
unfolding resolve_handshake_relays
resolved_cases [] = refl
resolved_cases (r ∷ rs) = refl

main_relays :
    (home : Option Text) (cli : Cli) (relays : List Text) (file : Text) (args : PairingArgs)
    → cli.command ≡ some (pair args)
    → main home cli ≡ pair_only relays file
    → relays ≡ resolve_handshake_relays args.bunker_relays
unfolding main pair_task
main_relays home cli relays file args command starts = ground (arith, command, starts)

module _ (net : Network) (keys : KeyCrate) (json : SerdeJson) (out : Ceremony) where
  -- the ceremony for relays that were resolved before
  resolved_advertised :
      (requested relays : List Text)
      → handshake_relays net keys json out (resolve_handshake_relays requested) ≡ ok relays
      → relays ≡ resolve_handshake_relays requested
  unfolding handshake_relays
  resolved_advertised requested relays h =
      let candidates = resolve_handshake_relays (resolve_handshake_relays requested) in
      let (_, _, e) = >>=-eq-ok (check_each out.relay_url_ok bad_handshake_relay candidates) _ h in
      let (_, _, f) = >>=-eq-ok (check_each out.add_relay relay_failed candidates) _ e in
      sym (ok-injective f) ∙ resolved_kept requested _

  -- `narwal pair` resolves the handshake relays before it starts the ceremony, so that the ceremony
  -- takes the default relays for relays that were asked for: where a ceremony that the command line
  -- starts gets as far as the code, the code advertises all that were asked for, or, where none were,
  -- both default relays, also those that are unreachable.
  pub pair_advertises_all :
      (home : Option Text) (cli : Cli) (relays advertised : List Text) (file : Text)
      (args : PairingArgs)
      → cli.command ≡ some (pair args)
      → main home cli ≡ pair_only relays file
      → handshake_relays net keys json out relays ≡ ok advertised
      → advertised ≡ (
          if is_empty args.bunker_relays
          then text "wss://nos.lol" ∷ text "wss://nostr.oxtr.dev" ∷ []
          else args.bunker_relays)
  pair_advertises_all home cli relays advertised file args command starts h =
      resolved_advertised args.bunker_relays advertised (
        subst (λ (rs : List Text). handshake_relays net keys json out rs ≡ ok advertised)
          (main_relays home cli relays file args command starts) h)
      ∙ resolved_cases args.bunker_relays
