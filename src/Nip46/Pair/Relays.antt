-- ===== src/Nip46/Pair/Relays.antt =====
-- src/nip46/pair.rs: which relays a pairing uses.
use narwal_publisher.Prelude.{
  ◌≡◌, ◌↔◌, ◌⊎◌, inl, inr, refl, ap, ◌∙◌, List, [], ◌∷◌, ◌++◌, true, false, Text, text_eq,
  text_eq_iff, arith, Bool-cases,
}
use narwal_publisher.Prelude.Membership.{mem, Has, Lacks, Has-concat}
use narwal_publisher.Nip46.Pair.{
  default_handshake_relays, resolve_handshake_relays, merge_relays, reuse_relays, or_resolved,
  keep_reachable, effective_relays, or_candidates,
}

-- a relay that is there is there under every equal text
found_alike : (x r : Text) (relays : List Text) → Has relays r → text_eq x r ≡ true → Has relays x
found_alike x r relays there same = ap (λ y. mem y relays) ((text_eq_iff x r).0 same) ∙ there

Has-merge_relays :
    (relays requested : List Text) (x : Text)
    → Has (merge_relays relays requested) x ↔ (Has relays x ⊎ Has requested x)
unfolding merge_relays mem
Has-merge_relays relays [] x = ground arith
Has-merge_relays relays (r ∷ requested) x = elim (Bool-cases (mem r relays)) [
  | inl there ↦
      rw there (ground (arith, Has-merge_relays relays requested x, found_alike x r relays there))
  | inr absent ↦ rw absent (
      ground (
        arith,
        Has-merge_relays (relays ++ r ∷ []) requested x,
        Has-concat x r relays,
        text_eq_iff x r,
      ))
]

-- On a stored pairing that has relays, reuse takes exactly the stored and the requested relays.
merged_only :
    (requested merged : List Text) (y : Text) → Has merged y → or_resolved requested merged ≡ merged
unfolding mem
merged_only requested [] y h = cc
merged_only requested (r ∷ rs) y h = refl

-- Where a relay was stored or is requested, a stored pairing is used again on exactly the relays
-- that were stored or are requested: not on the default relays in their place.
pub reuse_relays_iff :
    (stored requested : List Text) (x y : Text)
    → Has stored y ⊎ Has requested y
    → Has (reuse_relays stored requested) x ↔ (Has stored x ⊎ Has requested x)
unfolding reuse_relays
reuse_relays_iff stored requested x y there =
    rw
      (merged_only requested (merge_relays stored requested) y
        ((Has-merge_relays stored requested y).1 there))
      (Has-merge_relays stored requested x)

keep_reachable_all :
    (connected candidates : List Text) → keep_reachable false connected candidates ≡ candidates
unfolding keep_reachable
keep_reachable_all connected [] = refl
keep_reachable_all connected (r ∷ candidates) =
    ground (arith, keep_reachable_all connected candidates)

Has-keep_reachable :
    (connected candidates : List Text) (x : Text)
    → Has (keep_reachable true connected candidates) x ↔ (Has candidates x × Has connected x)
unfolding keep_reachable mem
Has-keep_reachable connected [] x = ground arith
Has-keep_reachable connected (r ∷ candidates) x = elim (Bool-cases (mem r connected)) [
  | inl up ↦
      rw up
        (ground (arith, Has-keep_reachable connected candidates x, found_alike x r connected up))
  | inr down ↦ rw down (
      ground (
        arith,
        Has-keep_reachable connected candidates x,
        down,
        text_eq_iff x r,
        down_alike x down,
      ))
]
  where
    down_alike : (x : Text) → Lacks connected r → text_eq x r ≡ true → Lacks connected x
    down_alike x down same = ap (λ y. mem y connected) ((text_eq_iff x r).0 same) ∙ down

or_candidates_some :
    (candidates kept : List Text) (y : Text) → Has kept y → or_candidates candidates kept ≡ kept
unfolding mem
or_candidates_some candidates [] y h = cc
or_candidates_some candidates (r ∷ rs) y h = refl

-- relays that were asked for are all advertised
pub requested_kept :
    (connected : List Text) (r : Text) (requested : List Text)
    → effective_relays (r ∷ requested) connected ≡ r ∷ requested
unfolding effective_relays resolve_handshake_relays
requested_kept connected r requested = rw (keep_reachable_all connected (r ∷ requested)) refl

-- The QR code advertises every relay that was asked for, whatever is reachable; with none asked for
-- and some default relay reachable, it advertises exactly the default relays that are reachable.
pub effective_relays_lem :
    (requested connected : List Text) (r y x : Text)
    → Has default_handshake_relays y
    → Has connected y
    → (effective_relays (r ∷ requested) connected ≡ r ∷ requested)
      × (Has (effective_relays [] connected) x ↔ (Has default_handshake_relays x × Has connected x))
unfolding effective_relays resolve_handshake_relays
effective_relays_lem requested connected r y x is_default up = (
  requested_kept connected r requested,
  rw
      (or_candidates_some default_handshake_relays
        (keep_reachable true connected default_handshake_relays) y
        ((Has-keep_reachable connected default_handshake_relays y).1 (is_default, up)))
      (Has-keep_reachable connected default_handshake_relays x),
)
