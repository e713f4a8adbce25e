-- ===== src/Nip46/Pair/Accept.antt =====
-- src/nip46/pair.rs: the wait for the signer that scans the code, and which response is accepted.
pub mod Chosen
use narwal_publisher.Prelude.{
  ℕ, ◌≤◌, ◌≡◌, ◌↔◌, ◌⊎◌, inl, inr, refl, ap, sym, subst, ◌∙◌, List, [], ◌∷◌, Bool, true, false,
  Option, none, some, Text, text, text_eq, text_eq_iff, ltb, Result, ok, err, arith, if◌then◌else◌,
  Bool-cases, ltb→ge, ltb→lt, ok-injective,
}
use narwal_publisher.Nip46.Session.{Json, get_value, as_str, SerdeJson}
use narwal_publisher.Nip46.Transport.{Keys, Event, Network, decrypt_from}

-- the two ways in which the wait fails
pub data WaitError : Type 0 where
  pairing_timed_out stream_closed : WaitError

-- what `timeout(remaining, rx.recv())` gives
pub data Received : Type 0 where
  received : Event → Received
  closed : Received
  elapsed : Received

-- one round of the wait: the clock at its start, in milliseconds, and what came
pub record Round : Type 0 where
  pub now : ℕ
  pub got : Received

unfoldable pub accept_result : Text → Text → Option Text → Option Text
accept_result expected pubkey none = none
accept_result expected pubkey (some s) = if text_eq s expected then some pubkey else none

module _ (net : Network) (json : SerdeJson) (app_keys : Keys) (secret : Text) where
  unfoldable pub accept_body : Event → Option Json → Option Text
  unfolding accept_result get_value as_str
  accept_body event none = none
  accept_body event (some body) =
      accept_result secret event.pubkey (as_str (get_value (text "result") body))

  unfoldable pub accept_plaintext : Event → Option Text → Option Text
  unfolding accept_body
  accept_plaintext event none = none
  accept_plaintext event (some plaintext) = accept_body event (json.from_str plaintext)

  -- every branch is `Ok`
  unfoldable pub try_accept_response : Event → Option Text
  unfolding accept_plaintext decrypt_from
  try_accept_response event =
      accept_plaintext event (decrypt_from net app_keys event.pubkey event.content)

  abbrev pub or_next : Option Text → Result WaitError Text → Result WaitError Text
  or_next none rest = rest
  or_next (some pk) rest = ok pk

  unfoldable pub judge : Received → Result WaitError Text → Result WaitError Text
  unfolding try_accept_response
  judge (received event) rest = or_next (try_accept_response event) rest
  judge closed rest = err stream_closed
  judge elapsed rest = err pairing_timed_out

  -- behind the rounds given nothing comes until the deadline
  unfoldable pub await_connect_response : ℕ → List Round → Result WaitError Text
  unfolding judge
  await_connect_response deadline [] = err pairing_timed_out
  await_connect_response deadline (r ∷ rounds) =
      let rest = await_connect_response deadline rounds in
      if ltb deadline r.now then err pairing_timed_out else judge r.got rest
