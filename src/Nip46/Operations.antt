-- ===== src/Nip46/Operations.antt =====
-- src/nip46/signer.rs: the operations of the remote signer, on top of the transport. `net` are the
-- crates and the network.
use narwal_publisher.Prelude.{
  ℕ, zero, suc, ◌+◌, ◌/◌, ◌%◌, List, [], ◌∷◌, ◌++◌, Bool, true, false, Option, none, some, Text,
  text, text_eq, ltb, Result, ok, err, ◌>>=◌, if◌then◌else◌,
}
use narwal_publisher.Prelude.Effects.{continue}
use narwal_publisher.Nip46.Session.{
  Json, null, string, array, object, Items, no_items, item, field, no_fields, get_value, as_str,
  SerdeJson,
}
use narwal_publisher.Nip46.Signer.{
  Message, request, response, ResponseResult, ack, public_key, signed_event, ciphertext, plaintext,
  RpcError, unexpected_response, bad_envelope, bad_entry, unexpected_relays, nip04_unsupported,
  or_rpc_error, response_to_result, dispatch_response,
}
use narwal_publisher.Nip46.Transport.{
  Event, Request, Payload, untyped, method, Network, Bunker, client_add_relay, decode, rpc_raw, rpc,
}

-- the result of one method, or an error
abbrev pub is_ack : ResponseResult → Result RpcError (Unit {0})
is_ack ack = ok tt
is_ack _ = err unexpected_response

abbrev pub as_public_key : ResponseResult → Result RpcError Text
as_public_key (public_key k) = ok k
as_public_key _ = err unexpected_response

abbrev pub as_event : ResponseResult → Result RpcError Text
as_event (signed_event e) = ok e
as_event _ = err unexpected_response

abbrev pub as_ciphertext : ResponseResult → Result RpcError Text
as_ciphertext (ciphertext c) = ok c
as_ciphertext _ = err unexpected_response

abbrev pub as_plaintext : ResponseResult → Result RpcError Text
as_plaintext (plaintext p) = ok p
as_plaintext _ = err unexpected_response

-- the entries of a relay list, each of which is a string
unfoldable pub relay_entries : Items → Result RpcError (List Text)
unfolding as_str or_rpc_error
relay_entries no_items = ok []
relay_entries (item v items) = do
  s ← or_rpc_error (as_str (some v)) bad_entry
  rest ← relay_entries items
  ok (s ∷ rest)

-- `match result`
unfoldable pub relay_result : Option Json → Result RpcError (List Text)
unfolding relay_entries
relay_result none = ok []
relay_result (some null) = ok []
relay_result (some (array items)) = relay_entries items
relay_result (some _) = err unexpected_relays

-- `!msg.is_response() || msg.id() != id`
unfoldable pub check_response : Text → Message → Result RpcError (Unit {0})
check_response id (request i) = err unexpected_response
check_response id (response i result error) =
    if text_eq i id then ok tt else err unexpected_response

-- the payload of `switch_relays`
unfoldable pub switch_payload : Text → Payload
switch_payload id = untyped (
    object (
      field (text "id") (string id) (
        field (text "method") (string (text "switch_relays"))
          (field (text "params") (array no_items) no_fields))))

unfoldable pub decimal_digits : ℕ → ℕ → Text → Text
decimal_digits zero n acc = acc
decimal_digits (suc fuel) n acc =
    let rest = decimal_digits fuel (n / 10) ((48 + n % 10) ∷ acc) in
    if ltb n 10 then (48 + n) ∷ acc else rest

-- a number as `format!` prints it
unfoldable pub decimal : ℕ → Text
unfolding decimal_digits
decimal n = decimal_digits (suc n) n []

-- `.map(|d| d.as_nanos()).unwrap_or(0)`
abbrev pub or_zero : Option ℕ → ℕ
or_zero none = 0
or_zero (some n) = n

-- format!("sw-{}-{}", ..)
unfoldable pub refresh_id : Option ℕ → ℕ → Text
unfolding decimal
refresh_id nanos count = text "sw-" ++ (decimal (or_zero nanos) ++ (text "-" ++ decimal count))

module _ (net : Network) where
  -- a request, and the result that it expects
  unfoldable pub call :
      {A : Type 0}
      → Request
      → (ResponseResult → Result RpcError A)
      → Bunker
      → Result RpcError A × Bunker
  unfolding rpc method response_to_result
  call req expected s =
      continue (rpc net req s)
        λ msg t. (do res ← response_to_result net.to_response msg (method req); expected res, t)

  abbrev pub finish_handshake : Unit {0} → Bunker → Result RpcError (Unit {0}) × Bunker
  finish_handshake _ s = (ok tt, record s { handshook = true })

  abbrev pub handshake_once : Bool → Text → Bunker → Result RpcError (Unit {0}) × Bunker
  handshake_once true secret s = (ok tt, s)
  handshake_once false secret s =
      continue (call (Request.connect s.bunker_pubkey (some secret)) is_ack s) finish_handshake

  abbrev pub handshake_with : Option Text → Bunker → Result RpcError (Unit {0}) × Bunker
  handshake_with none s = (ok tt, s)
  handshake_with (some secret) s = handshake_once s.handshook secret s

  unfoldable pub ensure_handshake : Bunker → Result RpcError (Unit {0}) × Bunker
  unfolding call
  ensure_handshake s = handshake_with s.app_secret s

  -- a request behind the handshake
  abbrev pub command :
      {A : Type 0}
      → Request
      → (ResponseResult → Result RpcError A)
      → Bunker
      → Result RpcError A × Bunker
  command req expected s = continue (ensure_handshake s) (λ _. call req expected)

  -- `OnceCell::set`, which leaves a value that is there
  abbrev pub set_once : Option Text → Text → Option Text
  set_once none pk = some pk
  set_once (some k) pk = some k

  abbrev pub store_key : Text → Bunker → Result RpcError Text × Bunker
  store_key pk s = (ok pk, record s { user_pubkey = set_once s.user_pubkey pk })

  abbrev pub key_once : Option Text → Bunker → Result RpcError Text × Bunker
  key_once (some pk) s = (ok pk, s)
  key_once none s = continue (command Request.get_public_key as_public_key s) store_key

  unfoldable pub user_public_key : Bunker → Result RpcError Text × Bunker
  unfolding ensure_handshake call
  user_public_key s = key_once s.user_pubkey s

  unfoldable pub sign_event : Text → Bunker → Result RpcError Text × Bunker
  unfolding ensure_handshake call
  sign_event unsigned = command (Request.sign_event unsigned) as_event

  unfoldable pub nip44_encrypt : Text → Text → Bunker → Result RpcError Text × Bunker
  unfolding ensure_handshake call
  nip44_encrypt other content = command (Request.nip44_encrypt other content) as_ciphertext

  unfoldable pub nip44_decrypt : Text → Text → Bunker → Result RpcError Text × Bunker
  unfolding ensure_handshake call
  nip44_decrypt other payload = command (Request.nip44_decrypt other payload) as_plaintext

  unfoldable pub nip04_encrypt : Text → Text → Bunker → Result RpcError Text × Bunker
  nip04_encrypt other content s = (err nip04_unsupported, s)

  unfoldable pub nip04_decrypt : Text → Text → Bunker → Result RpcError Text × Bunker
  nip04_decrypt other encrypted_content s = (err nip04_unsupported, s)

  -- best effort: a relay that cannot be added is passed over
  unfoldable pub add_relays : List Text → Bunker → Bunker
  unfolding client_add_relay
  add_relays [] s = s
  add_relays (relay ∷ relays) s = add_relays relays (client_add_relay net relay s).1

  -- the background task between the requests
  unfoldable pub hear : Event → Bunker → Bunker
  unfolding dispatch_response decode
  hear event s = record s { pending = dispatch_response (decode net s.app_keys) event s.pending }

  -- the relays in the answer to `switch_relays`
  unfoldable pub read_relays : SerdeJson → Text → Message → Result RpcError (List Text)
  unfolding check_response or_rpc_error relay_result get_value
  read_relays json id msg = do
    is_response ← check_response id msg
    body ← or_rpc_error (json.from_str (net.as_json msg)) bad_envelope
    relay_result (get_value (text "result") body)

  unfoldable pub refresh_relays : SerdeJson → Bunker → Result RpcError (List Text) × Bunker
  unfolding rpc_raw refresh_id switch_payload read_relays
  refresh_relays json s =
      let id = refresh_id (net.nanos s.exchanges) (net.refresh_count s.exchanges) in
      continue (rpc_raw net id (switch_payload id) s) (λ msg t. (read_relays json id msg, t))
