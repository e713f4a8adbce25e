-- ===== src/Nip46/Transport.antt =====
-- src/nip46/signer.rs: the remote signer's state, its connection and one round trip. What the relays,
-- the clock and the crates answer is a function of the exchanges so far, the latest first. A key is
-- its hexadecimal text.

use narwal_publisher.Prelude.{
  ℕ, suc, ◌*◌, ◌/◌, List, [], ◌∷◌, ◌++◌, Bool, true, false, Option, none, some, Text, text_eq,
  Result, ok, err, if◌then◌else◌,
}
use narwal_publisher.Prelude.Effects.{◌>>=◌, return}
use narwal_publisher.Prelude.Membership.{mem, get}
use narwal_publisher.Nip46.Session.{Json}
use narwal_publisher.Nip46.Signer.{
  Message, Method, Response, RpcError, bad_relay, subscribe_failed, encrypt_failed, signing_failed,
  send_failed, reached_no_relay, timed_out, or_rpc_error, Pending, drop_id, dispatch_all,
}
use narwal_publisher.Nip46.Signer.Poll.{wait_for_any_connection}

pub record Keys : Type 0 where
  pub secret_key : Text
  pub public_key : Text

pub record Event : Type 0 where
  pub pubkey : Text
  pub content : Text

-- `NostrConnectRequest`
pub data Request : Type 0 where
  connect : Text → Option Text → Request
  get_public_key : Request
  sign_event : Text → Request
  nip44_encrypt nip44_decrypt : Text → Text → Request

-- what a request is serialized from: a typed request under its id, or a JSON value
pub data Payload : Type 0 where
  typed : Text → Request → Payload
  untyped : Json → Payload

unfoldable pub method : Request → Method
method (connect _ _) = Method.connect
method get_public_key = Method.get_public_key
method (sign_event _) = Method.sign_event
method (nip44_encrypt _ _) = Method.nip44_encrypt
method (nip44_decrypt _ _) = Method.nip44_decrypt

-- one exchange with the outside and what came back
pub data Exchange : Type 0 where
  added : Text → Bool → Exchange
  waited : Option (List Text) → Exchange
  subscribed : Bool → Exchange
  -- a request, and the relays that took it, `none` for an error
  sent : Payload → Option (List Text) → Exchange
  answered : Text → Option Message → Exchange

-- The crates and the network. `event_content` is the ciphertext of an event that could be signed.
pub record Network : Type 0 where
  pub encrypt : Text → Text → Payload → Option Text
  pub decrypt : Text → Text → Text → Option Text
  pub from_json : Text → Option Message
  pub to_response : Message → Method → Option Response
  pub as_json : Message → Text
  pub sign_with_keys : Keys → Text → Bool
  pub add_relay : List Exchange → Text → Bool
  pub relay_states : List Exchange → ℕ → List (Text × Bool)
  pub clock : List Exchange → ℕ → ℕ
  pub subscribe : List Exchange → Bool
  pub send_event : List Exchange → Text → Option (List Text)
  -- the events that the background task handles until the time limit of a request
  pub notifications : List Exchange → List Event
  pub fresh_id : List Exchange → Text
  -- the time since 1970, and the counter of the process for `refresh_relays`
  pub nanos : List Exchange → Option ℕ
  pub refresh_count : List Exchange → ℕ

-- `struct BunkerSigner`, with the relays of its client and the exchanges so far
pub record Bunker : Type 0 where
  pub app_keys : Keys
  pub bunker_pubkey : Text
  pub relays : List Text
  pub app_secret : Option Text
  pub started : Bool
  pub handshook : Bool
  pub user_pubkey : Option Text
  pub pending : Pending
  pub pool : List Text
  pub exchanges : List Exchange

abbrev pub note : Exchange → Bunker → Bunker
note exchange s = record s { exchanges = exchange ∷ s.exchanges }

-- the wait for a first connection, in milliseconds
abbrev pub first_connection_budget : ℕ
first_connection_budget = 5 * 1000

unfoldable pub forget_id {ℓ} : {V : Type ℓ} → Text → List (Text × V) → List (Text × V)
forget_id id [] = []
forget_id id ((i, v) ∷ m) =
    let rest = forget_id id m in if text_eq id i then rest else (i, v) ∷ rest

-- `pending.insert(id, tx)` of a new channel
unfoldable pub open_channel : Text → Pending → Pending
unfolding drop_id forget_id
open_channel id p = record {
  waiting = id ∷ drop_id id p.waiting;
  completed = forget_id id p.completed;
}

module _ (net : Network) where
  -- `client.add_relay`, which leaves a relay that is there
  unfoldable pub client_add_relay : Text → Bunker → Bool × Bunker
  unfolding mem
  client_add_relay relay s =
      let done = net.add_relay s.exchanges relay in
      (
        done,
        note (added relay done) (
            if done
            then record s { pool = if mem relay s.pool then s.pool else s.pool ++ relay ∷ [] }
            else s),
      )

  abbrev pub or_bad_relay : Text → Bool × Bunker → Result RpcError (Unit {0}) × Bunker
  or_bad_relay relay (true, s) = (ok tt, s)
  or_bad_relay relay (false, s) = (err (bad_relay relay), s)

  -- `for relay in &self.relays`
  unfoldable pub start_relays : List Text → Bunker → Result RpcError (Unit {0}) × Bunker
  unfolding client_add_relay
  start_relays [] = return tt
  start_relays (relay ∷ relays) = do
    done ← λ s. or_bad_relay relay (client_add_relay relay s)
    start_relays relays

  unfoldable pub wait_connected : Bunker → Bunker
  unfolding wait_for_any_connection
  wait_connected s =
      note
        (waited (
          wait_for_any_connection (net.relay_states s.exchanges) (net.clock s.exchanges)
            (suc (suc (first_connection_budget / 250))) first_connection_budget))
        s

  unfoldable pub subscribe_responses : Bunker → Result RpcError (Unit {0}) × Bunker
  subscribe_responses s =
      let done = net.subscribe s.exchanges in
      (if done then ok tt else err subscribe_failed, note (subscribed done) s)

  unfoldable pub start : Bunker → Result RpcError (Unit {0}) × Bunker
  unfolding start_relays wait_connected subscribe_responses
  start = do
    relays_added ← λ s. start_relays s.relays s
    listening ← λ s. subscribe_responses (wait_connected s)
    λ s. (ok tt, record s { started = true })

  abbrev pub start_unless : Bool → Bunker → Result RpcError (Unit {0}) × Bunker
  start_unless true s = (ok tt, s)
  start_unless false s = start s

  -- `self.started.get_or_try_init`
  unfoldable pub ensure_started : Bunker → Result RpcError (Unit {0}) × Bunker
  unfolding start
  ensure_started s = start_unless s.started s

  unfoldable pub encrypt_to : Keys → Text → Payload → Result RpcError Text
  unfolding or_rpc_error
  encrypt_to sender recipient payload =
      or_rpc_error (net.encrypt sender.secret_key recipient payload) encrypt_failed

  unfoldable pub decrypt_from : Keys → Text → Text → Option Text
  decrypt_from recipient sender payload = net.decrypt recipient.secret_key sender payload

  -- an event as the message that it carries, for `dispatch_response`
  unfoldable pub decode : Keys → Event → Option Message
  unfolding decrypt_from
  decode app_keys event = elim (decrypt_from app_keys event.pubkey event.content) [
    | none ↦ none
    | some plaintext ↦ net.from_json plaintext
  ]

  abbrev pub sent_result : Text → Option (List Text) → Result RpcError (Unit {0})
  sent_result id none = err send_failed
  sent_result id (some []) = err (reached_no_relay id)
  sent_result id (some (relay ∷ relays)) = ok tt

  unfoldable pub sign_with : Keys → Text → Result RpcError Text
  sign_with keys ciphertext =
      if net.sign_with_keys keys ciphertext then ok ciphertext else err signing_failed

  unfoldable pub build_event : Payload → Bunker → Result RpcError Text × Bunker
  unfolding encrypt_to sign_with
  build_event payload = do
    ciphertext ← λ s. (encrypt_to s.app_keys s.bunker_pubkey payload, s)
    λ s. (sign_with s.app_keys ciphertext, s)

  unfoldable pub send_request : Text → Payload → Text → Bunker → Result RpcError (Unit {0}) × Bunker
  unfolding open_channel
  send_request id payload ciphertext s =
      let output = net.send_event s.exchanges ciphertext in
      (
        sent_result id output,
        note (sent payload output) (record s { pending = open_channel id s.pending }),
      )

  -- `timeout(RPC_TIMEOUT, rx)`. A channel of a request that waits is never dropped.
  unfoldable pub await_response : Text → Bunker → Result RpcError Message × Bunker
  unfolding dispatch_all decode get or_rpc_error
  await_response id s =
      let after = dispatch_all (decode s.app_keys) (net.notifications s.exchanges) s.pending in
      let reply = get id after.completed in
      (or_rpc_error reply (timed_out id), note (answered id reply) (record s { pending = after }))

  unfoldable pub rpc_raw : Text → Payload → Bunker → Result RpcError Message × Bunker
  unfolding ensure_started build_event send_request await_response
  rpc_raw id payload = do
    running ← ensure_started
    ciphertext ← build_event payload
    published ← send_request id payload ciphertext
    await_response id

  unfoldable pub rpc : Request → Bunker → Result RpcError Message × Bunker
  unfolding rpc_raw
  rpc req s = let id = net.fresh_id s.exchanges in rpc_raw id (typed id req) s
