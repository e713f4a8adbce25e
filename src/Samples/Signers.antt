-- ===== src/Samples/Signers.antt =====
-- Samples for src/nip46/signer.rs: a signer that acknowledges, knows its key, and answers at once.
use narwal_publisher.Prelude.{
  ◌≡◌, ◌↔◌, refl, ℕ, suc, ◌+◌, ◌*◌, ◌/◌, List, [], ◌∷◌, Bool, true, false, none, some, Text, text,
  text_eq, length, ok, err, arith,
}
use narwal_publisher.Prelude.Membership.{mem, get}
use narwal_publisher.Nip46.Signer.{
  Message, response, Method, Response, ResponseResult, ack, public_key, signed_event, bunker_failed,
  response_to_result, or_rpc_error, dispatch_all, dispatch_response, dispatch_message, complete,
  drop_id, check_error, is_auth, has_error, ok_result,
}
use narwal_publisher.Nip46.Signer.Poll.{
  wait_for_any_connection, Waited, wait_for_any_connection_ends,
}
use narwal_publisher.Nip46.Signer.Errors.{reported, Holds, response_to_result_iff}
use narwal_publisher.Nip46.Transport.{
  Keys, Event, Request, typed, Exchange, sent, Network, Bunker, rpc_raw, rpc, method,
  ensure_started, start, start_relays, client_add_relay, wait_connected, subscribe_responses,
  build_event, encrypt_to, sign_with, send_request, open_channel, await_response, decode,
  decrypt_from, forget_id,
}
use narwal_publisher.Nip46.Bunker.{unused}
use narwal_publisher.Nip46.Operations.{user_public_key, sign_event, ensure_handshake, call}
use narwal_publisher.Nip46.Protocol.{ordered}
use narwal_publisher.Nip46.Protocol.Reach.{
  here, next, finds_key, signs, commands_after_ack, user_public_key_once,
}
use narwal_publisher.Nip46.Protocol.Answer.{is_err, outcome, rpc_raw_ends}

abbrev pub answer_to : List Exchange → List Event
answer_to (sent (typed id req) output ∷ es) = record { pubkey = text "b"; content = id } ∷ []
answer_to _ = []

abbrev result_for : Method → ResponseResult
result_for Method.get_public_key = public_key (text "u")
result_for Method.sign_event = signed_event (text "e")
result_for _ = ack

-- the content of an event is the id that it answers
abbrev pub network : Network
network = record {
  encrypt = λ key recipient payload. some (text "c");
  decrypt = λ key sender content. some content;
  from_json = λ id. some (response id (some (text "ok")) none);
  to_response = λ msg method.
      some (record { is_auth_url = false; error = none; result = some (result_for method) });
  as_json = λ msg. [];
  sign_with_keys = λ keys content. true;
  add_relay = λ es relay. true;
  relay_states = λ es k. (text "wss://a", true) ∷ [];
  clock = λ es k. 250 * k;
  subscribe = λ es. true;
  send_event = λ es content. some (text "wss://a" ∷ []);
  notifications = answer_to;
  fresh_id = λ es. length es ∷ [];
  nanos = λ es. none;
  refresh_count = λ es. 0;
}

abbrev pub app_keys : Keys
app_keys = record { secret_key = text "s"; public_key = text "p" }

abbrev from_url : Bunker
from_url = unused app_keys (text "b") (text "wss://a" ∷ []) (some (text "token"))

key_found : (user_public_key network from_url).0 ≡ ok (text "u")
unfolding user_public_key ensure_handshake call rpc method response_to_result rpc_raw ensure_started
    start start_relays client_add_relay mem wait_connected subscribe_responses build_event
    encrypt_to sign_with or_rpc_error send_request open_channel await_response dispatch_all decode
    dispatch_response dispatch_message complete drop_id text_eq decrypt_from get check_error is_auth
    has_error ok_result forget_id
key_found = refl

commands_after_ack_example :
    ordered network (sign_event network (text "e") (user_public_key network from_url).1).1.exchanges
    ≡ true
commands_after_ack_example =
    commands_after_ack network app_keys (text "b") (text "wss://a" ∷ []) (text "token")
      (next (next here finds_key) (signs (text "e")))

abbrev after_signing : Bunker
after_signing = (sign_event network (text "e") (user_public_key network from_url).1).1

user_public_key_once_example :
    user_public_key network after_signing ≡ (ok (text "u"), after_signing)
user_public_key_once_example =
    user_public_key_once network from_url (text "u") key_found (next here (signs (text "e")))

abbrev running : Bunker
running = record from_url { started = true }

rpc_raw_ends_example :
    ((rpc_raw network (text "7") (typed (text "7") Request.get_public_key) running).0
      ≡ outcome network
          (text "7")
          (typed (text "7") Request.get_public_key)
          (some (text "wss://a" ∷ []))
          running)
    × (mem
          (text "7")
          (rpc_raw network
            (text "7")
            (typed (text "7") Request.get_public_key)
            running).1.pending.waiting
        ≡ is_err (rpc_raw network (text "7") (typed (text "7") Request.get_public_key) running).0)
rpc_raw_ends_example =
    rpc_raw_ends network (text "7") (typed (text "7") Request.get_public_key) (text "c") running
      refl refl refl

abbrev no_permission : Message
no_permission = response (text "7") (some []) (some (text "no permission"))

response_to_result_iff_example :
    ((response_to_result network.to_response no_permission Method.sign_event ≡ ok ack) ↔ (
      (reported no_permission ≡ none)
      × ((res : Response) × (network.to_response no_permission Method.sign_event ≡ some res)
          × Holds res ack)))
    × (reported no_permission ≡ some (text "no permission")
        → response_to_result network.to_response no_permission Method.sign_event
          ≡ err (bunker_failed (text "no permission")))
response_to_result_iff_example =
    response_to_result_iff network.to_response no_permission Method.sign_event ack
      (text "no permission")

-- a relay that comes up at the third poll
abbrev slow_relay : ℕ → List (Text × Bool)
slow_relay (suc (suc k)) = (text "wss://a", true) ∷ []
slow_relay k = (text "wss://a", false) ∷ []

abbrev ticking : ℕ → ℕ
ticking k = 250 * k

wait_for_any_connection_ends_example :
    (found : List Text) × (wait_for_any_connection slow_relay ticking (suc (suc (5000 / 250))) 5000
      ≡ some found)
    × Waited slow_relay ticking (ticking 0 + 5000) found 0
wait_for_any_connection_ends_example =
    wait_for_any_connection_ends slow_relay ticking 5000 (omega arith) (λ j. omega arith)
