-- ===== src/Nip46/Signer.antt =====
-- src/nip46/signer.rs: how a response reaches the request that waits for it, and what is made of it.
-- Decryption and the message format are parameters.
pub mod Dispatch
pub mod Poll
pub mod Errors
use narwal_publisher.Prelude.{
  List, [], ◌∷◌, Bool, true, false, not, Option, none, some, Text, text, text_eq, Result, ok, err,
  ◌>>=◌, if◌then◌else◌,
}
use narwal_publisher.Prelude.Membership.{mem}

-- `NostrConnectMessage`
pub data Message : Type 0 where
  request : Text → Message
  response : Text → Option Text → Option Text → Message

-- `NostrConnectMethod`
pub data Method : Type 0 where
  connect get_public_key sign_event nip44_encrypt nip44_decrypt : Method

-- `ResponseResult`; what the program never asks for is `other_result`
pub data ResponseResult : Type 0 where
  ack : ResponseResult
  public_key signed_event ciphertext plaintext : Text → ResponseResult
  other_result : ResponseResult

-- `NostrConnectResponse`
pub record Response : Type 0 where
  pub is_auth_url : Bool
  pub error : Option Text
  pub result : Option ResponseResult

pub data RpcError : Type 0 where
  invalid_url not_bunker no_signer_pubkey no_relays : RpcError
  bad_app_secret bad_bunker_pubkey bad_user_pubkey : RpcError
  bad_relay : Text → RpcError
  subscribe_failed encrypt_failed signing_failed send_failed : RpcError
  reached_no_relay timed_out : Text → RpcError
  unexpected_response : RpcError
  bad_envelope bad_entry unexpected_relays : RpcError
  nip04_unsupported : RpcError
  bunker_failed : Text → RpcError
  bad_response : RpcError
  needs_approval : RpcError
  empty_response : RpcError

unfoldable pub has_error : Option Text → Option Text
has_error none = none
has_error (some []) = none
has_error (some (c ∷ cs)) = some (c ∷ cs)

unfoldable pub is_auth : Option Text → Bool
is_auth none = false
is_auth (some result) = text_eq result (text "auth_url")

-- the check before the result is parsed
unfoldable pub check_error : Message → Result RpcError (Unit {0})
unfolding has_error is_auth
check_error (request id) = ok tt
check_error (response id result error) =
    if is_auth result
    then ok tt
    else elim (has_error error) [ none ↦ ok tt | some e ↦ err (bunker_failed e) ]

unfoldable pub or_rpc_error {ℓ} : {A : Type ℓ} → Option A → RpcError → Result RpcError A
or_rpc_error none e = err e
or_rpc_error (some a) e = ok a

unfoldable pub ok_result : Response → Result RpcError ResponseResult
unfolding or_rpc_error
ok_result res = if res.is_auth_url then err needs_approval else elim res.error [
  | some e ↦ err (bunker_failed e)
  | none ↦ or_rpc_error res.result empty_response
]

-- `to_response` parses the result for the method of the request
unfoldable pub response_to_result :
    (Message → Method → Option Response) → Message → Method → Result RpcError ResponseResult
unfolding check_error or_rpc_error ok_result
response_to_result to_response msg method = do
  no_error ← check_error msg
  res ← or_rpc_error (to_response msg method) bad_response
  ok_result res

-- the ids of the requests that wait, and the messages that were sent to them
pub record Pending : Type 0 where
  pub waiting : List Text
  pub completed : List (Text × Message)

unfoldable pub drop_id : Text → List Text → List Text
drop_id id [] = []
drop_id id (i ∷ ids) = let rest = drop_id id ids in if text_eq id i then rest else i ∷ rest

-- `pending.remove(msg.id())`, and the message to the request that was found
unfoldable pub complete : Text → Message → Pending → Pending
unfolding mem drop_id
complete id msg s =
    if mem id s.waiting
    then record { waiting = drop_id id s.waiting; completed = (id, msg) ∷ s.completed }
    else s

unfoldable pub dispatch_message : Option Message → Pending → Pending
unfolding complete
dispatch_message none s = s
dispatch_message (some (request id)) s = s
dispatch_message (some (response id result error)) s = complete id (response id result error) s

-- `decode` decrypts an event and reads its message, `none` if either fails
module _ {Event : Type 0} (decode : Event → Option Message) where
  unfoldable pub dispatch_response : Event → Pending → Pending
  unfolding dispatch_message
  dispatch_response event s = dispatch_message (decode event) s

  -- the notifications of a run, one after the other
  unfoldable pub dispatch_all : List Event → Pending → Pending
  unfolding dispatch_response
  dispatch_all [] s = s
  dispatch_all (event ∷ events) s = dispatch_all events (dispatch_response event s)
