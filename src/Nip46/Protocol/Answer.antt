-- ===== src/Nip46/Protocol/Answer.antt =====
-- src/nip46/signer.rs: how a request of a started signer ends, and what it leaves pending.
use narwal_publisher.Prelude.{
  ◌≡◌, refl, sym, ap, subst, ◌∙◌, List, [], ◌∷◌, Bool, true, false, Option, none, some, Text,
  text_eq_iff, Result, ok, err, arith,
}
use narwal_publisher.Prelude.Effects.{continue, continue_after}
use narwal_publisher.Prelude.Membership.{mem, Has, get}
use narwal_publisher.Nip46.Signer.{
  Message, RpcError, timed_out, send_failed, reached_no_relay, or_rpc_error, Pending,
}
use narwal_publisher.Nip46.Signer.Dispatch.{
  first_answer, dispatch_all_first, is_none, dispatch_all-waiting,
}
use narwal_publisher.Nip46.Transport.{
  Payload, sent, Network, Bunker, forget_id, open_channel, start_unless, ensure_started, decode,
  build_event, sign_with, encrypt_to, send_request, await_response, rpc_raw,
}

get-forget_id : {V : Type 0} (id : Text) (m : List (Text × V)) → get id (forget_id id m) ≡ none
unfolding get forget_id
get-forget_id id [] = refl
get-forget_id id ((i, v) ∷ m) = ground (arith, get-forget_id id m)

open_channel_waits : (id : Text) (p : Pending) → Has (open_channel id p).waiting id
unfolding open_channel mem
open_channel_waits id p = rw ((text_eq_iff id id).1 refl) refl

open_channel_fresh : (id : Text) (p : Pending) → get id (open_channel id p).completed ≡ none
unfolding open_channel
open_channel_fresh id p = get-forget_id id p.completed

abbrev pub is_err : {A : Type 0} → Result RpcError A → Bool
is_err (ok a) = false
is_err (err e) = true

module _ (net : Network) where
  -- the first response with the id among the events that are handled until the time limit
  abbrev pub reply_of : Text → Payload → Option (List Text) → Bunker → Option Message
  reply_of id payload output s =
      first_answer (decode net s.app_keys) id
        (net.notifications (sent payload output ∷ s.exchanges))

  ends : (id : Text) (o : Option Message) → is_err (or_rpc_error o (timed_out id)) ≡ is_none o
  unfolding or_rpc_error
  ends id none = refl
  ends id (some msg) = refl

  started_already : (s : Bunker) → s.started ≡ true → ensure_started net s ≡ (ok tt, s)
  unfolding ensure_started
  started_already s running = ap (λ b. start_unless net b s) running

  event_built :
      (payload : Payload) (content : Text) (s : Bunker)
      → net.encrypt s.app_keys.secret_key s.bunker_pubkey payload ≡ some content
      → net.sign_with_keys s.app_keys content ≡ true
      → build_event net payload s ≡ (ok content, s)
  unfolding build_event encrypt_to sign_with or_rpc_error
  event_built payload content s encrypts signs = ground arith

  rpc_raw_started :
      (id : Text) (payload : Payload) (content : Text) (s : Bunker)
      → s.started ≡ true
      → net.encrypt s.app_keys.secret_key s.bunker_pubkey payload ≡ some content
      → net.sign_with_keys s.app_keys content ≡ true
      → rpc_raw net id payload s
        ≡ continue (send_request net id payload content s) (λ _. await_response net id)
  unfolding rpc_raw
  rpc_raw_started id payload content s running encrypts signs =
      continue_after (ensure_started net s) _ tt s (started_already s running)
      ∙ continue_after (build_event net payload s) _ content s
          (event_built payload content s encrypts signs)

  -- the first response, or that none came in time
  abbrev in_time : Text → Option Message → Result RpcError Message
  in_time id none = err (timed_out id)
  in_time id (some msg) = ok msg

  -- how a request ends, by the relays that took its event: `none` where sending failed
  abbrev pub outcome : Text → Payload → Option (List Text) → Bunker → Result RpcError Message
  outcome id payload none s = err send_failed
  outcome id payload (some []) s = err (reached_no_relay id)
  outcome id payload (some (relay ∷ relays)) s =
      in_time id (reply_of id payload (some (relay ∷ relays)) s)

  answered : (id : Text) (o : Option Message) → or_rpc_error o (timed_out id) ≡ in_time id o
  unfolding or_rpc_error
  answered id none = refl
  answered id (some msg) = refl

  after_sending :
      (id : Text) (payload : Payload) (content : Text) (s : Bunker) (output : Option (List Text))
      → net.send_event s.exchanges content ≡ output
      → let p : Result RpcError Message × Bunker =
          continue (send_request net id payload content s) (λ _. await_response net id) in
        (p.0 ≡ outcome id payload output s) × (mem id p.1.pending.waiting ≡ is_err p.0)
  unfolding send_request await_response
  after_sending id payload content s none e = rw e (refl, open_channel_waits id s.pending)
  after_sending id payload content s (some []) e = rw e (refl, open_channel_waits id s.pending)
  after_sending id payload content s (some (relay ∷ relays)) e =
      rw e
        let events = net.notifications (sent payload (some (relay ∷ relays)) ∷ s.exchanges) in
          let channel = open_channel id s.pending in
          let waits = open_channel_waits id s.pending in
          let first =
            dispatch_all_first (decode net s.app_keys) id events channel waits
              (open_channel_fresh id s.pending) in
          (
            ap (λ o. or_rpc_error o (timed_out id)) first ∙ answered id _,
            dispatch_all-waiting (decode net s.app_keys) id events channel waits
                ∙ sym (ends id (first_answer (decode net s.app_keys) id events))
                ∙ ap (λ o. is_err (or_rpc_error o (timed_out id))) (sym first),
          )

  -- A request of a started signer, whose event could be built, gets the first response with its id
  -- among the events that are handled until the time limit, where some relay took it and there is
  -- one; with no relay it fails, with no such response it times out. It is still pending afterwards
  -- exactly if it failed.
  pub rpc_raw_ends :
      (id : Text) (payload : Payload) (content : Text) (s : Bunker)
      → s.started ≡ true
      → net.encrypt s.app_keys.secret_key s.bunker_pubkey payload ≡ some content
      → net.sign_with_keys s.app_keys content ≡ true
      → ((rpc_raw net id payload s).0 ≡ outcome id payload (net.send_event s.exchanges content) s)
        × (mem id (rpc_raw net id payload s).1.pending.waiting
            ≡ is_err (rpc_raw net id payload s).0)
  rpc_raw_ends id payload content s running encrypts signs =
      subst
        (λ (p : Result RpcError Message × Bunker).
          (p.0 ≡ outcome id payload (net.send_event s.exchanges content) s)
          × (mem id p.1.pending.waiting ≡ is_err p.0))
        (sym (rpc_raw_started id payload content s running encrypts signs))
        (after_sending id payload content s (net.send_event s.exchanges content) refl)
