-- ===== src/Nip46/Protocol/Rounds.antt =====
-- src/nip46/signer.rs: one round trip keeps what the signer has reached.
use narwal_publisher.Prelude.{
  ◌≡◌, refl, sym, ap, ◌∙◌, List, [], ◌∷◌, Bool, true, false, Option, none, some, Text, Result, ok,
  arith,
}
use narwal_publisher.Prelude.Effects.{continue, continue-eq-ok}
use narwal_publisher.Nip46.Signer.{Message, RpcError, timed_out, or_rpc_error}
use narwal_publisher.Nip46.Transport.{
  Payload, Exchange, sent, answered, Network, Bunker, client_add_relay, or_bad_relay, start_relays,
  wait_connected, subscribe_responses, start, start_unless, ensure_started, build_event,
  send_request, await_response, rpc_raw,
}
use narwal_publisher.Nip46.Protocol.{
  is_command, has_secret, acked, ordered, Later, Later-refl, Later-continue,
}

module _ (net : Network) where
  -- an exchange that is no command
  pub client_add_relay-Later :
      (relay : Text) (s : Bunker) → Later net true s (client_add_relay net relay s).1
  unfolding client_add_relay acked ordered
  client_add_relay-Later relay s = ground arith

  or_bad_relay-Later :
      (relay : Text) (s : Bunker) (p : Bool × Bunker)
      → Later net true s p.1
      → Later net true s (or_bad_relay net relay p).1
  or_bad_relay-Later relay s (true, t) x = x
  or_bad_relay-Later relay s (false, t) x = x

  start_relays-Later :
      (relays : List Text) (s : Bunker) → Later net true s (start_relays net relays s).1
  unfolding start_relays
  start_relays-Later [] s = Later-refl net true s
  start_relays-Later (relay ∷ relays) s =
      Later-continue net true s (or_bad_relay net relay (client_add_relay net relay s))
        (λ _. start_relays net relays)
        (or_bad_relay-Later relay s (client_add_relay net relay s) (client_add_relay-Later relay s))
        (λ _ t _ _. start_relays-Later relays t)

  subscribe-Later :
      (s : Bunker) → Later net true s (subscribe_responses net (wait_connected net s)).1
  unfolding subscribe_responses wait_connected acked ordered
  subscribe-Later s = ground arith

  set_started-Later : (s : Bunker) → Later net true s (record s { started = true })
  set_started-Later s = ground arith

  start_unless-Later : (b : Bool) (s : Bunker) → Later net true s (start_unless net b s).1
  unfolding start
  start_unless-Later true s = Later-refl net true s
  start_unless-Later false s =
      Later-continue net true s (start_relays net s.relays s) _ (start_relays-Later s.relays s)
        (λ _ t _ _.
          Later-continue net true t (subscribe_responses net (wait_connected net t)) _
            (subscribe-Later t) (λ _ u _ _. set_started-Later u))

  ensure_started-Later : (s : Bunker) → Later net true s (ensure_started net s).1
  unfolding ensure_started
  ensure_started-Later s = start_unless-Later s.started s

  build_event-same : (payload : Payload) (s : Bunker) → (build_event net payload s).1 ≡ s
  unfolding build_event
  build_event-same payload s = ground arith

  -- a command goes out only behind the handshake, where there is one
  abbrev pub Allowed : Payload → Bunker → Type 0
  Allowed payload s =
      is_command payload ≡ true → has_secret s.app_secret ≡ true → s.handshook ≡ true

  send_request-Later :
      (id : Text) (payload : Payload) (content : Text) (s : Bunker)
      → Allowed payload s
      → Later net true s (send_request net id payload content s).1
  unfolding send_request acked ordered
  send_request-Later id payload content s allowed = ground arith

  await_response-Later : (id : Text) (s : Bunker) → Later net true s (await_response net id s).1
  unfolding await_response acked ordered
  await_response-Later id s = ground arith

  build_event-Later :
      (payload : Payload) (s : Bunker) → Later net true s (build_event net payload s).1
  build_event-Later payload s = rw (build_event-same payload s) (Later-refl net true s)

  Allowed-Later :
      (payload : Payload) (s t : Bunker)
      → Later net true s t
      → Allowed payload s
      → Allowed payload t
  Allowed-Later payload s t x allowed =
      λ c g. x.handshook_kept (allowed c (ap has_secret (sym x.same_secret) ∙ g))

  pub rpc_raw-Later :
      (id : Text) (payload : Payload) (s : Bunker)
      → Allowed payload s
      → Later net true s (rpc_raw net id payload s).1
  unfolding rpc_raw
  rpc_raw-Later id payload s allowed =
      Later-continue net true s (ensure_started net s) _ (ensure_started-Later s) (λ _ t x _.
        Later-continue net true t (build_event net payload t) _ (build_event-Later payload t)
          (λ content u y _.
            Later-continue net true u (send_request net id payload content u) _
              (send_request-Later id payload content u
                (Allowed-Later payload t u y (Allowed-Later payload s t x allowed)))
              (λ _ v _ _. await_response-Later id v)))

  -- the last two exchanges of a round trip that got an answer
  pub record Answered (id : Text) (payload : Payload) (msg : Message) (t : Bunker) : Type 0 where
    pub output : Option (List Text)
    pub older : List Exchange
    pub last : t.exchanges ≡ answered id (some msg) ∷ sent payload output ∷ older

  or_rpc_error-eq-ok :
      {A : Type 0} (o : Option A) (e : RpcError) (a : A) → or_rpc_error o e ≡ ok a → o ≡ some a
  unfolding or_rpc_error
  or_rpc_error-eq-ok none e a h = cc
  or_rpc_error-eq-ok (some b) e a h = cc

  await_response-exchanges :
      (id : Text) (msg : Message) (v : Bunker)
      → (await_response net id v).0 ≡ ok msg
      → (await_response net id v).1.exchanges ≡ answered id (some msg) ∷ v.exchanges
  unfolding await_response
  await_response-exchanges id msg v h =
      ap (λ reply. answered id reply ∷ v.exchanges) (or_rpc_error-eq-ok _ (timed_out id) msg h)

  send_then_await :
      (id : Text) (payload : Payload) (content : Text) (msg : Message) (u : Bunker)
      (p : Result RpcError Message × Bunker)
      → p ≡ continue (send_request net id payload content u) (λ _. await_response net id)
      → p.0 ≡ ok msg
      → Answered id payload msg p.1
  send_then_await id payload content msg u p e h =
      let (_, _, f) =
        continue-eq-ok (send_request net id payload content u) (λ _. await_response net id)
          (ap (λ (q : Result RpcError Message × Bunker). q.0) (sym e) ∙ h) in
      let v : Bunker = (send_request net id payload content u).1 in
      record {
        output = net.send_event u.exchanges content;
        older = u.exchanges;
        last =
            ap (λ (q : Result RpcError Message × Bunker). q.1.exchanges) (e ∙ f)
            ∙ await_response-exchanges id msg v
                (ap (λ (q : Result RpcError Message × Bunker). q.0) (sym (e ∙ f)) ∙ h)
            ∙ ap (◌∷◌ (answered id (some msg))) (unfold send_request in refl);
      }

  pub rpc_raw-Answered :
      (id : Text) (payload : Payload) (msg : Message) (s : Bunker)
      → (rpc_raw net id payload s).0 ≡ ok msg
      → Answered id payload msg (rpc_raw net id payload s).1
  unfolding rpc_raw
  rpc_raw-Answered id payload msg s h =
      let (_, _, e) = continue-eq-ok (ensure_started net s) _ h in
      let t : Bunker = (ensure_started net s).1 in
      let (content, _, f) =
        continue-eq-ok (build_event net payload t) _
          (ap (λ (q : Result RpcError Message × Bunker). q.0) (sym e) ∙ h) in
      send_then_await id payload content msg (build_event net payload t).1
        (rpc_raw net id payload s) (e ∙ f) h
