-- ===== src/Nip46/Pair/Accept/Chosen.antt =====
-- src/nip46/pair.rs: the wait accepts the first signer in time that echoes the secret.
use narwal_publisher.Prelude.{
  ℕ, ◌≤◌, ◌≡◌, ◌↔◌, ◌⊎◌, inl, inr, refl, ap, sym, subst, ◌∙◌, List, [], ◌∷◌, Option, none, some,
  Text, text, text_eq, text_eq_iff, ltb, Result, ok, arith, Bool-cases, ltb→ge, ltb→lt,
  ok-injective,
}
use narwal_publisher.Nip46.Session.{Json, get_value, as_str, SerdeJson}
use narwal_publisher.Nip46.Transport.{Keys, Event, Network, decrypt_from}
use narwal_publisher.Nip46.Pair.Accept.{
  WaitError, Received, received, closed, elapsed, Round, accept_result, accept_body,
  accept_plaintext, try_accept_response, or_next, judge, await_connect_response,
}

pub some-injective : {A : Type 0} (a b : A) → some a ≡ some b → a ≡ b
some-injective a b h = cc

module _ (net : Network) (json : SerdeJson) (app_keys : Keys) (secret : Text) where
  -- the event can be decrypted, and is JSON whose `result` is the secret of this run
  pub record Echoes (event : Event) : Type 0 where
    pub plaintext : Text
    pub body : Json
    pub decrypts : net.decrypt app_keys.secret_key event.pubkey event.content ≡ some plaintext
    pub parses : json.from_str plaintext ≡ some body
    pub echoed : as_str (get_value (text "result") body) ≡ some secret

  -- the author of the first event in time that echoes the secret
  pub data Chosen (deadline : ℕ) (pk : Text) : List Round → Type 0 where
    first :
        {r : Round} {rounds : List Round} (event : Event)
        → r.got ≡ received event
        → r.now ≤ deadline
        → Echoes event
        → pk ≡ event.pubkey
        → Chosen deadline pk (r ∷ rounds)
    later :
        {r : Round} {rounds : List Round} (event : Event)
        → r.got ≡ received event
        → r.now ≤ deadline
        → ¬ Echoes event
        → Chosen deadline pk rounds
        → Chosen deadline pk (r ∷ rounds)

  -- either the event echoes the secret, and its author is accepted, or it is passed over
  pub data Judged (event : Event) : Option Text → Type 0 where
    accepted : Echoes event → Judged event (some event.pubkey)
    passed_over : ¬ Echoes event → Judged event none

  Echoes-parses :
      (event : Event) (plaintext : Text) (x : Echoes event)
      → net.decrypt app_keys.secret_key event.pubkey event.content ≡ some plaintext
      → json.from_str plaintext ≡ some x.body
  Echoes-parses event plaintext x d =
      ap json.from_str (some-injective plaintext x.plaintext (sym d ∙ x.decrypts)) ∙ x.parses

  Echoes-echoed :
      (event : Event) (plaintext : Text) (body : Json) (x : Echoes event)
      → net.decrypt app_keys.secret_key event.pubkey event.content ≡ some plaintext
      → json.from_str plaintext ≡ some body
      → as_str (get_value (text "result") body) ≡ some secret
  Echoes-echoed event plaintext body x d p =
      ap (λ v. as_str (get_value (text "result") v))
        (some-injective body x.body (sym p ∙ Echoes-parses event plaintext x d))
      ∙ x.echoed

  judge_text :
      (event : Event) (plaintext : Text) (body : Json) (o : Option Text)
      → net.decrypt app_keys.secret_key event.pubkey event.content ≡ some plaintext
      → json.from_str plaintext ≡ some body
      → as_str (get_value (text "result") body) ≡ o
      → Judged event (accept_result secret event.pubkey o)
  unfolding accept_result
  judge_text event plaintext body none d p e =
      passed_over (λ x. cc (Echoes-echoed event plaintext body x d p, e))
  judge_text event plaintext body (some s) d p e = elim (Bool-cases (text_eq s secret)) [
    | inl same ↦ rw same (
        accepted (record {
          plaintext = plaintext;
          body = body;
          decrypts = d;
          parses = p;
          echoed = e ∙ ap some ((text_eq_iff s secret).0 same);
        }))
    | inr differs ↦ rw differs (
        passed_over (λ x. cc (
          (text_eq_iff s secret).1
              (some-injective s secret (sym e ∙ Echoes-echoed event plaintext body x d p)),
          differs,
        )))
  ]

  judge_body :
      (event : Event) (plaintext : Text) (o : Option Json)
      → net.decrypt app_keys.secret_key event.pubkey event.content ≡ some plaintext
      → json.from_str plaintext ≡ o
      → Judged event (accept_body net json app_keys secret event o)
  unfolding accept_body
  judge_body event plaintext none d p = passed_over (λ x. cc (Echoes-parses event plaintext x d, p))
  judge_body event plaintext (some body) d p =
      judge_text event plaintext body (as_str (get_value (text "result") body)) d p refl

  judge_plaintext :
      (event : Event) (o : Option Text)
      → net.decrypt app_keys.secret_key event.pubkey event.content ≡ o
      → Judged event (accept_plaintext net json app_keys secret event o)
  unfolding accept_plaintext
  judge_plaintext event none d = passed_over (λ x. cc (x.decrypts, d))
  judge_plaintext event (some plaintext) d =
      judge_body event plaintext (json.from_str plaintext) d refl

  judged : (event : Event) → Judged event (try_accept_response net json app_keys secret event)
  unfolding try_accept_response decrypt_from
  judged event =
      judge_plaintext event (net.decrypt app_keys.secret_key event.pubkey event.content) refl

  -- what a chosen key says of the first round
  first_round :
      (deadline : ℕ) (pk : Text) (r : Round) (rounds : List Round)
      → Chosen deadline pk (r ∷ rounds)
      → (event : Event) × (r.got ≡ received event)
        × (r.now ≤ deadline)
        × ((Echoes event × (pk ≡ event.pubkey)) ⊎ ((¬ Echoes event) × Chosen deadline pk rounds))
  first_round deadline pk r rounds (first event e n x same) = (event, e, n, inl (x, same))
  first_round deadline pk r rounds (later event e n x c) = (event, e, n, inr (x, c))

  same_event : (r : Round) (a b : Event) → r.got ≡ received a → r.got ≡ received b → a ≡ b
  same_event r a b x y = cc

  or_first :
      (deadline : ℕ) (pk : Text) (r : Round) (rounds : List Round) (event : Event) (o : Option Text)
      (rest : Result WaitError Text)
      → r.got ≡ received event
      → r.now ≤ deadline
      → Judged event o
      → (rest ≡ ok pk ↔ Chosen deadline pk rounds)
      → (or_next net json app_keys secret o rest ≡ ok pk) ↔ Chosen deadline pk (r ∷ rounds)
  or_first deadline pk r rounds event o rest e n (accepted x) ih = (
    λ h. first event e n x (sym (ok-injective h)),
    λ c.
        let (other, f, _, which) = first_round deadline pk r rounds c in
        elim which [
          | inl (_, same) ↦
              ap ok (ap (λ (v : Event). v.pubkey) (same_event r event other e f) ∙ sym same)
          | inr (silent, _) ↦ absurd (silent (subst Echoes (same_event r event other e f) x))
        ],
  )
  or_first deadline pk r rounds event o rest e n (passed_over x) ih = (
    λ h. later event e n x (ih.0 h),
    λ c.
        let (other, f, _, which) = first_round deadline pk r rounds c in
        elim which [
          | inl (echoes, _) ↦ absurd (x (subst Echoes (same_event r other event f e) echoes))
          | inr (_, c') ↦ ih.1 c'
        ],
  )

  judge_round :
      (deadline : ℕ) (pk : Text) (r : Round) (rounds : List Round) (g : Received)
      (rest : Result WaitError Text)
      → r.got ≡ g
      → r.now ≤ deadline
      → (rest ≡ ok pk ↔ Chosen deadline pk rounds)
      → (judge net json app_keys secret g rest ≡ ok pk) ↔ Chosen deadline pk (r ∷ rounds)
  unfolding judge
  judge_round deadline pk r rounds (received event) rest e n ih =
      or_first deadline pk r rounds event (try_accept_response net json app_keys secret event) rest
        e n (judged event) ih
  judge_round deadline pk r rounds closed rest e n ih =
      (λ h. cc, λ c. let (_, f, _, _) = first_round deadline pk r rounds c in cc (e, f))
  judge_round deadline pk r rounds elapsed rest e n ih =
      (λ h. cc, λ c. let (_, f, _, _) = first_round deadline pk r rounds c in cc (e, f))

  -- The wait ends with a signer's key exactly if an event that comes in time, before the stream
  -- closes, can be decrypted and holds JSON whose `result` is the secret of this run; the key is the
  -- author of the first such event.
  pub await_connect_response_iff :
      (deadline : ℕ) (pk : Text) (rounds : List Round)
      → (await_connect_response net json app_keys secret deadline rounds ≡ ok pk)
        ↔ Chosen deadline pk rounds
  unfolding await_connect_response
  await_connect_response_iff deadline pk [] = (λ h. cc, λ c. elim c [ ])
  await_connect_response_iff deadline pk (r ∷ rounds) = elim (Bool-cases (ltb deadline r.now)) [
    | inl late ↦ rw late (
      λ h. cc,
      λ c.
          let (_, _, n, _) = first_round deadline pk r rounds c in
          absurd (omega (arith, n, ltb→lt deadline r.now late)),
    )
    | inr early ↦ rw early (
        judge_round deadline pk r rounds r.got
          (await_connect_response net json app_keys secret deadline rounds) refl
          (ltb→ge deadline r.now early) (await_connect_response_iff deadline pk rounds))
  ]
