-- ===== src/Nip46/Signer/Dispatch.antt =====
-- src/nip46/signer.rs: a request is answered by the first response that carries its id.
use narwal_publisher.Prelude.{
  ◌≡◌, inl, inr, refl, ap, sym, subst, ◌∙◌, List, [], ◌∷◌, Bool, true, false, Option, none, some,
  Text, text_eq, text_eq_iff, arith, if◌then◌else◌, Bool-cases,
}
use narwal_publisher.Prelude.Membership.{mem, Has, Lacks, get}
use narwal_publisher.Nip46.Signer.{
  Message, request, response, Pending, drop_id, complete, dispatch_message, dispatch_response,
  dispatch_all,
}

-- the message, if it is a response with this id
abbrev pub answers : Text → Option Message → Option Message
answers id none = none
answers id (some (request i)) = none
answers id (some (response i result error)) =
    if text_eq id i then some (response i result error) else none

mem-drop_id :
    (x id : Text) (ids : List Text) → text_eq x id ≡ false → mem x (drop_id id ids) ≡ mem x ids
unfolding mem drop_id
mem-drop_id x id [] differs = refl
mem-drop_id x id (i ∷ ids) differs =
    ground
      (arith, mem-drop_id x id ids differs, text_eq_iff x i, text_eq_iff id i, text_eq_iff x id)

Lacks-drop_id : (id : Text) (ids : List Text) → Lacks (drop_id id ids) id
unfolding mem drop_id
Lacks-drop_id id [] = refl
Lacks-drop_id id (i ∷ ids) = ground (arith, Lacks-drop_id id ids, text_eq_iff id i)

-- a message with another id changes nothing for `x`
complete_apart :
    (x id : Text) (msg : Message) (s : Pending)
    → text_eq x id ≡ false
    → (mem x (complete id msg s).waiting ≡ mem x s.waiting)
      × (get x (complete id msg s).completed ≡ get x s.completed)
unfolding complete get
complete_apart x id msg s differs = elim (Bool-cases (mem id s.waiting)) [
  | inl there ↦ rw there (mem-drop_id x id s.waiting differs, rw differs refl)
  | inr absent ↦ rw absent (refl, refl)
]

complete_waiting :
    (id : Text) (msg : Message) (s : Pending)
    → Has s.waiting id
    → Lacks (complete id msg s).waiting id × (get id (complete id msg s).completed ≡ some msg)
unfolding complete get
complete_waiting id msg s there =
    rw there (Lacks-drop_id id s.waiting, rw ((text_eq_iff id id).1 refl) refl)

complete_idle :
    (id : Text) (msg : Message) (s : Pending) → Lacks s.waiting id → complete id msg s ≡ s
unfolding complete
complete_idle id msg s absent = rw (absent, complete) refl

-- one notification, for a request that does not wait
message_idle :
    (x : Text) (m : Option Message) (s : Pending)
    → Lacks s.waiting x
    → Lacks (dispatch_message m s).waiting x
      × (get x (dispatch_message m s).completed ≡ get x s.completed)
unfolding dispatch_message
message_idle x none s idle = (idle, refl)
message_idle x (some (request id)) s idle = (idle, refl)
message_idle x (some (response id result error)) s idle = elim (Bool-cases (text_eq x id)) [
  | inl same ↦
      let e =
        complete_idle id (response id result error) s
          (ap (λ y. mem y s.waiting) (sym ((text_eq_iff x id).0 same)) ∙ idle) in
      (ap (λ (t : Pending). mem x t.waiting) e ∙ idle, ap (λ (t : Pending). get x t.completed) e)
  | inr differs ↦
      let (w, c) = complete_apart x id (response id result error) s differs in (w ∙ idle, c)
]

-- what one notification leaves for a request that waits
abbrev After : Text → Option Message → Pending → Pending → Type 0
After x none s t = Has t.waiting x × (get x t.completed ≡ get x s.completed)
After x (some msg) s t = Lacks t.waiting x × (get x t.completed ≡ some msg)

message_waiting :
    (x : Text) (m : Option Message) (s : Pending)
    → Has s.waiting x
    → After x (answers x m) s (dispatch_message m s)
unfolding dispatch_message
message_waiting x none s waits = (waits, refl)
message_waiting x (some (request id)) s waits = (waits, refl)
message_waiting x (some (response id result error)) s waits = elim (Bool-cases (text_eq x id)) [
  | inl same ↦ rw same (
      subst
        (λ y.
          Lacks (complete id (response id result error) s).waiting y
          × (get y (complete id (response id result error) s).completed
              ≡ some (response id result error)))
        (sym ((text_eq_iff x id).0 same))
        (complete_waiting id (response id result error) s
          (ap (λ y. mem y s.waiting) (sym ((text_eq_iff x id).0 same)) ∙ waits)))
  | inr differs ↦
      let (w, c) = complete_apart x id (response id result error) s differs in
      rw differs (w ∙ waits, c)
]

abbrev pub is_none : Option Message → Bool
is_none none = true
is_none (some msg) = false

module _ {Event : Type 0} (decode : Event → Option Message) where
  -- the first response with the id
  abbrev pub first_answer : Text → List Event → Option Message
  first_answer id [] = none
  first_answer id (event ∷ events) = elim (answers id (decode event)) [
    | some msg ↦ some msg
    | none ↦ first_answer id events
  ]

  dispatch_all_idle :
      (x : Text) (events : List Event) (s : Pending)
      → Lacks s.waiting x
      → get x (dispatch_all decode events s).completed ≡ get x s.completed
  unfolding dispatch_all dispatch_response
  dispatch_all_idle x [] s idle = refl
  dispatch_all_idle x (event ∷ events) s idle =
      let (still, same) = message_idle x (decode event) s idle in
      dispatch_all_idle x events (dispatch_message (decode event) s) still ∙ same

  dispatch_all_done :
      (x : Text) (events : List Event) (s : Pending)
      → Lacks s.waiting x
      → Lacks (dispatch_all decode events s).waiting x
  unfolding dispatch_all dispatch_response
  dispatch_all_done x [] s idle = idle
  dispatch_all_done x (event ∷ events) s idle =
      dispatch_all_done x events (dispatch_message (decode event) s)
        (message_idle x (decode event) s idle).0

  -- A request that waits, and was sent nothing before, is sent the first response with its id among
  -- the notifications, and nothing if there is none: other ids, requests and what cannot be read
  -- leave it alone, and later responses with its id do not replace the first.
  pub dispatch_all_first :
      (x : Text) (events : List Event) (s : Pending)
      → Has s.waiting x
      → get x s.completed ≡ none
      → get x (dispatch_all decode events s).completed ≡ first_answer x events
  unfolding dispatch_all dispatch_response
  dispatch_all_first x [] s waits fresh = fresh
  dispatch_all_first x (event ∷ events) s waits fresh =
      next (answers x (decode event)) (message_waiting x (decode event) s waits)
        (dispatch_all_first x events (dispatch_message (decode event) s))
    where
      next :
          (a : Option Message)
          → After x a s (dispatch_message (decode event) s)
          → (Has (dispatch_message (decode event) s).waiting x
              → get x (dispatch_message (decode event) s).completed ≡ none
              → get x (dispatch_all decode events (dispatch_message (decode event) s)).completed
                ≡ first_answer x events)
          → get x (dispatch_all decode events (dispatch_message (decode event) s)).completed
            ≡ elim a as (λ _. Option Message) [ some msg ↦ some msg | none ↦ first_answer x events ]
      next none (still, same) ih = ih still (same ∙ fresh)
      next (some msg) (idle, sent) ih =
          dispatch_all_idle x events (dispatch_message (decode event) s) idle ∙ sent

  -- a request that waits goes on waiting exactly if no response has its id
  pub dispatch_all-waiting :
      (x : Text) (events : List Event) (s : Pending)
      → Has s.waiting x
      → mem x (dispatch_all decode events s).waiting ≡ is_none (first_answer x events)
  unfolding dispatch_all dispatch_response
  dispatch_all-waiting x [] s waits = waits
  dispatch_all-waiting x (event ∷ events) s waits =
      next (answers x (decode event)) (message_waiting x (decode event) s waits)
        (dispatch_all-waiting x events (dispatch_message (decode event) s))
    where
      next :
          (a : Option Message)
          → After x a s (dispatch_message (decode event) s)
          → (Has (dispatch_message (decode event) s).waiting x
              → mem x (dispatch_all decode events (dispatch_message (decode event) s)).waiting
                ≡ is_none (first_answer x events))
          → mem x (dispatch_all decode events (dispatch_message (decode event) s)).waiting
            ≡ is_none (elim a as (λ _. Option Message) [
              | some msg ↦ some msg
              | none ↦ first_answer x events
            ])
      next none (still, same) ih = ih still
      next (some msg) (idle, sent) ih =
          dispatch_all_done x events (dispatch_message (decode event) s) idle
