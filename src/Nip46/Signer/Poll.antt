-- ===== src/Nip46/Signer/Poll.antt =====
-- src/nip46/signer.rs: `wait_for_any_connection`. The clock stands at `now 0`, in
-- milliseconds, when the deadline is set; poll number `k` sees the relays as `relays k` and then the
-- clock at `now (suc k)`, and sleeps for 250 ms before the next poll.
use narwal_publisher.Prelude.{
  ℕ, zero, suc, ◌+◌, ◌*◌, ◌/◌, ◌≤◌, ◌<◌, ◌≡◌, inl, inr, refl, List, [], ◌∷◌, Bool, true, false,
  Option, none, some, Text, leb, arith, if◌then◌else◌, Bool-cases, leb→le, le→leb, leb→gt,
}

-- `relays().filter(is_connected)`
unfoldable pub connected_of : List (Text × Bool) → List Text
connected_of [] = []
connected_of ((url, up) ∷ rest) = let more = connected_of rest in if up then url ∷ more else more

abbrev pub is_nil : List Text → Bool
is_nil [] = true
is_nil (x ∷ xs) = false

module _ (relays : ℕ → List (Text × Bool)) (now : ℕ → ℕ) where
  -- the loop, from poll `k` on
  unfoldable pub poll_from : ℕ → ℕ → ℕ → Option (List Text)
  unfolding connected_of
  poll_from zero deadline k = none
  poll_from (suc rounds) deadline k =
      let rest = poll_from rounds deadline (suc k) in
      if is_nil (connected_of (relays k))
      then if leb deadline (now (suc k)) then some [] else rest
      else some (connected_of (relays k))

  -- `deadline = Instant::now() + budget`, before the loop
  unfoldable pub wait_for_any_connection : ℕ → ℕ → Option (List Text)
  unfolding poll_from
  wait_for_any_connection rounds budget = poll_from rounds (now 0 + budget) 0

  -- how a wait that started at poll `k` ends: with the relays of the first poll that saw one up,
  -- before which no poll was at the deadline, or with none, at the first poll at the deadline
  pub data Waited (deadline : ℕ) (found : List Text) : ℕ → Type 0 where
    up :
        {k : ℕ}
        → is_nil (connected_of (relays k)) ≡ false
        → found ≡ connected_of (relays k)
        → Waited deadline found k
    late :
        {k : ℕ}
        → is_nil (connected_of (relays k)) ≡ true
        → deadline ≤ now (suc k)
        → found ≡ []
        → Waited deadline found k
    again :
        {k : ℕ}
        → is_nil (connected_of (relays k)) ≡ true
        → now (suc k) < deadline
        → Waited deadline found (suc k)
        → Waited deadline found k

  poll_from_ends :
      (rounds deadline k : ℕ)
      → ((j : ℕ) → now (suc j) + 250 ≤ now (suc (suc j)))
      → deadline ≤ now (suc k) + rounds * 250
      → (found : List Text) × (poll_from (suc rounds) deadline k ≡ some found)
        × Waited deadline found k
  unfolding poll_from
  poll_from_ends zero deadline k sleeps enough =
      elim (Bool-cases (is_nil (connected_of (relays k)))) [
        | inr seen ↦ (connected_of (relays k), rw (seen) refl, up seen refl)
        | inl down ↦ (
          [],
          rw (down, le→leb deadline (now (suc k)) (omega arith)) refl,
          late down (omega arith) refl,
        )
      ]
  poll_from_ends (suc rounds) deadline k sleeps enough =
      elim (Bool-cases (is_nil (connected_of (relays k)))) [
        | inr seen ↦ (connected_of (relays k), rw (seen) refl, up seen refl)
        | inl down ↦ elim (Bool-cases (leb deadline (now (suc k)))) [
          | inl over ↦
              ([], rw (down, over) refl, late down (leb→le deadline (now (suc k)) over) refl)
          | inr early ↦
              let (found, ends, waited) =
                poll_from_ends rounds deadline (suc k) sleeps (omega (arith, sleeps k)) in
              (
                found,
                rw (down, early) ends,
                again down (leb→gt deadline (now (suc k)) early) waited,
              )
        ]
      ]

  -- Where the clock does not run back and each sleep takes its 250 ms, the wait ends within a number
  -- of polls that the budget bounds: one for each whole 250 ms of it, and two more. What it returns
  -- are the relays that the first poll saw which saw any, unless an earlier poll was at the deadline
  -- without one: then it returns none.
  pub wait_for_any_connection_ends :
      (budget : ℕ)
      → now 0 ≤ now 1
      → ((j : ℕ) → now (suc j) + 250 ≤ now (suc (suc j)))
      → (found : List Text) × (wait_for_any_connection (suc (suc (budget / 250))) budget
          ≡ some found)
        × Waited (now 0 + budget) found 0
  unfolding wait_for_any_connection
  wait_for_any_connection_ends budget later sleeps =
      poll_from_ends (suc (budget / 250)) (now 0 + budget) 0 sleeps (omega arith)
