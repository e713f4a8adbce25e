-- ===== src/Closure/Graph.antt =====
-- src/closure.rs: what the closure of the inputs is.
use narwal_publisher.Prelude.{◌≡◌, List, Text, Result, ok}
use narwal_publisher.Prelude.Membership.{Has}
use narwal_publisher.Closure.{ClosureEntry, ClosureError}

-- the hash parts that references lead to from the roots
pub data Reach (scan : Text → Result ClosureError ClosureEntry) (roots : List Text)
    : Text → Type 0 where
  root : {x : Text} → Has roots x → Reach scan roots x
  step :
      {x : Text} (u : Text) (entry : ClosureEntry)
      → Reach scan roots u
      → scan u ≡ ok entry
      → Has entry.references x
      → Reach scan roots x
