-- ===== src/Sockets/Delivery.antt =====
-- Whatever the system answers, a sending loop ends, and passes every item once and in order.
use log_generator.Prelude.Result.{Exception, Result, ok, throws}
use log_generator.Prelude.{
  ℕ, ◌≤◌, ◌<◌, ◌≡◌, Bool, false, List, ◌++◌, map, Option, some, Bytes, All, length, ◌⊎◌, is_empty,
}
use log_generator.Sockets.{Answer, advances, stops}

-- An answer goes on behind an item at least, and not behind more than were offered.
abbrev pub IsHonest : ℕ → Answer → Type 0
IsHonest offered (stops e) = Unit
IsHonest offered (advances n taken) = (0 < n) × (n ≤ offered)

module _ {A : Type 0} where
  -- The items without their notes.
  abbrev pub items_of : List (A × Bool) → List A
  items_of = map (λ p. p.0)

  -- All items were passed, or the loop threw, and passed those in front of the rest.
  abbrev pub Ends : List A → List (A × Bool) × Option (Result (Unit {0})) → Type 0
  Ends items r =
      ((r.1 ≡ some (ok tt)) × (items_of r.0 ≡ items))
      ⊎ ((e : Exception) × (rest : List A) × (r.1 ≡ some (throws e))
          × (items_of r.0 ++ rest ≡ items)
          × (is_empty rest ≡ false))

-- The batch was passed as a whole and no datagram is too large, or the loop threw.
abbrev pub BatchEnds : List Bytes → List (Bytes × Bool) × Option (Result (Unit {0})) → Type 0
BatchEnds payloads r =
    ((r.1 ≡ some (ok tt)) × (items_of r.0 ≡ payloads) × All (λ p. length p ≤ 65507) payloads)
    ⊎ ((e : Exception) × (rest : List Bytes) × (r.1 ≡ some (throws e))
        × (items_of r.0 ++ rest ≡ payloads)
        × (is_empty rest ≡ false))
