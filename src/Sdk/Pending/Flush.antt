-- ===== src/Sdk/Pending/Flush.antt =====
-- `flush` of sdks/node/src/client.ts while promises are made and settle.
use bataudit.Prelude.{ℕ, ◌<◌, ◌≡◌, true, ◌⊎◌}
use bataudit.Sdk.Pending.{Promises, has}

-- A promise has settled, or is in the set.
IsKnown : ℕ → Promises → Type 0
IsKnown p s = (has p s.settled ≡ true) ⊎ (has p s.pending ≡ true)

-- The set has no promise that was not made, and every promise that was made is known.
IsTracked : Promises → Type 0
IsTracked s = ((p : ℕ) → p < s.made → IsKnown p s) × ((p : ℕ) → has p s.pending ≡ true → p < s.made)
