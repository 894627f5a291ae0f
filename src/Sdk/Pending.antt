-- ===== src/Sdk/Pending.antt =====
-- `send` and `flush` of sdks/node/src/client.ts (the same text in sdks/browser/src/client.ts): the
-- set of promises that are pending. A promise is named by a number, in the order of the calls.
pub mod Flush
use bataudit.Prelude.{
  ℕ, suc, ◌+◌, ◌<◌, ◌≡◌, Bool, true, false, not, ◌||◌, List, [], ◌∷◌, ◌++◌, Option, none, some, any,
  keep, ◌==◌, if◌then◌else◌,
}

pub record Promises : Type 0 where
  -- How many promises `send` has made.
  pub made : ℕ
  -- The promises that have settled, in whatever way: what they are, not what the client knows of them.
  pub settled : List ℕ
  -- The set `pending`.
  pub pending : List ℕ
  -- The promises that a `flush` in progress waits for.
  pub awaited : Option (List ℕ)

abbrev pub empty : Promises
empty = record { made = 0; settled = []; pending = []; awaited = none }

abbrev pub has : ℕ → List ℕ → Bool
has p ps = any (λ q. q == p) ps

-- `send`: the promise is put into the set before anything else can run.
unfoldable pub send : Promises → Promises
send s = record s { made = s.made + 1; pending = s.pending ++ s.made ∷ [] }

-- A promise settles, when its `finally`, whatever the outcome was, has taken it out of the set.
unfoldable pub settle : ℕ → Promises → Promises
settle p s = record s { settled = p ∷ s.settled; pending = keep (λ q. not (q == p)) s.pending }

-- `flush` copies the set, and waits for the copy.
unfoldable pub flush : Promises → Promises
flush s = record s { awaited = some s.pending }

-- Whether `Promise.allSettled` of promises resolves: all of them have settled.
abbrev pub all_settled : List ℕ → List ℕ → Bool
all_settled [] settled = true
all_settled (p ∷ ps) settled =
    let rest = all_settled ps settled in if has p settled then rest else false

-- Whether the promise of the `flush` in progress has resolved.
abbrev pub is_done : Promises → Bool
is_done s = elim s.awaited [ none ↦ false | some ps ↦ all_settled ps s.settled ]

-- What can happen, in any order: `send` is called, or a promise that it has made settles.
pub data Step : Promises → Promises → Type 0 where
  sends : (s : Promises) → Step s (send s)
  settles : (s : Promises) (p : ℕ) → p < s.made → Step s (settle p s)

pub data Reach (s : Promises) : Promises → Type 0 where
  here : Reach s s
  next : {t u : Promises} → Reach s t → Step t u → Reach s u
