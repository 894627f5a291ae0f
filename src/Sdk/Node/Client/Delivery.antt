-- ===== src/Sdk/Node/Client/Delivery.antt =====
-- What one call of `_sendWithRetry` posts, and how long it waits.
use bataudit.Prelude.{
  ℕ, zero, suc, ◌+◌, ◌*◌, ◌≤◌, ◌<◌, ◌≡◌, refl, ◌⊎◌, inl, inr, Bool, true, false, Bool-cases, Option,
  some, List, [], ◌∷◌, take, get_elem?, arith, ℕ_discrete, ◌or_else◌,
}
use bataudit.Sdk.Network.{Reply, answered, failed, is_ok, Effect, post, sleep}
use bataudit.Sdk.Node.Types.{AuditEvent}
use bataudit.Sdk.Node.Client.{Config, retry_delays_ms, post_event, retries, send_with_retry}

-- Whether the writer took the event.
abbrev pub accepts : Reply → Bool
accepts (answered status) = is_ok status
accepts failed = false

-- The last attempt that is made: the first that succeeds, the fourth at the latest.
pub record IsLast (net : ℕ → Reply) (k : ℕ) : Type 0 where
  pub refused : (j : ℕ) → j < k → accepts (net j) ≡ false
  pub ends : (accepts (net k) ≡ true) ⊎ (k ≡ 3)
  pub bounded : k ≤ 3

-- Four posts with the three pauses between them.
abbrev pub schedule : Config → AuditEvent → List (Effect AuditEvent)
schedule c event =
    let p : Effect AuditEvent = post (post_event c event) in
    p ∷ sleep 100 ∷ p ∷ sleep 200 ∷ p ∷ sleep 400 ∷ p ∷ []

retries_step : (r : Reply) (n : ℕ) → n < 3 → accepts r ≡ false → retries r n ≡ true
unfolding retries
retries_step (answered s) n h e = ground arith
retries_step failed n h e = ground arith

retries_stop : (r : Reply) (n : ℕ) → (accepts r ≡ true) ⊎ (n ≡ 3) → retries r n ≡ false
unfolding retries
retries_stop (answered s) n h = ground arith
retries_stop failed n h = ground arith

module _ (c : Config) (net : ℕ → Reply) (event : AuditEvent) where
  abbrev send : ℕ → ℕ → Option (List (Effect AuditEvent))
  send fuel attempt = send_with_retry fuel c net event attempt

  abbrev posting : Effect AuditEvent
  posting = post (post_event c event)

  send_stop : (fuel n : ℕ) → retries (net n) n ≡ false → send (suc fuel) n ≡ some (posting ∷ [])
  unfolding send_with_retry
  send_stop fuel n h = rw h

  send_again :
      (fuel n : ℕ) {rest : List (Effect AuditEvent)}
      → retries (net n) n ≡ true
      → send fuel (n + 1) ≡ some rest
      → send (suc fuel) n ≡ some (posting ∷ sleep (get_elem? retry_delays_ms n or_else 0) ∷ rest)
  unfolding send_with_retry
  send_again fuel n h e = rw (h, e)

  send_last :
      (fuel k : ℕ)
      → IsLast net k
      → send (suc (suc (suc (suc fuel)))) 0 ≡ some (take (2 * k + 1) (schedule c event))
  send_last fuel zero last = send_stop (suc (suc (suc fuel))) 0 (retries_stop _ 0 last.ends)
  send_last fuel (suc zero) last =
      send_again (suc (suc (suc fuel))) 0
        (retries_step _ 0 (omega arith) (last.refused 0 (omega arith)))
        (send_stop (suc (suc fuel)) 1 (retries_stop _ 1 last.ends))
  send_last fuel (suc (suc zero)) last =
      send_again (suc (suc (suc fuel))) 0
        (retries_step _ 0 (omega arith) (last.refused 0 (omega arith)))
        (send_again (suc (suc fuel)) 1
          (retries_step _ 1 (omega arith) (last.refused 1 (omega arith)))
          (send_stop (suc fuel) 2 (retries_stop _ 2 last.ends)))
  send_last fuel (suc (suc (suc zero))) last =
      send_again (suc (suc (suc fuel))) 0
        (retries_step _ 0 (omega arith) (last.refused 0 (omega arith)))
        (send_again (suc (suc fuel)) 1
          (retries_step _ 1 (omega arith) (last.refused 1 (omega arith)))
          (send_again (suc fuel) 2 (retries_step _ 2 (omega arith) (last.refused 2 (omega arith)))
            (send_stop fuel 3 (retries_stop _ 3 last.ends))))
  send_last fuel (suc (suc (suc (suc k)))) last = absurd (omega (arith, last.bounded))

refused_next :
    (net : ℕ → Reply) (n : ℕ)
    → ((j : ℕ) → j < n → accepts (net j) ≡ false)
    → accepts (net n) ≡ false
    → (j : ℕ) → j < suc n
    → accepts (net j) ≡ false
refused_next net n before now j h = elim (ℕ_discrete j n) [
  | yes e ↦ rw e now
  | no ne ↦ before j (omega arith)
]

IsLast-from :
    (net : ℕ → Reply) (left n : ℕ)
    → n + left ≡ 3
    → ((j : ℕ) → j < n → accepts (net j) ≡ false)
    → (k : ℕ) × IsLast net k
IsLast-from net zero n e before =
    (n, record { refused = before; ends = inr (omega arith); bounded = omega arith })
IsLast-from net (suc left) n e before = elim (Bool-cases (accepts (net n))) [
  | inl here ↦ (n, record { refused = before; ends = inl here; bounded = omega arith })
  | inr later ↦ IsLast-from net left (suc n) (omega arith) (refused_next net n before later)
]

-- Whatever the network answers, `_sendWithRetry` comes to an end with fuel 4: there is a last
-- attempt k, the first that the writer accepts with a 2xx status or else the fourth, and what is
-- done is the first k + 1 posts of the event with the pauses 100, 200 and 400 ms between them.
pub send_with_retry-schedule :
    (c : Config) (net : ℕ → Reply) (event : AuditEvent)
    → (k : ℕ) × IsLast net k
      × (send_with_retry 4 c net event 0 ≡ some (take (2 * k + 1) (schedule c event)))
send_with_retry-schedule c net event =
    let (k, last) = IsLast-from net 3 0 refl (λ j h. absurd (omega arith)) in
    (k, last, send_last c net event 0 k last)
