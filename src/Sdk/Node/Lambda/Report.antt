-- ===== src/Sdk/Node/Lambda/Report.antt =====
-- What a wrapped Lambda handler returns, and what is reported of it.
use bataudit.Prelude.{
  ℕ, String, ◌≡◌, refl, ◌↔◌, ◌⊎◌, inl, List, Option, some, none, [], ◌∷◌, true, false, arith,
  ◌or_else◌,
}
use Prim.Native.Nat.{◌-◌}
use bataudit.Sdk.Node.Types.{prod, BatAuditConfig, AuditEvent, property_or}
use bataudit.Sdk.Node.Lambda.{
  Completion, returns, throws, Thrown, an_error, a_value, AuditPatch, no_patch, Action, send, flush,
  spread, default_event, error_of, patch_of, finally, wrap,
}

-- The status and the message that stand for the end of a handler: a thrown value that is falsy
-- counts as none.
abbrev pub end_status : {R : Type 0} → Completion R → ℕ
end_status (returns a) = 200
end_status (throws (an_error message)) = 500
end_status (throws (a_value true)) = 500
end_status (throws (a_value false)) = 200

abbrev pub end_message : {R : Type 0} → Completion R → Option String
end_message (throws (an_error message)) = some message
end_message _ = none

-- What is reported, property by property: what the patch gives, and else what stands here.
abbrev pub IsReport :
    {R : Type 0}
    → BatAuditConfig
    → (started ended : ℕ) → (timestamp : String) → Completion R
    → AuditPatch
    → AuditEvent
    → Type 0
IsReport config started ended timestamp done patch e =
    (e.method ≡ (patch.method or_else "POST"))
    × (e.path ≡ (patch.path or_else "/lambda"))
    × (e.status_code ≡ (patch.status_code or_else some (end_status done)))
    × (e.error_message ≡ (patch.error_message or_else end_message done))
    × (e.response_time ≡ (patch.response_time or_else some (ended - started)))
    × (e.identifier ≡ (patch.identifier or_else "anonymous"))
    × (e.service_name ≡ (patch.service_name or_else config.service_name))
    × (e.environment ≡ (patch.environment or_else property_or config.environment prod))
    × (e.timestamp ≡ (patch.timestamp or_else timestamp))
    × (e.id ≡ (patch.id or_else none))
    × (e.user_email ≡ (patch.user_email or_else none))
    × (e.user_name ≡ (patch.user_name or_else none))
    × (e.user_roles ≡ (patch.user_roles or_else none))
    × (e.user_type ≡ (patch.user_type or_else none))
    × (e.tenant_id ≡ (patch.tenant_id or_else none))
    × (e.ip ≡ (patch.ip or_else none))
    × (e.user_agent ≡ (patch.user_agent or_else none))
    × (e.request_id ≡ (patch.request_id or_else none))
    × (e.query_params ≡ (patch.query_params or_else none))
    × (e.path_params ≡ (patch.path_params or_else none))
    × (e.request_body ≡ (patch.request_body or_else none))
    × (e.response_body ≡ (patch.response_body or_else none))

-- How `getAuditData` ends when it is given the event, and the result or the thrown value of the
-- handler; a wrapper without it has the empty patch.
abbrev pub Gives :
    {E R : Type 0}
    → Option (E → Option R → Option Thrown → Completion AuditPatch)
    → E
    → Completion R
    → Completion AuditPatch
    → Type 0
Gives none event done patched = patched ≡ returns no_patch
Gives (some get_audit_data) event (returns a) patched = patched ≡ get_audit_data event (some a) none
Gives (some get_audit_data) event (throws e) patched = patched ≡ get_audit_data event none (some e)

Gives-patch_of :
    {E R : Type 0} (get_audit_data : Option (E → Option R → Option Thrown → Completion AuditPatch))
    (event : E) (done : Completion R) (patched : Completion AuditPatch)
    → Gives get_audit_data event done patched
    → patched ≡ patch_of get_audit_data event done
Gives-patch_of none event done patched g = g
Gives-patch_of (some f) event (returns a) patched g = g
Gives-patch_of (some f) event (throws e) patched g = g

-- What the wrapped call does and how it ends, by how `getAuditData` ends.
abbrev pub Outcome :
    {R : Type 0}
    → BatAuditConfig
    → (started ended : ℕ) → (timestamp : String) → Completion R
    → Completion AuditPatch
    → Completion R × List Action
    → Type 0
Outcome config started ended timestamp done (returns patch) run =
    (e : AuditEvent) × (run ≡ (done, send e ∷ flush ∷ []))
    × IsReport config started ended timestamp done patch e
Outcome config started ended timestamp done (throws e) run = run ≡ (throws e, [])

module _ {E R : Type 0} (config : BatAuditConfig) (handler : E → Completion R)
    (get_audit_data : Option (E → Option R → Option Thrown → Completion AuditPatch))
    (started ended : ℕ) (timestamp : String) (event : E) where
  spread-IsReport :
      (done : Completion R) (patch : AuditPatch)
      → IsReport config started ended timestamp done patch
          (spread (default_event config started ended timestamp (error_of done)) patch)
  unfolding spread default_event
  spread-IsReport (returns a) patch = (
    refl, refl, refl, refl, refl, refl, refl, refl, refl, refl, refl, refl, refl, refl, refl, refl,
    refl, refl, refl, refl, refl, refl,
  )
  spread-IsReport (throws (an_error m)) patch = (
    refl, refl, refl, refl, refl, refl, refl, refl, refl, refl, refl, refl, refl, refl, refl, refl,
    refl, refl, refl, refl, refl, refl,
  )
  spread-IsReport (throws (a_value true)) patch = (
    refl, refl, refl, refl, refl, refl, refl, refl, refl, refl, refl, refl, refl, refl, refl, refl,
    refl, refl, refl, refl, refl, refl,
  )
  spread-IsReport (throws (a_value false)) patch = (
    refl, refl, refl, refl, refl, refl, refl, refl, refl, refl, refl, refl, refl, refl, refl, refl,
    refl, refl, refl, refl, refl, refl,
  )

  finally-Outcome :
      (done : Completion R) (patched : Completion AuditPatch)
      → Outcome config started ended timestamp done patched (
          finally
            (spread (default_event config started ended timestamp (error_of done)))
            patched
            done)
  unfolding finally
  finally-Outcome done (returns patch) = (_, refl, spread-IsReport done patch)
  finally-Outcome done (throws e) = refl

  -- If `getAuditData` returns a patch (or is not given), then the wrapped handler ends as the handler
  -- does, after one event was sent and all pending events were waited for; each property of the
  -- event is the one of the patch, and else has the wrapper's value, of which the status is 200 where the
  -- handler returned or threw a falsy value, and else 500. If it throws, then nothing
  -- is sent, no pending event is waited for, and its exception takes the place of what the handler
  -- returned or threw.
  pub wrap-Outcome :
      (patched : Completion AuditPatch)
      → Gives get_audit_data event (handler event) patched
      → Outcome config started ended timestamp
          (handler event)
          patched
          (wrap config handler get_audit_data started ended timestamp event)
  unfolding wrap
  wrap-Outcome patched g =
      rw (← Gives-patch_of get_audit_data event (handler event) patched g)
        (finally-Outcome (handler event) patched)

-- Without a `status_code` from `getAuditData`, the status that is reported is 200 exactly if the
-- handler returned, or threw a falsy value; in all other cases it is 500.
reported_status :
    {R : Type 0} (config : BatAuditConfig) (started ended : ℕ) (timestamp : String)
    (patch : AuditPatch) (done : Completion R)
    → patch.status_code ≡ none
    → ((spread (default_event config started ended timestamp (error_of done)) patch).status_code
        ≡ some 200)
      ↔ (((a : R) × (done ≡ returns a)) ⊎ (done ≡ throws (a_value false)))
unfolding spread default_event
reported_status config started ended timestamp patch (returns a) h = (λ _. inl (a, refl), λ _. rw h)
reported_status config started ended timestamp patch (throws (an_error m)) h = ground arith
reported_status config started ended timestamp patch (throws (a_value b)) h = ground arith
