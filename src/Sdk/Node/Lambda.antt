-- ===== src/Sdk/Node/Lambda.antt =====
-- sdks/node/src/lambda.ts: the wrapper round a handler. The handler, `getAuditData` and the clock
-- are arguments. An explicit `undefined` for a property that an event must have is left out of the
-- model; the wall clock does not go back while the handler runs.
pub mod Report
use Prim.Native.Nat.{◌-◌}
use bataudit.Prelude.{
  ℕ, String, Bool, true, false, Option, none, some, List, [], ◌∷◌, if◌then◌else◌, ◌or_else◌,
}
use bataudit.Prelude.Json.{Json, Fields}
use bataudit.Sdk.Node.Types.{Environment, prod, BatAuditConfig, AuditEvent, property_or}

-- A thrown value: an `Error` with its message, or any other value, truthy or falsy.
pub data Thrown : Type 0 where
  an_error : String → Thrown
  a_value : Bool → Thrown

-- How a promise ends.
pub data Completion (A : Type 0) : Type 0 where
  returns : A → Completion A
  throws : Thrown → Completion A

-- `Partial<AuditEvent>`: `none` where the property is absent.
pub record AuditPatch : Type 0 where
  pub id : Option (Option String)
  pub method : Option String
  pub path : Option String
  pub status_code : Option (Option ℕ)
  pub response_time : Option (Option ℕ)
  pub identifier : Option String
  pub user_email : Option (Option String)
  pub user_name : Option (Option String)
  pub user_roles : Option (Option (List String))
  pub user_type : Option (Option String)
  pub tenant_id : Option (Option String)
  pub ip : Option (Option String)
  pub user_agent : Option (Option String)
  pub request_id : Option (Option String)
  pub query_params : Option (Option Fields)
  pub path_params : Option (Option Fields)
  pub request_body : Option (Option Json)
  pub response_body : Option (Option Json)
  pub error_message : Option (Option String)
  pub service_name : Option String
  pub environment : Option Environment
  pub timestamp : Option String

-- `{}`
abbrev pub no_patch : AuditPatch
no_patch = record {
  id = none;
  method = none;
  path = none;
  status_code = none;
  response_time = none;
  identifier = none;
  user_email = none;
  user_name = none;
  user_roles = none;
  user_type = none;
  tenant_id = none;
  ip = none;
  user_agent = none;
  request_id = none;
  query_params = none;
  path_params = none;
  request_body = none;
  response_body = none;
  error_message = none;
  service_name = none;
  environment = none;
  timestamp = none;
}

-- `{ ...event, ...patch }`
unfoldable pub spread : AuditEvent → AuditPatch → AuditEvent
spread e p = record {
  id = p.id or_else e.id;
  method = p.method or_else e.method;
  path = p.path or_else e.path;
  status_code = p.status_code or_else e.status_code;
  response_time = p.response_time or_else e.response_time;
  identifier = p.identifier or_else e.identifier;
  user_email = p.user_email or_else e.user_email;
  user_name = p.user_name or_else e.user_name;
  user_roles = p.user_roles or_else e.user_roles;
  user_type = p.user_type or_else e.user_type;
  tenant_id = p.tenant_id or_else e.tenant_id;
  ip = p.ip or_else e.ip;
  user_agent = p.user_agent or_else e.user_agent;
  request_id = p.request_id or_else e.request_id;
  query_params = p.query_params or_else e.query_params;
  path_params = p.path_params or_else e.path_params;
  request_body = p.request_body or_else e.request_body;
  response_body = p.response_body or_else e.response_body;
  error_message = p.error_message or_else e.error_message;
  service_name = p.service_name or_else e.service_name;
  environment = p.environment or_else e.environment;
  timestamp = p.timestamp or_else e.timestamp;
}

-- `handlerError ? 500 : 200`, where `null` stands for no error.
unfoldable pub status_of : Option Thrown → ℕ
status_of none = 200
status_of (some (an_error message)) = 500
status_of (some (a_value truthy)) = if truthy then 500 else 200

-- `handlerError instanceof Error ? handlerError.message : undefined`
unfoldable pub message_of : Option Thrown → Option String
message_of (some (an_error message)) = some message
message_of _ = none

-- The properties that the wrapper fills in.
unfoldable pub default_event :
    BatAuditConfig → (started ended : ℕ) → String → Option Thrown → AuditEvent
unfolding status_of message_of
default_event config started ended timestamp error = record {
  id = none;
  method = "POST";
  path = "/lambda";
  status_code = some (status_of error);
  response_time = some (ended - started);
  identifier = "anonymous";
  user_email = none;
  user_name = none;
  user_roles = none;
  user_type = none;
  tenant_id = none;
  ip = none;
  user_agent = none;
  request_id = none;
  query_params = none;
  path_params = none;
  request_body = none;
  response_body = none;
  error_message = message_of error;
  service_name = config.service_name;
  environment = property_or config.environment prod;
  timestamp = timestamp;
}

pub data Action : Type 0 where
  send : AuditEvent → Action
  flush : Action

-- `result` and `handlerError` after the handler has run, `null` where they were not assigned.
abbrev pub result_of : {A : Type 0} → Completion A → Option A
result_of (returns a) = some a
result_of (throws e) = none

abbrev pub error_of : {A : Type 0} → Completion A → Option Thrown
error_of (returns a) = none
error_of (throws e) = some e

-- `getAuditData?.(…) ?? {}`
abbrev pub patch_of :
    {E R : Type 0}
    → Option (E → Option R → Option Thrown → Completion AuditPatch)
    → E
    → Completion R
    → Completion AuditPatch
patch_of none event done = returns no_patch
patch_of (some get_audit_data) event done = get_audit_data event (result_of done) (error_of done)

-- The `finally` block: what it does, and how the wrapped call ends. A value that the block throws
-- replaces what the handler returned or threw.
unfoldable pub finally :
    {R : Type 0}
    → (AuditPatch → AuditEvent)
    → Completion AuditPatch
    → Completion R
    → Completion R × List Action
finally event (returns patch) done = (done, send (event patch) ∷ flush ∷ [])
finally event (throws e) done = (throws e, [])

-- The wrapped handler.
unfoldable pub wrap :
    {E R : Type 0}
    → BatAuditConfig
    → (handler : E → Completion R)
    → (get_audit_data : Option (E → Option R → Option Thrown → Completion AuditPatch))
    → (started ended : ℕ) → (timestamp : String) → E
    → Completion R × List Action
unfolding finally spread default_event
wrap config handler get_audit_data started ended timestamp event =
    let done = handler event in
    finally (spread (default_event config started ended timestamp (error_of done)))
      (patch_of get_audit_data event done) done
