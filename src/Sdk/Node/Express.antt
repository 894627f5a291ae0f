-- ===== src/Sdk/Node/Express.antt =====
-- sdks/node/src/middleware/express.ts. The wall clock is not assumed to stand still, but not to go
-- back between the start of a request and its end.
pub mod Privacy
use Prim.Native.Nat.{◌-◌}
use bataudit.Prelude.{
  ℕ, String, Bool, false, Option, none, some, List, [], ◌∷◌, if◌then◌else◌, ◌or_else◌,
}
use bataudit.Prelude.Json.{Json, Fields, end, field}
use bataudit.Sdk.Node.Types.{
  Environment, prod, BatAuditConfig, BatAuditRequestData, AuditEvent, property_or,
}
use bataudit.Sdk.Node.Client.{generate_request_id}

-- The value of a header, of a name that comes once or several times.
pub data HeaderValue : Type 0 where
  one : String → HeaderValue
  many : List String → HeaderValue

pub record Request : Type 0 where
  pub method : String
  pub path : String
  pub x_request_id : Option HeaderValue
  pub user_agent : Option String
  pub ip : Option String
  pub remote_address : Option String
  pub query : Fields
  pub params : Fields
  pub body : Option Json

-- What is known when the response is finished. `bataudit` is what the application has put on the
-- request; `json_bodies` are the arguments of its calls of `res.json`, in their order.
pub record Response : Type 0 where
  pub status_code : ℕ
  pub bataudit : Option BatAuditRequestData
  pub json_bodies : List Json

-- `typeof incoming === 'string' ? incoming : client.generateRequestId()`
unfoldable pub request_id : Option HeaderValue → String → String
request_id (some (one id)) uuid = id
request_id _ uuid = generate_request_id uuid

-- `Object.keys(fields).length > 0 ? fields : undefined`
unfoldable pub non_empty : Fields → Option Fields
non_empty end = none
non_empty (field k v fs) = some (field k v fs)

abbrev pub no_user : BatAuditRequestData
no_user = record {
  identifier = none;
  user_email = none;
  user_name = none;
  user_roles = none;
  user_type = none;
  tenant_id = none;
}

-- The variable `responseBody` after the calls of the wrapped `res.json`: the last one's argument.
unfoldable pub last_body : Option Json → List Json → Option Json
last_body seen [] = seen
last_body seen (b ∷ bs) = last_body (some b) bs

abbrev pub first_of_ip : Option String → Option String → Option String
first_of_ip (some ip) address = some ip
first_of_ip none address = address

-- The event that the listener of `finish` sends.
unfoldable pub finish_event :
    BatAuditConfig → String → (started ended : ℕ) → String → Request → Response → AuditEvent
unfolding request_id non_empty last_body
finish_event config uuid started ended timestamp req res =
    let user = res.bataudit or_else no_user in
    let capture_body = property_or config.capture_body false in
    let capture_response_body = property_or config.capture_response_body false in
    record {
      id = none;
      method = req.method;
      path = req.path;
      status_code = some res.status_code;
      response_time = some (ended - started);
      identifier = user.identifier or_else "anonymous";
      user_email = user.user_email;
      user_name = user.user_name;
      user_roles = user.user_roles;
      user_type = user.user_type;
      tenant_id = user.tenant_id;
      ip = first_of_ip req.ip req.remote_address;
      user_agent = req.user_agent;
      request_id = some (request_id req.x_request_id uuid);
      query_params = non_empty req.query;
      path_params = non_empty req.params;
      request_body = if capture_body then req.body else none;
      response_body = if capture_response_body then last_body none res.json_bodies else none;
      error_message = none;
      service_name = config.service_name;
      environment = property_or config.environment prod;
      timestamp = timestamp;
    }

pub data Action : Type 0 where
  set_header : String → String → Action
  call_next : Action
  send : AuditEvent → Action

-- A whole request: the header is set before the next handler runs, the event is sent when the
-- response is finished.
unfoldable pub handle :
    BatAuditConfig → String → (started ended : ℕ) → String → Request → Response → List Action
unfolding finish_event
handle config uuid started ended timestamp req res =
    set_header "X-Request-ID" (request_id req.x_request_id uuid)
    ∷ call_next
    ∷ send (finish_event config uuid started ended timestamp req res)
    ∷ []
