-- ===== src/Sdk/Node/Fastify.antt =====
-- sdks/node/src/middleware/fastify.ts: three hooks, which leave what they learn on the request.
pub mod Parity
use bataudit.Prelude.{
  ℕ, ◌+◌, ◌/◌, String, Bool, false, Option, none, some, if◌then◌else◌, ◌or_else◌,
}
use bataudit.Prelude.Text.{before}
use bataudit.Prelude.Json.{Json, str, Fields, end}
use bataudit.Sdk.Node.Types.{prod, BatAuditConfig, BatAuditRequestData, AuditEvent, property_or}
use bataudit.Sdk.Node.Client.{generate_request_id}
use bataudit.Sdk.Node.Express.{HeaderValue, request_id, non_empty, no_user}

-- `bataudit` is set by the application, the two last fields by the hooks.
pub record FastifyRequest : Type 0 where
  pub method : String
  pub url : String
  pub x_request_id : Option HeaderValue
  pub user_agent : Option String
  pub ip : String
  pub query : Option Fields
  pub params : Option Fields
  pub body : Option Json
  pub bataudit : Option BatAuditRequestData
  pub bat_request_id : Option String
  pub bat_response_body : Option Json

-- `onRequest`, with the id that goes into the header `X-Request-ID` of the reply.
unfoldable pub on_request : String → FastifyRequest → FastifyRequest × String
unfolding request_id
on_request uuid request =
    let id = request_id request.x_request_id uuid in
    (record request { bat_request_id = some id }, id)

-- The value that `onSend` keeps: a text is parsed, or kept as it is where it is no JSON.
unfoldable pub parsed_payload : (String → Option Json) → Json → Json
parsed_payload parse (str s) = parse s or_else str s
parsed_payload parse payload = payload

-- `onSend`; `JSON.parse` is the argument, `none` where it throws. The payload is passed on.
unfoldable pub on_send :
    BatAuditConfig → (String → Option Json) → Json → FastifyRequest → FastifyRequest × Json
unfolding parsed_payload
on_send config parse payload request = (
  if property_or config.capture_response_body false
      then record request { bat_response_body = some (parsed_payload parse payload) }
      else request,
  payload,
)

-- The event of `onResponse`. The elapsed time of the reply is in thousandths of a millisecond.
unfoldable pub on_response :
    BatAuditConfig → String → (status_code elapsed : ℕ) → String → FastifyRequest → AuditEvent
unfolding non_empty before
on_response config uuid status_code elapsed timestamp request =
    let user = request.bataudit or_else no_user in
    let capture_body = property_or config.capture_body false in
    let capture_response_body = property_or config.capture_response_body false in
    record {
      id = none;
      method = request.method;
      path = before b'?' request.url;
      status_code = some status_code;
      response_time = some ((elapsed + 500) / 1000);
      identifier = user.identifier or_else "anonymous";
      user_email = user.user_email;
      user_name = user.user_name;
      user_roles = user.user_roles;
      user_type = user.user_type;
      tenant_id = user.tenant_id;
      ip = some request.ip;
      user_agent = request.user_agent;
      request_id = some (request.bat_request_id or_else generate_request_id uuid);
      query_params = non_empty (request.query or_else end);
      path_params = non_empty (request.params or_else end);
      request_body = if capture_body then request.body else none;
      response_body = if capture_response_body then request.bat_response_body else none;
      error_message = none;
      service_name = config.service_name;
      environment = property_or config.environment prod;
      timestamp = timestamp;
    }

-- A whole request with one payload: the hooks in the order in which the server calls them.
-- `late_uuid` is the id that `onResponse` would make if `onRequest` had left none.
unfoldable pub serve :
    BatAuditConfig
    → (String → Option Json)
    → (uuid late_uuid : String) → Json
    → (status_code elapsed : ℕ) → String
    → FastifyRequest
    → String × AuditEvent
unfolding on_request on_send on_response
serve config parse uuid late_uuid payload status_code elapsed timestamp request =
    let (request', header) = on_request uuid request in
    let (request'', _) = on_send config parse payload request' in
    (header, on_response config late_uuid status_code elapsed timestamp request'')
