-- ===== src/Sdk/Examples.antt =====
-- The theorems of the SDKs at concrete inputs.
use bataudit.Prelude.{
  ℕ, zero, suc, ◌+◌, ◌*◌, String, ◌≡◌, refl, none, some, Option, [], ◌∷◌, take, str_eq,
  if◌then◌else◌,
}
use bataudit.Prelude.Text.{before}
use bataudit.Prelude.Json.{Json, str, num, end, field}
use bataudit.Sdk.Network.{Reply, answered, failed}
use bataudit.Sdk.Pending.{Promises, empty, send, settle, flush}
use bataudit.Sdk.Node.Types.{staging, BatAuditConfig, AuditEvent}
use bataudit.Sdk.Node.Client.{new, send_with_retry}
use bataudit.Sdk.Node.Client.Delivery.{IsLast, schedule, send_with_retry-schedule}
use bataudit.Sdk.Node.Express.{Request, Response, one, handle, last_body, request_id, finish_event}
use bataudit.Sdk.Node.Express.Privacy.{handle_private}
use bataudit.Sdk.Node.Fastify.{FastifyRequest, parsed_payload, serve}
use bataudit.Sdk.Node.Fastify.Parity.{Corresponds, serve-finish_event}
use bataudit.Sdk.Node.Lambda.{
  no_patch, returns, Completion, throws, Thrown, an_error, AuditPatch, wrap,
}
use bataudit.Sdk.Node.Lambda.Report.{Outcome, wrap-Outcome}
use bataudit.Sdk.Browser.Types.{BatAuditBrowserConfig, AuditEvent as PageEvent}
use bataudit.Sdk.Browser.Client.{build_event, new as new_client}

abbrev config : BatAuditConfig
config = record {
  api_key = "key";
  service_name = "shop";
  writer_url = "https://audit.example";
  environment = some (some staging);
  capture_body = none;
  capture_response_body = some none;
}

abbrev request : Request
request = record {
  method = "POST";
  path = "/orders";
  x_request_id = some (one "r-1");
  user_agent = some "curl";
  ip = some "10.0.0.1";
  remote_address = none;
  query = field "page" (str "2") end;
  params = end;
  body = some (str "secret");
}

abbrev response : Response
response = record { status_code = 201; bataudit = none; json_bodies = num 1 ∷ num 2 ∷ [] }

abbrev order_event : AuditEvent
order_event = finish_event config "u-1" 100 130 "2024-05-01T00:00:00Z" request response

-- The first attempt is refused, the second is lost, the third accepted.
abbrev shaky : ℕ → Reply
shaky zero = answered 503
shaky (suc zero) = failed
shaky _ = answered 202

send_with_retry-schedule_example :
    (k : ℕ) × IsLast shaky k
    × (send_with_retry 4 (new config) shaky order_event 0
        ≡ some (take (2 * k + 1) (schedule (new config) order_event)))
send_with_retry-schedule_example = send_with_retry-schedule (new config) shaky order_event

-- Two promises, of which the first has settled.
abbrev two_sent : Promises
two_sent = settle 0 (send (send empty))

-- A third is sent while `flush` waits for the second, which then settles.
abbrev third_sent : Promises
third_sent = settle 1 (send (flush two_sent))

handle_private_example :
    handle config "u-1" 100 130 "2024-05-01T00:00:00Z"
      (record request { body = some (str "other") })
      (record response { json_bodies = [] })
    ≡ handle config "u-1" 100 130 "2024-05-01T00:00:00Z" request response
handle_private_example =
    handle_private config "u-1" 100 130 "2024-05-01T00:00:00Z" request response (some (str "other"))
      [] refl refl

-- The same request as Fastify presents it, with a reply after 29.6 ms.
abbrev fastify_request : FastifyRequest
fastify_request = record {
  method = "POST";
  url = "/orders?page=2";
  x_request_id = some (one "r-1");
  user_agent = some "curl";
  ip = "10.0.0.1";
  query = some (field "page" (str "2") end);
  params = none;
  body = some (str "secret");
  bataudit = none;
  bat_request_id = none;
  bat_response_body = none;
}

abbrev parse_two : String → Option Json
parse_two s = if str_eq s "2" then some (num 2) else none

corresponding : Corresponds request response fastify_request
unfolding before
corresponding = record {
  method = refl;
  path = refl;
  x_request_id = refl;
  user_agent = refl;
  ip = refl;
  query = refl;
  params = refl;
  body = refl;
  bataudit = refl;
}

serve-finish_event_example :
    serve config parse_two "u-1" "u-2" (str "2") 201 29600 "2024-05-01T00:00:00Z" fastify_request
    ≡ (request_id (some (one "r-1")) "u-1", order_event)
unfolding last_body parsed_payload
serve-finish_event_example =
    serve-finish_event config parse_two "u-1" "u-2" (str "2") 29600 100 130 "2024-05-01T00:00:00Z"
      request response fastify_request corresponding refl refl refl

abbrev failing : ℕ → Completion String
failing n = throws (an_error "no stock")

abbrev get_audit_data : ℕ → Option String → Option Thrown → Completion AuditPatch
get_audit_data n result error = returns (record no_patch { path = some "/orders" })

wrap-Outcome_example :
    Outcome config 100 130 "2024-05-01T00:00:00Z"
      (failing 3)
      (get_audit_data 3 none (some (an_error "no stock")))
      (wrap config failing (some get_audit_data) 100 130 "2024-05-01T00:00:00Z" 3)
wrap-Outcome_example =
    wrap-Outcome config failing (some get_audit_data) 100 130 "2024-05-01T00:00:00Z" 3
      (get_audit_data 3 none (some (an_error "no stock"))) refl

abbrev page_config : BatAuditBrowserConfig
page_config = record {
  api_key = "key";
  service_name = "site";
  writer_url = "https://audit.example";
  environment = none;
}

abbrev page_event : PageEvent
page_event = build_event (new_client page_config) (record {
  method = "GET";
  path = "/";
  status_code = some 200;
  response_time = some 30;
  user_agent = none;
  request_id = none;
  timestamp = "2024-05-01T00:00:00Z";
})
