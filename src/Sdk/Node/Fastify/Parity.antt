-- ===== src/Sdk/Node/Fastify/Parity.antt =====
-- sdks/node/src/middleware/fastify.ts beside express.ts, for one request.
use Prim.Native.Nat.{◌-◌}
use bataudit.Prelude.{ℕ, String, ◌≡◌, Option, some, none, ◌+◌, ◌/◌, ◌or_else◌, arith}
use bataudit.Prelude.Text.{before}
use bataudit.Prelude.Json.{Json, end}
use bataudit.Sdk.Node.Types.{BatAuditConfig}
use bataudit.Sdk.Node.Express.{Request, Response, last_body, request_id, finish_event}
use bataudit.Sdk.Node.Fastify.{FastifyRequest, parsed_payload, serve}

-- One request, as the two servers present it.
pub record Corresponds (req : Request) (res : Response) (f : FastifyRequest) : Type 0 where
  pub method : f.method ≡ req.method
  pub path : before b'?' f.url ≡ req.path
  pub x_request_id : f.x_request_id ≡ req.x_request_id
  pub user_agent : f.user_agent ≡ req.user_agent
  pub ip : req.ip ≡ some f.ip
  pub query : f.query or_else end ≡ req.query
  pub params : f.params or_else end ≡ req.params
  pub body : f.body ≡ req.body
  pub bataudit : f.bataudit ≡ res.bataudit

-- For a request that both servers present alike, with the same status, the same answered body and
-- the same time in whole milliseconds, the Fastify hooks put the id into the header and send the
-- event that the Express middleware would.
pub serve-finish_event :
    (config : BatAuditConfig) (parse : String → Option Json) (uuid late_uuid : String)
    (payload : Json) (elapsed started ended : ℕ) (timestamp : String) (req : Request)
    (res : Response) (f : FastifyRequest)
    → Corresponds req res f
    → last_body none res.json_bodies ≡ some (parsed_payload parse payload)
    → f.bat_response_body ≡ none
    → ended - started ≡ (elapsed + 500) / 1000
    → serve config parse uuid late_uuid payload res.status_code elapsed timestamp f
      ≡ (request_id req.x_request_id uuid, finish_event config uuid started ended timestamp req res)
unfolding serve finish_event
serve-finish_event config parse uuid late payload elapsed started ended timestamp req res f c b n
      t =
    ground arith
