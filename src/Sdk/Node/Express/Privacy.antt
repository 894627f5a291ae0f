-- ===== src/Sdk/Node/Express/Privacy.antt =====
-- Which bodies leave the process.
use bataudit.Prelude.{ℕ, String, ◌≡◌, false, Option, List}
use bataudit.Prelude.Json.{Json}
use bataudit.Sdk.Node.Types.{BatAuditConfig, property_or}
use bataudit.Sdk.Node.Express.{Request, Response, handle}

-- With `captureBody` and `captureResponseBody` off, or not given, what the middleware does is the
-- same for any two requests that differ in their bodies alone: neither the request's body nor any
-- that the application answers with reaches the header or the event.
pub handle_private :
    (config : BatAuditConfig) (uuid : String) (started ended : ℕ) (timestamp : String)
    (req : Request) (res : Response) (body : Option Json) (bodies : List Json)
    → property_or config.capture_body false ≡ false
    → property_or config.capture_response_body false ≡ false
    → handle config uuid started ended timestamp
        (record req { body = body })
        (record res { json_bodies = bodies })
      ≡ handle config uuid started ended timestamp req res
unfolding handle
handle_private config uuid started ended timestamp req res body bodies off off' = rw (off, off')
