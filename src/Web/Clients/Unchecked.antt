-- ===== src/Web/Clients/Unchecked.antt =====
-- `revokeWbCode` of frontend/src/http/wallboard.ts and `listReports` of studio.ts, which do not
-- look at the status of the reply.
use bataudit.Prelude.{ℕ, String, ◌≡◌, Option, none, some, [], ◌∷◌, ◌++◌, ◌==◌, false}
use bataudit.Prelude.Json.{Json, Fields, obj, arr, nil, get_field}
use bataudit.Web.Platform.{Platform}
use bataudit.Web.Http.{Request, Server, Browser, ok, get, delete}
use bataudit.Web.Api.{authorised, fetch_with_auth}
use bataudit.Prelude.Text.{◌<>◌}
use bataudit.Web.Clients.Requests.{plain, project_query}
use bataudit.Web.Clients.Studio.{list_reports}
use bataudit.Web.Clients.WallboardCodes.{revoke_wb_code}

-- A server whose replies all have this status and this body.
abbrev pub Answers : ℕ → Option Json → Server → Type 0
Answers status json net =
    (log : _) (q : Request) → net log q ≡ some (record { status = status; json = json })

-- Whatever the status of the reply is, 401 apart, the removal of a wallboard code counts as done.
revoke_wb_code_unchecked :
    (p : Platform) (id : String) (status : ℕ) (json : Option Json) (net : Server) (b : Browser)
    → Answers status json net
    → (status == 401) ≡ false
    → (q : Request) × (revoke_wb_code p id net b ≡ (ok none, record b { sent = b.sent ++ q ∷ [] }))
unfolding revoke_wb_code fetch_with_auth
revoke_wb_code_unchecked p id status json net b h n = (
  authorised b.storage
      (plain delete (p.base <> "/v1/wallboard/token?id=" <> p.encode_uri_component id)),
  rw (h, n),
)

-- A reply whose object has no `data`, with whatever status but 401, counts as an empty list of
-- reports.
list_reports_unchecked :
    (p : Platform) (project_id : Option String) (status : ℕ) (fs : Fields) (net : Server)
    (b : Browser)
    → Answers status (some (obj fs)) net
    → (status == 401) ≡ false
    → get_field "data" fs ≡ none
    → (q : Request) × (list_reports p project_id net b
        ≡ (ok (arr nil), record b { sent = b.sent ++ q ∷ [] }))
unfolding list_reports fetch_with_auth
list_reports_unchecked p project_id status fs net b h n e = (
  authorised b.storage (plain get (p.base <> "/v1/reports" <> project_query p project_id)),
  rw (h, n, e),
)
