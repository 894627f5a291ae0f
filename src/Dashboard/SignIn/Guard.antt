-- ===== src/Dashboard/SignIn/Guard.antt =====
-- What signing in and out means for the guard of the pages and for the requests.
use bataudit.Prelude.{String, some, [], ◌∷◌}
use bataudit.Prelude.Text.{◌<>◌}
use bataudit.Prelude.Json.{Json, str}
use bataudit.Web.Platform.{Platform}
use bataudit.Web.Storage.{Storage}
use bataudit.Web.Http.{post, Request}
use bataudit.Web.Clients.Requests.{with_body}

abbrev pub login_request : Platform → (email password : String) → Request
login_request p email password =
    with_body post (p.base <> "/v1/auth/login")
      (("email", some (str email)) ∷ ("password", some (str password)) ∷ [])
