-- ===== src/Web/Clients/WallboardCodes.antt =====
-- frontend/src/http/wallboard.ts, the last part: codes for wallboards, managed in the settings.
use bataudit.Prelude.{String, Option, none, some, [], ◌∷◌, ◌or_else◌}
use bataudit.Prelude.Text.{◌<>◌}
use bataudit.Prelude.Json.{Json, str}
use bataudit.Web.Platform.{Platform}
use bataudit.Web.Http.{get, post, delete, Api, ◌>>=◌, pure}
use bataudit.Web.Api.{fetch_with_auth}
use bataudit.Web.Clients.Requests.{plain, with_body, project_query, checked}

module _ (p : Platform) where
  unfoldable pub list_wb_tokens : Option String → Api Json
  list_wb_tokens project_id = do
    res ←
        fetch_with_auth (plain get (p.base <> "/v1/wallboard/tokens" <> project_query p project_id))
    checked "Failed to list tokens" res

  unfoldable pub generate_wb_code : (project_id name : Option String) → Api Json
  generate_wb_code project_id name = do
    res ← fetch_with_auth (
        with_body post (p.base <> "/v1/wallboard/token") (
          ("project_id", some (str (project_id or_else "")))
          ∷ ("name", some (str (name or_else "")))
          ∷ []))
    checked "Failed to generate code" res

  -- The reply is not looked at.
  unfoldable pub revoke_wb_code : String → Api (Option Json)
  revoke_wb_code id = do
    res ←
        fetch_with_auth
          (plain delete (p.base <> "/v1/wallboard/token?id=" <> p.encode_uri_component id))
    pure none
