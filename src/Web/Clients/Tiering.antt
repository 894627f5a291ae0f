-- ===== src/Web/Clients/Tiering.antt =====
-- frontend/src/http/tiering.ts: the summaries of old events.
use bataudit.Prelude.{String, Option, ◌∷◌, ◌++◌}
use bataudit.Prelude.Text.{◌<>◌}
use bataudit.Prelude.Json.{Json}
use bataudit.Web.Platform.{Platform}
use bataudit.Web.Http.{get, Api, ◌>>=◌}
use bataudit.Web.Api.{fetch_with_auth}
use bataudit.Web.Clients.Requests.{given, plain, checked}

module _ (p : Platform) where
  unfoldable pub get_audit_history :
      String → (start_date end_date environment : Option String) → Api Json
  get_audit_history project_id start_date end_date environment = do
    let search =
        ("project_id", project_id) ∷ given "start_date" start_date
        ++ given "end_date" end_date
        ++ given "environment" environment
    res ←
        fetch_with_auth
          (plain get (p.base <> "/v1/audit/stats/history?" <> p.params_to_string search))
    checked "Failed to fetch history" res

  unfoldable pub get_usage_stat : String → Api Json
  get_usage_stat project_id = do
    res ← fetch_with_auth (
        plain get
          (p.base <> "/v1/audit/stats/usage?project_id=" <> p.encode_uri_component project_id))
    checked "Failed to fetch usage" res
