-- ===== src/Web/Clients/Audit.antt =====
-- frontend/src/http/audit: reading the audit log.
use bataudit.Prelude.{ℕ, String, Option, none, ◌∷◌, ◌++◌, ◌or_else◌}
use bataudit.Prelude.Text.{◌<>◌}
use bataudit.Prelude.Json.{Json}
use bataudit.Web.Platform.{Platform}
use bataudit.Web.Http.{get, Api, ◌>>=◌}
use bataudit.Web.Api.{fetch_with_auth}
use bataudit.Web.Clients.Requests.{
  given, given_number, query_of, Search, content_type, plain, checked, checked_data,
}

pub record ListAuditParams : Type 0 where
  pub page : Option ℕ
  pub limit : Option ℕ
  pub project_id : Option String
  pub service_name : Option String
  pub method : Option String
  pub path : Option String
  pub status_code : Option String
  pub status_class : Option String
  pub environment : Option String
  pub identifier : Option String
  pub start_date : Option String
  pub end_date : Option String
  pub sort_by : Option String
  pub sort_order : Option String
  pub event_type : Option String

-- `{}`
abbrev pub no_params : ListAuditParams
no_params = record {
  page = none;
  limit = none;
  project_id = none;
  service_name = none;
  method = none;
  path = none;
  status_code = none;
  status_class = none;
  environment = none;
  identifier = none;
  start_date = none;
  end_date = none;
  sort_by = none;
  sort_order = none;
  event_type = none;
}

unfoldable pub list_audit_search : Platform → ListAuditParams → Search
list_audit_search p params =
    given_number p "page" params.page
    ++ given_number p "limit" params.limit
    ++ given "project_id" params.project_id
    ++ given "service_name" params.service_name
    ++ given "method" params.method
    ++ given "path" params.path
    ++ given "status_code" params.status_code
    ++ given "status_class" params.status_class
    ++ given "environment" params.environment
    ++ given "identifier" params.identifier
    ++ given "start_date" params.start_date
    ++ given "end_date" params.end_date
    ++ given "sort_by" params.sort_by
    ++ given "sort_order" params.sort_order
    ++ given "event_type" params.event_type

module _ (p : Platform) where
  unfoldable pub list_audit : ListAuditParams → Api Json
  unfolding list_audit_search
  list_audit params = do
    res ← fetch_with_auth (record {
      method = get;
      url = p.base <> "/v1/audit" <> query_of p (list_audit_search p params);
      headers = content_type;
      body = none;
    })
    checked "Failed to fetch audit events" res

  unfoldable pub get_audit_detail : String → Api Json
  get_audit_detail id = do
    res ← fetch_with_auth (plain get (p.base <> "/v1/audit/" <> id))
    checked "Failed to fetch audit detail" res

  unfoldable pub get_audit_stats : (project_id environment : Option String) → Api Json
  get_audit_stats project_id environment = do
    let search = given "project_id" project_id ++ given "environment" environment
    res ← fetch_with_auth (plain get (p.base <> "/v1/audit/stats" <> query_of p search))
    checked "Failed to fetch stats" res

  -- The period has the default '7d'.
  unfoldable pub get_insights : (project_id period environment : Option String) → Api Json
  get_insights project_id period environment = do
    let search =
        given "project_id" project_id
        ++ ("period", period or_else "7d") ∷ given "environment" environment
    res ← fetch_with_auth (plain get (p.base <> "/v1/audit/insights?" <> p.params_to_string search))
    checked "Failed to fetch insights" res

  unfoldable pub get_affected_users :
      (project_id path : String) → (method start end : Option String) → Api Json
  get_affected_users project_id path method start end = do
    let search =
        ("project_id", project_id) ∷ ("path", path) ∷ given "method" method
        ++ given "start" start
        ++ given "end" end
    res ←
        fetch_with_auth
          (plain get (p.base <> "/v1/audit/affected-users?" <> p.params_to_string search))
    checked "Failed to fetch affected users" res

  unfoldable pub get_session_by_id : String → Api Json
  get_session_by_id session_id = do
    res ←
        fetch_with_auth
          (plain get (p.base <> "/v1/audit/sessions/" <> p.encode_uri_component session_id))
    checked "Session not found" res

  unfoldable pub get_sessions :
      (project_id identifier service_name start_date end_date environment : Option String)
      → Api Json
  get_sessions project_id identifier service_name start_date end_date environment = do
    let search =
        given "project_id" project_id
        ++ given "identifier" identifier
        ++ given "service_name" service_name
        ++ given "start_date" start_date
        ++ given "end_date" end_date
        ++ given "environment" environment
    res ← fetch_with_auth (plain get (p.base <> "/v1/audit/sessions" <> query_of p search))
    checked_data "Failed to fetch sessions" res

  unfoldable pub get_orphans :
      (project_id service_name start_date end_date environment : Option String) → Api Json
  get_orphans project_id service_name start_date end_date environment = do
    let search =
        given "project_id" project_id
        ++ given "service_name" service_name
        ++ given "start_date" start_date
        ++ given "end_date" end_date
        ++ given "environment" environment
    res ← fetch_with_auth (plain get (p.base <> "/v1/audit/orphans" <> query_of p search))
    checked "Failed to fetch orphan events" res
