-- ===== src/Web/Clients/Monitors.antt =====
-- frontend/src/http/healthcheck.ts: the health monitors.
use mathlib.Core.Option
use bataudit.Prelude.{ℕ, String, Bool, true, false, Option, some, [], ◌∷◌, ◌or_else◌}
use bataudit.Prelude.Text.{◌<>◌}
use bataudit.Prelude.Json.{Json, str, num, bool, obj, end}
use bataudit.Web.Platform.{Platform}
use bataudit.Web.Http.{
  get, post, put, delete, Response, Api, ◌>>=◌, ◌>>◌, pure, raise, is_ok, read_json, property,
  error_or,
}
use bataudit.Web.Api.{fetch_with_auth}
use bataudit.Web.Clients.Requests.{
  plain, with_body, project_query, checked, checked_data, checked_done,
}

-- The argument of `createMonitor`, and that of `updateMonitor`, where all may be left out.
pub record NewMonitor : Type 0 where
  pub project_id : String
  pub name : String
  pub url : String
  pub interval_seconds : Option ℕ
  pub timeout_seconds : Option ℕ
  pub expected_status : Option ℕ

pub record MonitorChange : Type 0 where
  pub name : Option String
  pub url : Option String
  pub interval_seconds : Option ℕ
  pub timeout_seconds : Option ℕ
  pub expected_status : Option ℕ
  pub enabled : Option Bool

-- `res.json().catch(() => ({}))`, and the error that is thrown of it.
abbrev pub refuse_leniently : Bool → String → Response → Api (Unit {0})
refuse_leniently true message res = pure tt
refuse_leniently false message res = do
  found ← property "error" (res.json or_else obj end)
  raise (error_or found message)

module _ (p : Platform) where
  abbrev base_url : String
  base_url = p.base <> "/v1/monitors"

  unfoldable pub list_monitors : Option String → Api Json
  list_monitors project_id = do
    res ← fetch_with_auth (plain get (base_url <> project_query p project_id))
    checked_data "Failed to fetch monitors" res

  unfoldable pub create_monitor : NewMonitor → Api Json
  create_monitor body = do
    res ← fetch_with_auth (
        with_body post base_url (
          ("project_id", some (str body.project_id))
          ∷ ("name", some (str body.name))
          ∷ ("url", some (str body.url))
          ∷ ("interval_seconds", Option.map num body.interval_seconds)
          ∷ ("timeout_seconds", Option.map num body.timeout_seconds)
          ∷ ("expected_status", Option.map num body.expected_status)
          ∷ []))
    refuse_leniently (is_ok res) "Failed to create monitor" res
    read_json res

  unfoldable pub update_monitor : String → MonitorChange → Api Json
  update_monitor id body = do
    res ← fetch_with_auth (
        with_body put (base_url <> "/" <> id) (
          ("name", Option.map str body.name)
          ∷ ("url", Option.map str body.url)
          ∷ ("interval_seconds", Option.map num body.interval_seconds)
          ∷ ("timeout_seconds", Option.map num body.timeout_seconds)
          ∷ ("expected_status", Option.map num body.expected_status)
          ∷ ("enabled", Option.map bool body.enabled)
          ∷ []))
    checked "Failed to update monitor" res

  unfoldable pub delete_monitor : String → Api (Option Json)
  delete_monitor id = do
    res ← fetch_with_auth (plain delete (base_url <> "/" <> id))
    checked_done "Failed to delete monitor" res

  unfoldable pub test_monitor : String → Api Json
  test_monitor id = do
    res ← fetch_with_auth (plain post (base_url <> "/" <> id <> "/test"))
    checked "Failed to test monitor" res

  -- The limit has the default 50.
  unfoldable pub list_monitor_history : String → Option ℕ → Api Json
  list_monitor_history id limit = do
    res ← fetch_with_auth (
        plain get
          (base_url <> "/" <> id <> "/history?limit=" <> p.text_of_number (limit or_else 50)))
    checked_data "Failed to fetch monitor history" res
