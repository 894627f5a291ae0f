-- ===== src/Dashboard/Overview.antt =====
-- More of the event list, frontend/src/routes/app/_layout/index.tsx: its filters, the health of a
-- service, and the download of an export.
pub mod FilterChange
pub mod Page
pub mod Figures
pub mod Charts
pub mod Feed
pub mod Clicked
use bataudit.Prelude.{
  ℕ, String, Bool, true, false, not, ◌&&◌, ◌||◌, Option, none, some, List, [], ◌∷◌, ◌++◌, str_eq,
  if◌then◌else◌, ◌or_else◌,
}
use bataudit.Prelude.Text.{◌<>◌, truthy, truthy_text}
use bataudit.Prelude.Json.{Json, null, str, obj, field, end, get_field}
use bataudit.Web.Platform.{Platform}
use bataudit.Web.Http.{
  get, Request, Response, Server, Browser, Error, error, network_error, type_error, is_ok,
  optional_property,
}
use bataudit.Web.Auth.{get_token}
use bataudit.Web.Clients.Requests.{query_of}
use bataudit.Dashboard.Filters.{Search, empty_search, ActiveFilters, export_query}

-- The keys that `setFilter` is called with.
pub data Key : Type 0 where
  service_name method status_code identifier : Key

-- `value || undefined`
abbrev pub or_undefined : String → Option String
or_undefined value = if truthy_text value then some value else none

abbrev pub put_filter : Key → Option String → Search → Search
put_filter service_name v s = record s { service_name = v }
put_filter method v s = record s { method = v }
put_filter status_code v s = record s { status_code = v }
put_filter identifier v s = record s { identifier = v }

unfoldable pub set_filter : Key → String → Search → Search
set_filter key value prev = record (put_filter key (or_undefined value) prev) { page = some 1 }

abbrev pub clear_filters : Search
clear_filters = record empty_search { page = some 1 }

abbrev pub is_given : {A : Type 0} → Option A → Bool
is_given none = false
is_given (some a) = true

unfoldable pub has_filters : Search → Bool
has_filters s =
    is_given s.time_range
    || truthy s.service_name
    || truthy s.method
    || truthy s.path
    || truthy s.status_code
    || truthy s.status_class
    || truthy s.identifier
    || truthy s.start_date
    || truthy s.end_date

-- `monitorByService[name]`: the last status of the last monitor with that name.
unfoldable pub monitor_by_service : String → List (String × String) → Option String
monitor_by_service name [] = none
monitor_by_service name ((n, status) ∷ ms) = elim (monitor_by_service name ms) [
  | some later ↦ some later
  | none ↦ if str_eq n name then some status else none
]

-- How `handleExport` ends.
pub data Exported : Type 0 where
  -- With the download of the reply, or a message.
  downloaded : Exported
  alerted : Json → Exported
  -- With an exception.
  threw : Error → Exported

abbrev pub export_request : Platform → String → Option String → ActiveFilters → Browser → Request
export_request p format project_id f b = record {
  method = get;
  url = p.base <> "/v1/audit/export" <> query_of p (export_query format project_id f);
  headers = ("Authorization", "Bearer " <> (get_token b.storage or_else "")) ∷ [];
  body = none;
}

-- `value ?? 'Export failed'`
abbrev or_failed : Option Json → Json
or_failed none = str "Export failed"
or_failed (some null) = str "Export failed"
or_failed (some e) = e

-- `body.error ?? 'Export failed'`, where `json()` that rejects gives the text of the status.
abbrev pub failure_message : (status_text : ℕ → String) → Response → Json
failure_message status_text res = elim res.json [
  | none ↦ str (status_text res.status)
  | some body ↦ or_failed (optional_property "error" body)
]

abbrev pub export_reply : (ℕ → String) → Option Response → Exported
export_reply status_text none = threw network_error
export_reply status_text (some res) = if is_ok res then downloaded else elim res.json [
  | some null ↦ threw type_error
  | _ ↦ alerted (failure_message status_text res)
]

-- `handleExport`: how it ends, `exporting` then, and the browser.
unfoldable pub handle_export :
    Platform
    → (status_text : ℕ → String) → String
    → Option String
    → ActiveFilters
    → Server
    → Browser
    → Exported × (Bool × Browser)
handle_export p status_text format project_id f net b =
    let r = export_request p format project_id f b in
    (export_reply status_text (net b.sent r), (false, record b { sent = b.sent ++ r ∷ [] }))
