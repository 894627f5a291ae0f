-- ===== src/Dashboard/Related.antt =====
-- `buildRelatedFilters` of frontend/src/routes/app/_layout/anomalies.tsx: the events that are shown
-- with an alert. Times are milliseconds since 1970, and a time before that is not modelled; `none`
-- is an invalid date, whose `toISOString` throws.
use mathlib.Core.Option
use bataudit.Prelude.{
  ℕ, ◌-◌, ◌*◌, ◌≡◌, String, Option, none, some, str_eq, if◌then◌else◌, ◌or_else◌, arith,
}
use bataudit.Prelude.Json.{Json, num, null, Fields, get_field}
use bataudit.Web.Wallboard.{truthy_json}
use bataudit.Web.Clients.Audit.{ListAuditParams, no_params}

pub record AlertSummary : Type 0 where
  pub path : String
  pub service_name : String
  pub timestamp : String

-- The conversions of the language.
pub record Conversions : Type 0 where
  -- `new Date(text).getTime()`
  pub time : String → Option ℕ
  pub to_iso_string : ℕ → String
  pub string_of : Json → String
  -- `Number(value)`, a natural number.
  pub number_of : Json → Option ℕ

-- `details?.k`
abbrev pub detail : String → Option Fields → Option Json
detail k none = none
detail k (some fs) = get_field k fs

-- `details?.k ? String(details.k) : none`
abbrev pub text_detail : Conversions → String → Option Fields → Option String
text_detail c k details =
    if truthy_json (detail k details) then Option.map c.string_of (detail k details) else none

-- `Number(details?.window_secs ?? 300)`
abbrev pub window_secs : Conversions → Option Fields → Option ℕ
window_secs c details = elim (detail "window_secs" details) [
  | none ↦ some 300
  | some v ↦ elim v [
    | null ↦ some 300
    | num n ↦ some n
    | _ ↦ c.number_of (detail "window_secs" details or_else null)
  ]
]

-- The filters for the events in the time before an end.
abbrev pub window :
    Conversions
    → Option String
    → AlertSummary
    → (limit length end : ℕ) → (end_date : String) → ListAuditParams
window c project_id alert limit length end end_date = record no_params {
  service_name = some alert.service_name;
  event_type = some "http";
  start_date = some (c.to_iso_string (end - length));
  end_date = some end_date;
  limit = some limit;
  project_id = project_id;
}

-- The end of the window of a service that has gone silent.
abbrev pub last_event : Conversions → AlertSummary → Option Fields → String
last_event c alert details = text_detail c "last_event_at" details or_else alert.timestamp

abbrev pub silent_filters :
    Conversions → AlertSummary → Option Fields → Option String → Option ListAuditParams
silent_filters c alert details project_id = elim (c.time (last_event c alert details)) [
  | none ↦ none
  | some end ↦
      some (window c project_id alert 50 (2 * 60 * 60 * 1000) end (last_event c alert details))
]

-- The last two parts of the object.
abbrev pub narrowed : Conversions → AlertSummary → Option Fields → ListAuditParams → ListAuditParams
narrowed c alert details p =
    if str_eq alert.path "brute_force"
    then record p { identifier = text_detail c "identifier" details }
    else if str_eq alert.path "error_rate_by_route"
    then elim (text_detail c "path" details) [
      | none ↦ p
      | some path ↦ record p { path = some path; method = text_detail c "method" details }
    ]
    else p

abbrev pub window_filters :
    Conversions → AlertSummary → Option Fields → Option String → Option ListAuditParams
window_filters c alert details project_id = elim (c.time alert.timestamp) [
  | none ↦ none
  | some ts ↦ elim (window_secs c details) [
    | none ↦ none
    | some secs ↦ some (
        narrowed c alert details
          (window c project_id alert 100 (secs * 1000) ts (c.to_iso_string ts)))
  ]
]

unfoldable pub build_related_filters :
    Conversions → AlertSummary → Option Fields → Option String → Option ListAuditParams
build_related_filters c alert details project_id =
    if str_eq alert.path "silent_service"
    then silent_filters c alert details project_id
    else window_filters c alert details project_id

-- Whatever the alert, the events are those of its service and of requests, in the project that is
-- selected.
build_related_filters_service :
    (c : Conversions) (alert : AlertSummary) (details : Option Fields) (project_id : Option String)
    (p : ListAuditParams)
    → build_related_filters c alert details project_id ≡ some p
    → (p.service_name ≡ some alert.service_name)
      × (p.event_type ≡ some "http")
      × (p.project_id ≡ project_id)
unfolding build_related_filters
build_related_filters_service c alert details project_id p h = grind arith
