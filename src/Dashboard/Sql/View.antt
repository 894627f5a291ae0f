-- ===== src/Dashboard/Sql/View.antt =====
-- What the SQL page shows, and what its controls do: frontend/src/routes/app/_layout/query.tsx.
use bataudit.Prelude.{
  String, Bool, true, false, not, ◌||◌, Option, none, some, List, [], ◌∷◌, ◌++◌, ◌==◌, ltb, length,
  str_eq, if◌then◌else◌,
}
use bataudit.Prelude.Text.{◌<>◌, truthy_text}
use bataudit.Prelude.Json.{Json}
use bataudit.Web.Platform.{Platform}
use bataudit.Web.Http.{Server, Browser}
use bataudit.Dashboard.Screen.{Screen, text, button, input, when, each}
use bataudit.Dashboard.Sql.{SqlPage, Texts, run as run_page}
use bataudit.Dashboard.Studio.Results.{Conversions, QueryResult, row_shown, column_head}

pub record Example : Type 0 where
  pub label : String
  pub sql : String

pub data Action : Type 0 where
  run download_csv : Action
  set_sql : String → Action
  pick_example : Example → Action
  add_column : String → Action

abbrev pub example : String → String → Example
example label sql = record { label = label; sql = sql }

abbrev pub recent_errors : Example
recent_errors =
    example "Recent 5xx errors"
      "SELECT timestamp, identifier, method, path, status_code\nFROM audits\nWHERE project_id = '{{project_id}}' AND status_code >= 500\nORDER BY timestamp DESC\nLIMIT 50"

abbrev pub examples : List Example
examples =
    recent_errors
    ∷ example "Who changed a resource"
        "SELECT timestamp, identifier, user_email, method, path\nFROM audits\nWHERE project_id = '{{project_id}}'\n  AND path LIKE '%/assets/%' AND method IN ('PUT','PATCH','DELETE')\n  AND timestamp >= '{{from}}'\nORDER BY timestamp DESC"
    ∷ example "Top routes by volume"
        "SELECT path, method, count(*) AS hits\nFROM audits\nWHERE project_id = '{{project_id}}'\nGROUP BY path, method\nORDER BY hits DESC\nLIMIT 20"
    ∷ example "Slowest routes"
        "SELECT path, round(avg(response_time)) AS avg_ms, count(*) AS hits\nFROM audits\nWHERE project_id = '{{project_id}}'\nGROUP BY path\nORDER BY avg_ms DESC\nLIMIT 20"
    ∷ []

abbrev pub schema : List String
schema =
    "timestamp" ∷ "identifier" ∷ "user_email" ∷ "user_name" ∷ "user_type" ∷ "tenant_id" ∷ "method"
    ∷ "path" ∷ "status_code" ∷ "response_time" ∷ "service_name" ∷ "environment" ∷ "event_type"
    ∷ "source" ∷ "ip" ∷ "user_agent" ∷ "request_id" ∷ "session_id" ∷ "error_message" ∷ []

abbrev pub initial : Browser → SqlPage
initial b = record {
  sql = recent_errors.sql;
  result = none;
  error_text = none;
  loading = false;
  browser = b;
}

unfoldable pub result_table : Conversions → QueryResult → Screen Action
result_table c r = elim r.columns [
  | [] ↦ text "No columns." ∷ []
  | name ∷ names ↦
      each column_head (name ∷ names)
      ++ (each (row_shown c "null") r.rows
          ++ when (not (ltb 0 (length r.rows))) (text "No rows." ∷ []))
]

abbrev pub result_shown : Conversions → (read : Json → QueryResult) → Option Json → Screen Action
result_shown c read none = []
result_shown c read (some j) =
    let r = read j in
    text (c.number r.row_count <> " row" <> (if r.row_count == 1 then "" else "s"))
      ∷ text (c.number r.elapsed_ms <> " ms")
      ∷ when r.truncated (text "· truncated to 1000" ∷ [])
    ++ (when (ltb 0 (length r.rows)) (button true "CSV" download_csv ∷ []) ++ result_table c r)

abbrev pub error_shown : Option String → Screen Action
error_shown none = []
error_shown (some e) = when (truthy_text e) (text e ∷ [])

abbrev pub example_button : Example → Screen Action
example_button e = button true e.label (pick_example e) ∷ []

abbrev pub column_button : String → Screen Action
column_button col = button true col (add_column col) ∷ []

abbrev pub side_bar : Screen Action
side_bar =
    text "Examples" ∷ each example_button examples
    ++ (text "Table: audits" ∷ each column_button schema
        ++ text "Read-only. Only SELECT runs." ∷ text "Vars: {{project_id}} {{from}} {{to}}" ∷ [])

unfoldable pub view : Conversions → (read : Json → QueryResult) → SqlPage → Screen Action
view c read s =
    text "Query"
      ∷ text "read-only SQL over your audit logs"
      ∷ input s.sql set_sql
      ∷ text "⌘/Ctrl + Enter to run"
      ∷ button (not s.loading) "Run" run
      ∷ error_shown s.error_text
    ++ (result_shown c read s.result ++ side_bar)

-- `s + (s.endsWith(' ') || s === '' ? '' : ' ') + col`
abbrev pub with_column : (ends_with : String → String → Bool) → String → String → String
with_column ends_with col s = s <> (if ends_with s " " || str_eq s "" then "" else " ") <> col

-- An action; the download of the CSV, whose text is to_csv of Dashboard.Csv, leaves the page as it is.
unfoldable pub act :
    Platform
    → Texts
    → (ends_with : String → String → Bool) → (project : Option String) → Server
    → Action
    → SqlPage
    → SqlPage
act p t ends_with project net run s = run_page p t project net s
act p t ends_with project net download_csv s = s
act p t ends_with project net (set_sql v) s = record s { sql = v }
act p t ends_with project net (pick_example e) s = record s { sql = e.sql }
act p t ends_with project net (add_column col) s = record s {
  sql = with_column ends_with col s.sql;
}

-- The keys that run the query, whether or not another run is under way.
unfoldable pub on_key_down :
    Platform
    → Texts
    → Option String
    → Server
    → (with_meta : Bool) → (key : String) → SqlPage
    → SqlPage
on_key_down p t project net with_meta key s =
    let ran = run_page p t project net s in
    if not with_meta then s else if str_eq key "Enter" then ran else s
