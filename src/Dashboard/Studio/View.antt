-- ===== src/Dashboard/Studio/View.antt =====
-- What the page of the report studio shows (frontend/src/routes/app/_layout/studio.tsx), its document for
-- printing included. The window of a widget is Dashboard.Studio.Editor, the saved reports are those of
-- Dashboard.Reports, and the results of the queries those of Dashboard.WidgetData.
use bataudit.Prelude.{
  ℕ, suc, String, Bool, true, not, Option, none, some, List, [], ◌∷◌, ◌++◌, ltb, length,
  if◌then◌else◌,
}
use bataudit.Prelude.Text.{◌<>◌, truthy, truthy_text}
use bataudit.Prelude.Json.{Json}
use bataudit.Web.Clients.Studio.{Widget, VizType, table}
use bataudit.Dashboard.Screen.{Screen, text, button, input, when, each}
use bataudit.Dashboard.Studio.{Studio, open_report, new_report, remove_widget, Report}
use bataudit.Dashboard.Studio.Results.{Conversions, QueryResult, viz_render}
use bataudit.Dashboard.Studio.Editor.{viz_value}
use bataudit.Dashboard.WidgetData.{WidgetState, loading, result, error_text, Data, shown}

pub data Action : Type 0 where
  add_widget save export_pdf delete start_new : Action
  set_name set_from set_to : String → Action
  open_saved : (report_id : String) → Action
  edit : Widget → Action
  remove : (widget_id : String) → Action

pub record Period : Type 0 where
  pub from : String
  pub to : String

-- A saved report as the list names it.
pub record Saved : Type 0 where
  pub id : String
  pub name : String

abbrev pub toolbar : Studio → Period → (saving : Bool) → Screen Action
toolbar s p saving =
    input s.name set_name
    ∷ input p.from set_from
    ∷ text "→"
    ∷ input p.to set_to
    ∷ button true "Add widget" add_widget
    ∷ button (not saving) "Save" save
    ∷ button (ltb 0 (length s.widgets)) "Export PDF" export_pdf
    ∷ when (truthy s.report_id) (button true "Delete" delete ∷ [])

abbrev pub saved_report : Saved → Screen Action
saved_report r = button true r.name (open_saved r.id) ∷ []

abbrev pub saved_reports : List Saved → Screen Action
saved_reports [] = []
saved_reports (r ∷ rs) = button true "+ New" start_new ∷ each saved_report (r ∷ rs)

-- What a widget or a section shows: its error, unless that is empty, or its result; else what stands
-- for a result that is missing.
abbrev pub state_shown :
    Conversions
    → (read : Json → QueryResult) → VizType
    → Screen Action
    → Option WidgetState
    → Screen Action
state_shown c read viz missing none = missing
state_shown c read viz missing (some loading) = missing
state_shown c read viz missing (some (result r)) = viz_render c (read r) viz
state_shown c read viz missing (some (error_text e)) =
    if truthy_text e then text e ∷ [] else missing

unfoldable pub widget_view :
    Conversions → (read : Json → QueryResult) → Data → Widget → Screen Action
widget_view c read d w =
    text w.title
    ∷ text (viz_value w.viz)
    ∷ button true "" (edit w)
    ∷ button true "" (remove w.id)
    ∷ state_shown c read w.viz [] (shown w.id d)

abbrev pub interactive_grid :
    Conversions → (read : Json → QueryResult) → Data → List Widget → Screen Action
interactive_grid c read d [] = text "No widgets yet. Click Add widget to start." ∷ []
interactive_grid c read d (w ∷ ws) = each (widget_view c read d) (w ∷ ws)

-- The sections, from the one of an index on.
abbrev pub sections :
    Conversions → (read : Json → QueryResult) → Data → (index : ℕ) → List Widget → Screen Action
sections c read d i [] = []
sections c read d i (w ∷ ws) =
    text (c.number (suc i) <> ".")
      ∷ text w.title
      ∷ text (viz_value w.viz)
      ∷ state_shown c read w.viz (text "No data." ∷ []) (shown w.id d)
    ++ sections c read d (suc i) ws

abbrev pub labelled : (label : String) → Option String → String
labelled label none = ""
labelled label (some v) = if truthy_text v then label <> v <> " · " else ""

-- When the document is made, and its day.
pub record Made : Type 0 where
  pub generated : String
  pub day : String

unfoldable pub report_print_document :
    Conversions
    → (read : Json → QueryResult) → Made
    → (project_id : Option String) → Period
    → Studio
    → Data
    → Screen Action
report_print_document c read m project_id p s d =
    text "BatAudit · Audit Report"
      ∷ text s.name
      ∷ text (
          labelled "Project " project_id
          <> labelled "Period " (some (p.from <> " → " <> p.to))
          <> "Generated "
          <> m.generated)
      ∷ sections c read d 0 s.widgets
    ++ (text "Generated by BatAudit" ∷ text m.day ∷ [])

-- The page on the screen.
unfoldable pub view :
    Conversions
    → (read : Json → QueryResult) → List Saved
    → (saving : Bool) → Period
    → Data
    → Studio
    → Screen Action
view c read reports saving p d s =
    toolbar s p saving ++ (saved_reports reports ++ interactive_grid c read d s.widgets)

abbrev pub new_sql : String
new_sql =
    "SELECT method, count(*) AS hits\nFROM audits\nWHERE project_id = '{{project_id}}' AND timestamp >= '{{from}}'\nGROUP BY method\nORDER BY hits DESC"

-- The widget that `Add widget` opens in the editor, with a new id.
abbrev pub new_widget : (uid : String) → Widget
new_widget uid = record { id = uid; title = "New widget"; sql = new_sql; viz = table }

-- An action on the report and the period; the reports are opened with what the server has for their
-- id, and saving, deleting and printing are not of this state.
unfoldable pub act :
    (uid : String) → (get_report : String → Report) → Action → Studio × Period → Studio × Period
act uid get_report add_widget (s, p) = (record s { editing = some (new_widget uid) }, p)
act uid get_report save (s, p) = (s, p)
act uid get_report export_pdf (s, p) = (s, p)
act uid get_report delete (s, p) = (s, p)
act uid get_report start_new (s, p) = (new_report s, p)
act uid get_report (set_name v) (s, p) = (record s { name = v }, p)
act uid get_report (set_from v) (s, p) = (s, record p { from = v })
act uid get_report (set_to v) (s, p) = (s, record p { to = v })
act uid get_report (open_saved id) (s, p) = (open_report (get_report id) s, p)
act uid get_report (edit w) (s, p) = (record s { editing = some w }, p)
act uid get_report (remove id) (s, p) = (remove_widget id s, p)
