-- ===== src/Dashboard/Studio/Editor.antt =====
-- `WidgetEditor` of frontend/src/routes/app/_layout/studio.tsx: a window with a widget's query, which can be
-- tried before the widget is added.
use bataudit.Prelude.{
  String, true, false, not, All, Bool-cases, inl, inr, ◌≡◌, refl, Option, none, some, List, [], ◌∷◌,
  ◌++◌, str_eq, if◌then◌else◌,
}
use bataudit.Prelude.Text.{truthy}
use bataudit.Prelude.Json.{Json}
use bataudit.Web.Platform.{Platform}
use bataudit.Web.Http.{Server, Browser}
use bataudit.Web.Clients.Studio.{Widget, VizType, line, pie, table}
use bataudit.Dashboard.Screen.{Screen, text, button, input, choice, when}
use bataudit.Dashboard.Sql.{SqlPage, Texts, preview}
use bataudit.Dashboard.Studio.{
  Studio, add_or_update_widget, put_widget, place, has_widget, has_item, replace_widget,
}
use bataudit.Dashboard.Studio.Results.{Conversions, QueryResult, viz_render}

pub record Editor : Type 0 where
  pub widget_id : String
  pub title : String
  pub viz : VizType
  pub query : SqlPage

unfoldable pub open_editor : Browser → Widget → Editor
open_editor b w = record {
  widget_id = w.id;
  title = w.title;
  viz = w.viz;
  query = record { sql = w.sql; result = none; error_text = none; loading = false; browser = b };
}

-- What is handed to `onSave`.
unfoldable pub saved : Editor → Widget
saved e = record { id = e.widget_id; title = e.title; sql = e.query.sql; viz = e.viz }

pub data Action : Type 0 where
  cancel run add_to_report : Action
  set_title set_sql set_viz : String → Action

abbrev pub viz_value : VizType → String
viz_value table = "table"
viz_value line = "line"
viz_value pie = "pie"

-- The value of the select, which has no others.
abbrev pub viz_of : String → VizType
viz_of v = if str_eq v "line" then line else if str_eq v "pie" then pie else table

abbrev pub preview_shown :
    Conversions → (read : Json → QueryResult) → VizType → Option Json → Screen Action
preview_shown c read viz none = []
preview_shown c read viz (some r) = viz_render c (read r) viz

abbrev pub error_shown : Option String → Screen Action
error_shown none = []
error_shown (some e) = when (truthy (some e)) (text e ∷ [])

unfoldable pub widget_editor : Conversions → (read : Json → QueryResult) → Editor → Screen Action
widget_editor c read e =
    text "Widget"
      ∷ button true "" cancel
      ∷ input e.title set_title
      ∷ choice true (viz_value e.viz) ("table" ∷ "line" ∷ "pie" ∷ []) set_viz
      ∷ input e.query.sql set_sql
      ∷ button (not e.query.loading) "Preview" run
      ∷ text "first column = label · second = value (line/pie)"
      ∷ error_shown e.query.error_text
    ++ (preview_shown c read e.viz e.query.result
        ++ button true "Cancel" cancel ∷ button true "Add to report" add_to_report ∷ [])

-- An action on the editor and the report.
unfoldable pub act : Platform → Texts → Server → Action → Editor × Studio → Editor × Studio
act p t net cancel (e, s) = (e, record s { editing = none })
act p t net run (e, s) = (record e { query = preview p t net e.query }, s)
act p t net add_to_report (e, s) = (e, add_or_update_widget (saved e) s)
act p t net (set_title v) (e, s) = (record e { title = v }, s)
act p t net (set_sql v) (e, s) = (record e { query = record e.query { sql = v } }, s)
act p t net (set_viz v) (e, s) = (record e { viz = viz_of v }, s)

-- That a widget is the only one with its id.
abbrev IsOnly : Widget → List Widget → Type 0
IsOnly w ws = All (λ x. str_eq x.id w.id ≡ true → x ≡ w) ws

replace_widget_self : (w : Widget) (ws : List Widget) → IsOnly w ws → replace_widget w ws ≡ ws
replace_widget_self w [] only = refl
replace_widget_self w (x ∷ xs) (h, only) = elim (Bool-cases (str_eq x.id w.id)) [
  | inl same ↦ rw (same, replace_widget_self w xs only, h same) refl
  | inr other ↦ rw (other, replace_widget_self w xs only) refl
]

-- Opening a widget of the report in the editor and adding it again leaves the report
-- as it is, its place in the grid included.
add_or_update_widget-saved :
    (b : Browser) (w : Widget) (s : Studio)
    → has_widget w.id s.widgets ≡ true
    → has_item w.id s.layout ≡ true
    → IsOnly w s.widgets
    → add_or_update_widget (saved (open_editor b w)) s ≡ record s { editing = none }
unfolding add_or_update_widget put_widget place saved open_editor
add_or_update_widget-saved b w s there placed only =
    rw (there, placed, replace_widget_self w s.widgets only) refl
