-- ===== src/Dashboard/Tv/Screens.antt =====
-- What the page of a wallboard shows (frontend/src/routes/tv.tsx): the form of the code, or the dashboard
-- or the grid of the projects.
use bataudit.Prelude.{
  ℕ, String, Bool, true, false, not, ◌||◌, Option, none, some, List, [], ◌∷◌, ◌++◌, ltb, length,
  any, str_eq, if◌then◌else◌,
}
use bataudit.Prelude.Text.{◌<>◌, truthy_text}
use bataudit.Web.Platform.{Platform}
use bataudit.Web.Http.{Server}
use bataudit.Dashboard.Screen.{Screen, text, button, input, choice, when}
use bataudit.Dashboard.Tv.{Tv, Activation, handle_submit, disconnect as disconnected}
use bataudit.Dashboard.Tv.Views.{
  View, ViewMode, dashboard, grid, initial, is_grid, handle_grid_select,
}
use bataudit.Dashboard.Tv.Volume.{WbVolumePoint}
use bataudit.Dashboard.Tv.Panels.{
  WbSummary, WbFeedEvent, WbHealthEntry, WbAlert, WbErrorRoute, WbProject, WbProjectStat, Texts,
  Action, submit, disconnect, show_dashboard, show_grid, type_code, choose_environment,
  choose_project, grid_select, project_grid, stats_row, volume_panel, error_routes_panel,
  feed_panel, health_panel, alerts_panel,
}

-- What the queries have so far.
pub record Loaded : Type 0 where
  pub summary : Option WbSummary
  pub events : List WbFeedEvent
  pub volume : List WbVolumePoint
  pub health : List WbHealthEntry
  pub alerts : List WbAlert
  pub error_routes : List WbErrorRoute
  pub projects : List WbProject
  pub stats : List WbProjectStat

-- `text.length` and `text.toUpperCase()`
pub record Codes : Type 0 where
  pub size : String → ℕ
  pub upper : String → String
  pub trim : String → String

unfoldable pub activation_screen : Codes → Activation → Screen Action
activation_screen c f =
    text "BatAudit TV"
      ∷ text "Enter the activation code from Settings → Wallboard"
      ∷ input f.code (λ typed. type_code (c.upper typed))
      ∷ when (truthy_text f.error) (text f.error ∷ [])
    ++ button (not (f.loading || ltb (c.size f.code) 6))
        (if f.loading then "Activating…" else "Activate") submit
      ∷ []

-- `projects.find(p => p.id === projectId)`
abbrev pub selected_project : String → List WbProject → Option WbProject
selected_project id [] = none
selected_project id (p ∷ ps) =
    let rest = selected_project id ps in if str_eq p.id id then some p else rest

abbrev pub project_label : ViewMode → Option WbProject → Screen Action
project_label dashboard (some p) = text p.name ∷ []
project_label _ _ = []

abbrev pub is_down : WbHealthEntry → Bool
is_down h = str_eq h.last_status "down"

abbrev pub plural : ℕ → String
plural n = if ltb 1 n then "S" else ""

abbrev pub warnings : Texts → Loaded → Screen Action
warnings t d =
    when (any is_down d.health) (text "SERVICE DOWN" ∷ [])
    ++ when (ltb 0 (length d.alerts))
        (text (t.number (length d.alerts) <> " ALERT" <> plural (length d.alerts)) ∷ [])

abbrev pub environments : List String
environments = "" ∷ "production" ∷ "staging" ∷ "development" ∷ "testing" ∷ "local" ∷ []

abbrev pub project_ids : List WbProject → List String
project_ids [] = []
project_ids (p ∷ ps) = p.id ∷ project_ids ps

-- The selectors, which give the values of their options.
abbrev pub controls : (project_id : String) → View → List WbProject → Screen Action
controls project_id v projects =
    button true "Dashboard" show_dashboard
    ∷ button true "Grid" show_grid
    ∷ choice true v.environment environments choose_environment
    ∷ when (not (is_grid v.view_mode))
        (choice true project_id ("" ∷ project_ids projects) choose_project ∷ [])

abbrev pub header : Texts → (clock : String) → Loaded → Tv → View → Screen Action
header t clock d s v =
    text "BatAudit" ∷ when (truthy_text s.profile_name) (text s.profile_name ∷ [])
    ++ (project_label v.view_mode (selected_project s.active_project_id d.projects)
        ++ (warnings t d ++ (controls s.active_project_id v d.projects ++ text clock ∷ [])))

abbrev pub main_grid : Texts → (page : ℕ) → Loaded → Screen Action
main_grid t page d =
    stats_row t d.summary
    ++ (volume_panel t d.volume
        ++ (error_routes_panel t d.error_routes
            ++ (feed_panel t d.events
                ++ (health_panel t page d.health ++ alerts_panel t d.alerts))))

-- `TVDashboard`, at a page of the carousel.
unfoldable pub tv_dashboard :
    Texts → (clock : String) → (page : ℕ) → Loaded → Tv → View → Screen Action
tv_dashboard t clock page d s v =
    header t clock d s v
    ++ (if is_grid v.view_mode then project_grid t d.stats else main_grid t page d)

-- `TVPage`
unfoldable pub view :
    Texts → Codes → (clock : String) → (page : ℕ) → Loaded → Activation → Tv → View → Screen Action
view t c clock page d f s v =
    if not s.authenticated
    then activation_screen c f
    else tv_dashboard t clock page d s v ++ button true "Disconnect" disconnect ∷ []

pub record State : Type 0 where
  pub form : Activation
  pub tv : Tv
  pub view : View

abbrev pub empty_form : Activation
empty_form = record { code = ""; error = ""; loading = false }

-- An action. The form and the selection of the view are new whenever they are shown again.
unfoldable pub act : Platform → Codes → Server → Action → State → State
act p c net submit s =
    let r = handle_submit p c.trim net (s.form, s.tv) in record s { form = r.0; tv = r.1 }
act p c net disconnect s = record { form = empty_form; tv = disconnected s.tv; view = initial }
act p c net show_dashboard s = record s { view = record s.view { view_mode = dashboard } }
act p c net show_grid s = record s { view = record s.view { view_mode = grid } }
act p c net (type_code typed) s = record s { form = record s.form { code = typed } }
act p c net (choose_environment e) s = record s { view = record s.view { environment = e } }
act p c net (choose_project id) s = record s { tv = record s.tv { active_project_id = id } }
act p c net (grid_select id) s =
    let r = handle_grid_select id (s.tv, s.view) in record s { tv = r.0; view = r.1 }
