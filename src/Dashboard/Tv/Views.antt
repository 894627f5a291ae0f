-- ===== src/Dashboard/Tv/Views.antt =====
-- `TVDashboard` and `ProjectGrid` of frontend/src/routes/tv.tsx: what is selected and what is asked
-- for. A list of the grid is given by its length where only that matters.
use bataudit.Prelude.{
  ℕ, String, ◌≡◌, Bool, true, false, not, leb, Option, none, some, List, [], ◌∷◌, get_elem?,
  get_elem?-All, All, if◌then◌else◌,
}
use bataudit.Prelude.Text.{truthy_text}
use bataudit.Dashboard.Tv.{Tv}
use bataudit.Dashboard.WallboardQueries.{
  WbQuery, use_wb_summary, use_wb_feed, use_wb_volume, use_wb_health, use_wb_alerts,
  use_wb_error_routes, use_wb_projects, use_wb_grid,
}
use bataudit.Dashboard.WallboardQueries.Keys.{
  IsUsed, summary_query, feed_query, volume_query, health_query, alerts_query, error_routes_query,
  projects_query, grid_query, query_key-feed,
}

pub data ViewMode : Type 0 where
  dashboard grid : ViewMode

pub record View : Type 0 where
  pub environment : String
  pub view_mode : ViewMode

abbrev pub initial : View
initial = record { environment = ""; view_mode = dashboard }

-- `text || undefined`
abbrev pub or_undefined : String → Option String
or_undefined text = if truthy_text text then some text else none

-- `viewMode === 'grid'`
abbrev pub is_grid : ViewMode → Bool
is_grid grid = true
is_grid dashboard = false

-- `<ProjectGrid …/>`, which is there in the grid only, asks for the grid.
abbrev pub grid_queries : ViewMode → Option String → List WbQuery
grid_queries grid env = use_wb_grid env true ∷ []
grid_queries dashboard env = []

-- The queries of the page.
unfoldable pub queries : (project_id : String) → View → List WbQuery
queries project_id v =
    let env = or_undefined v.environment in
    let project = or_undefined project_id in
    let dash_enabled = not (is_grid v.view_mode) in
    use_wb_summary project env dash_enabled
    ∷ use_wb_feed project env dash_enabled
    ∷ use_wb_volume project env dash_enabled
    ∷ use_wb_health project dash_enabled
    ∷ use_wb_alerts project env dash_enabled
    ∷ use_wb_error_routes project env dash_enabled
    ∷ use_wb_projects true
    ∷ grid_queries v.view_mode env

-- A project of the grid is chosen.
unfoldable pub handle_grid_select : String → Tv × View → Tv × View
handle_grid_select id (s, v) =
    (record s { active_project_id = id }, record v { view_mode = dashboard })

-- The columns of the grid.
abbrev pub cols : ℕ → ℕ
cols n = if leb n 2 then n else if leb n 9 then 3 else 4

grid_queries-IsUsed : (m : ViewMode) (env : Option String) → All IsUsed (grid_queries m env)
grid_queries-IsUsed grid env = (grid_query env true, tt)
grid_queries-IsUsed dashboard env = tt

queries-IsUsed : (project_id : String) (v : View) → All IsUsed (queries project_id v)
unfolding queries
queries-IsUsed project_id v =
    let env = or_undefined v.environment in
    let project = or_undefined project_id in
    let on = not (is_grid v.view_mode) in
    (
      summary_query project env on,
      (
        feed_query project env on,
        (
          volume_query project env on,
          (
            health_query project on,
            (
              alerts_query project env on,
              (
                error_routes_query project env on,
                (projects_query true, grid_queries-IsUsed v.view_mode env),
              ),
            ),
          ),
        ),
      ),
    )

-- Whatever project, environment and view are selected, before and after a change, two queries of
-- the page that have the same key make the same call: what was fetched for one selection is not
-- shown for another.
pub queries-agree :
    (project later : String) (v w : View) (i j : ℕ) (q r : WbQuery)
    → get_elem? (queries project v) i ≡ some q
    → get_elem? (queries later w) j ≡ some r
    → q.query_key ≡ r.query_key
    → q.query_fn ≡ r.query_fn
queries-agree project later v w i j q r at_i at_j same =
    query_key-feed q r
      (get_elem?-All IsUsed (queries project v) i q (queries-IsUsed project v) at_i)
      (get_elem?-All IsUsed (queries later w) j r (queries-IsUsed later w) at_j) same
