-- ===== src/Dashboard/WallboardQueries.antt =====
-- frontend/src/queries/wallboard.ts: the queries of a wallboard, which are made again after a time.
-- `data` of the reply, which some select, is read where it is shown.
pub mod Keys
use bataudit.Prelude.{ℕ, String, Bool, Option, none, some, List, [], ◌∷◌}
use bataudit.Prelude.Json.{Json}
use bataudit.Web.Platform.{Platform}
use bataudit.Web.Http.{Api}
use bataudit.Web.Wallboard.Feeds.{
  get_wb_summary, get_wb_feed, get_wb_volume, get_wb_health, get_wb_alerts, get_wb_error_routes,
  get_wb_projects, get_wb_grid,
}

-- The calls that the queries make.
pub data Feed : Type 0 where
  summary feed volume alerts error_routes : (project_id environment : Option String) → Feed
  health : (project_id : Option String) → Feed
  projects : Feed
  grid : (environment : Option String) → Feed

abbrev pub run : Platform → Feed → Api Json
run p (summary project_id environment) = get_wb_summary p project_id environment
run p (feed project_id environment) = get_wb_feed p project_id environment
run p (volume project_id environment) = get_wb_volume p project_id environment
run p (health project_id) = get_wb_health p project_id
run p (alerts project_id environment) = get_wb_alerts p project_id environment
run p (error_routes project_id environment) = get_wb_error_routes p project_id environment
run p projects = get_wb_projects p
run p (grid environment) = get_wb_grid p environment

-- The text that a key begins with.
pub data Kind : Type 0 where
  wb_summary wb_feed wb_volume wb_health wb_alerts wb_error_routes wb_projects wb_grid : Kind

pub record WbQuery : Type 0 where
  pub query_key : Kind × List (Option String)
  pub query_fn : Feed
  pub refetch_interval : ℕ
  pub enabled : Bool

abbrev pub refetch : ℕ
refetch = 30000

unfoldable pub use_wb_summary : (project_id environment : Option String) → Bool → WbQuery
use_wb_summary project_id environment enabled = record {
  query_key = (wb_summary, project_id ∷ environment ∷ []);
  query_fn = summary project_id environment;
  refetch_interval = refetch;
  enabled = enabled;
}

unfoldable pub use_wb_feed : (project_id environment : Option String) → Bool → WbQuery
use_wb_feed project_id environment enabled = record {
  query_key = (wb_feed, project_id ∷ environment ∷ []);
  query_fn = feed project_id environment;
  refetch_interval = refetch;
  enabled = enabled;
}

unfoldable pub use_wb_volume : (project_id environment : Option String) → Bool → WbQuery
use_wb_volume project_id environment enabled = record {
  query_key = (wb_volume, project_id ∷ environment ∷ []);
  query_fn = volume project_id environment;
  refetch_interval = refetch;
  enabled = enabled;
}

unfoldable pub use_wb_health : (project_id : Option String) → Bool → WbQuery
use_wb_health project_id enabled = record {
  query_key = (wb_health, project_id ∷ []);
  query_fn = health project_id;
  refetch_interval = refetch;
  enabled = enabled;
}

unfoldable pub use_wb_alerts : (project_id environment : Option String) → Bool → WbQuery
use_wb_alerts project_id environment enabled = record {
  query_key = (wb_alerts, project_id ∷ environment ∷ []);
  query_fn = alerts project_id environment;
  refetch_interval = refetch;
  enabled = enabled;
}

unfoldable pub use_wb_error_routes : (project_id environment : Option String) → Bool → WbQuery
use_wb_error_routes project_id environment enabled = record {
  query_key = (wb_error_routes, project_id ∷ environment ∷ []);
  query_fn = error_routes project_id environment;
  refetch_interval = refetch;
  enabled = enabled;
}

unfoldable pub use_wb_projects : Bool → WbQuery
use_wb_projects enabled = record {
  query_key = (wb_projects, []);
  query_fn = projects;
  refetch_interval = 60000;
  enabled = enabled;
}

unfoldable pub use_wb_grid : (environment : Option String) → Bool → WbQuery
use_wb_grid environment enabled = record {
  query_key = (wb_grid, environment ∷ []);
  query_fn = grid environment;
  refetch_interval = refetch;
  enabled = enabled;
}
