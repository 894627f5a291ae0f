-- ===== src/Web/Wallboard/Feeds.antt =====
-- frontend/src/http/wallboard.ts, the second part: what a wallboard shows.
use bataudit.Prelude.{String, Option, none}
use bataudit.Prelude.Json.{Json}
use bataudit.Web.Platform.{Platform}
use bataudit.Web.Http.{Api, ◌>>=◌}
use bataudit.Web.Clients.Requests.{checked}
use bataudit.Web.Wallboard.{wb_fetch}

module _ (p : Platform) where
  unfoldable pub get_wb_summary : (project_id environment : Option String) → Api Json
  get_wb_summary project_id environment = do
    res ← wb_fetch p "/v1/wallboard/summary" project_id environment
    checked "Failed to fetch summary" res

  unfoldable pub get_wb_feed : (project_id environment : Option String) → Api Json
  get_wb_feed project_id environment = do
    res ← wb_fetch p "/v1/wallboard/feed" project_id environment
    checked "Failed to fetch feed" res

  unfoldable pub get_wb_volume : (project_id environment : Option String) → Api Json
  get_wb_volume project_id environment = do
    res ← wb_fetch p "/v1/wallboard/volume" project_id environment
    checked "Failed to fetch volume" res

  unfoldable pub get_wb_health : Option String → Api Json
  get_wb_health project_id = do
    res ← wb_fetch p "/v1/wallboard/health" project_id none
    checked "Failed to fetch health" res

  unfoldable pub get_wb_alerts : (project_id environment : Option String) → Api Json
  get_wb_alerts project_id environment = do
    res ← wb_fetch p "/v1/wallboard/alerts" project_id environment
    checked "Failed to fetch alerts" res

  unfoldable pub get_wb_error_routes : (project_id environment : Option String) → Api Json
  get_wb_error_routes project_id environment = do
    res ← wb_fetch p "/v1/wallboard/error-routes" project_id environment
    checked "Failed to fetch error routes" res

  unfoldable pub get_wb_projects : Api Json
  get_wb_projects = do
    res ← wb_fetch p "/v1/wallboard/projects" none none
    checked "Failed to fetch projects" res

  unfoldable pub get_wb_grid : Option String → Api Json
  get_wb_grid environment = do
    res ← wb_fetch p "/v1/wallboard/grid" none environment
    checked "Failed to fetch grid" res
