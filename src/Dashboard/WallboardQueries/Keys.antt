-- ===== src/Dashboard/WallboardQueries/Keys.antt =====
-- The keys of the wallboard's queries, and the calls that belong to them.
use bataudit.Prelude.{String, ◌≡◌, refl, Bool, Option, some, none, List, [], ◌∷◌, ap, sym, ◌∙◌}
use bataudit.Dashboard.WallboardQueries.{
  Feed, Kind, WbQuery, wb_summary, wb_feed, wb_volume, wb_health, wb_alerts, wb_error_routes,
  wb_projects, wb_grid, summary, feed, volume, health, alerts, error_routes, projects, grid,
  use_wb_summary, use_wb_feed, use_wb_volume, use_wb_health, use_wb_alerts, use_wb_error_routes,
  use_wb_projects, use_wb_grid,
}

-- The call that belongs to a key.
feed_of : Kind × List (Option String) → Option Feed
feed_of (wb_summary, a ∷ b ∷ []) = some (summary a b)
feed_of (wb_feed, a ∷ b ∷ []) = some (feed a b)
feed_of (wb_volume, a ∷ b ∷ []) = some (volume a b)
feed_of (wb_health, a ∷ []) = some (health a)
feed_of (wb_alerts, a ∷ b ∷ []) = some (alerts a b)
feed_of (wb_error_routes, a ∷ b ∷ []) = some (error_routes a b)
feed_of (wb_projects, []) = some projects
feed_of (wb_grid, a ∷ []) = some (grid a)
feed_of _ = none

-- The queries of the wallboard.
pub data IsUsed : WbQuery → Type 0 where
  summary_query : (a b : Option String) (on : Bool) → IsUsed (use_wb_summary a b on)
  feed_query : (a b : Option String) (on : Bool) → IsUsed (use_wb_feed a b on)
  volume_query : (a b : Option String) (on : Bool) → IsUsed (use_wb_volume a b on)
  health_query : (a : Option String) (on : Bool) → IsUsed (use_wb_health a on)
  alerts_query : (a b : Option String) (on : Bool) → IsUsed (use_wb_alerts a b on)
  error_routes_query : (a b : Option String) (on : Bool) → IsUsed (use_wb_error_routes a b on)
  projects_query : (on : Bool) → IsUsed (use_wb_projects on)
  grid_query : (a : Option String) (on : Bool) → IsUsed (use_wb_grid a on)

feed_of-query_key : {q : WbQuery} → IsUsed q → feed_of q.query_key ≡ some q.query_fn
unfolding use_wb_summary use_wb_feed use_wb_volume use_wb_health use_wb_alerts use_wb_error_routes
    use_wb_projects use_wb_grid feed_of
feed_of-query_key (summary_query a b on) = refl
feed_of-query_key (feed_query a b on) = refl
feed_of-query_key (volume_query a b on) = refl
feed_of-query_key (health_query a on) = refl
feed_of-query_key (alerts_query a b on) = refl
feed_of-query_key (error_routes_query a b on) = refl
feed_of-query_key (projects_query on) = refl
feed_of-query_key (grid_query a on) = refl

some_injective : {a b : Feed} → some a ≡ some b → a ≡ b
some_injective e = cc

-- Two queries of the wallboard that have the same key make the same call.
pub query_key-feed :
    (q r : WbQuery) → IsUsed q → IsUsed r → q.query_key ≡ r.query_key → q.query_fn ≡ r.query_fn
query_key-feed q r h k e =
    some_injective (sym (feed_of-query_key h) ∙ ap feed_of e ∙ feed_of-query_key k)
