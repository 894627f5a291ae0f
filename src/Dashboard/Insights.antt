-- ===== src/Dashboard/Insights.antt =====
-- frontend/src/routes/app/_layout/insights.tsx: four rankings, whose rows lead to the event list.
pub mod Led
use bataudit.Prelude.{
  ℕ, ◌+◌, ◌/◌, suc, String, Bool, true, false, not, ◌&&◌, Option, none, some, List, [], ◌∷◌, ◌++◌,
  str_eq, if◌then◌else◌,
}
use bataudit.Prelude.Text.{◌<>◌, truthy_text}
use bataudit.Dashboard.Screen.{Screen, text, button, each}
use bataudit.Dashboard.Filters.{Search, SortBy, SortOrder, response_time, desc}

pub record TopEndpoint : Type 0 where
  pub path : String
  pub method : String
  pub count : ℕ

pub record TopUser : Type 0 where
  pub identifier : String
  pub user_email : String
  pub user_name : String
  pub count : ℕ

-- The rate is given in thousandths of a percent, and the mean time in thousandths of a millisecond.
pub record TopErrorRoute : Type 0 where
  pub path : String
  pub method : String
  pub error_count : ℕ
  pub total : ℕ
  pub error_rate : ℕ

pub record TopSlowRoute : Type 0 where
  pub path : String
  pub method : String
  pub avg_ms : ℕ

pub record InsightsResult : Type 0 where
  pub top_endpoints : List TopEndpoint
  pub top_users : List TopUser
  pub top_error_routes : List TopErrorRoute
  pub top_slow_routes : List TopSlowRoute

-- The arguments of `goToEvents`.
pub data Filters : Type 0 where
  route : (method path : String) → Filters
  user : (identifier : String) → Filters
  slow_route : (method path : String) → Filters

pub data Action : Type 0 where
  set_period : String → Action
  go_to_events : Filters → Action

abbrev pub filtered : Filters → Search → Search
filtered (route method path) prev = record prev { method = some method; path = some path }
filtered (user identifier) prev = record prev { identifier = some identifier }
filtered (slow_route method path) prev = record prev {
  method = some method;
  path = some path;
  sort_by = some response_time;
  sort_order = some desc;
}

-- The search of the event list that `goToEvents` opens, from the search at hand.
unfoldable pub event_search : Filters → Search → Search
event_search filters prev = record (filtered filters prev) { page = some 1 }

abbrev pub periods : List String
periods = "7d" ∷ "30d" ∷ "90d" ∷ []

abbrev pub period_button : String → Screen Action
period_button p = button true p (set_period p) ∷ []

-- The rows of a ranking, numbered from a place.
abbrev pub ranked : {A : Type 0} → (ℕ → A → Screen Action) → ℕ → List A → Screen Action
ranked f n [] = []
ranked f n (x ∷ xs) = f n x ++ ranked f (suc n) xs

abbrev pub rank_card : {A : Type 0} → String → (ℕ → A → Screen Action) → List A → Screen Action
rank_card title f [] = text title ∷ text "No data for this period" ∷ []
rank_card title f (x ∷ xs) = text title ∷ ranked f 1 (x ∷ xs)

-- `toLocaleString` of a number, `toFixed(1)` of a rate, and the rounding of a mean time.
module _ (number : ℕ → String) (fixed : ℕ → String) where
  abbrev pub endpoint_row : ℕ → TopEndpoint → Screen Action
  endpoint_row n r =
      button true "View events for this endpoint" (go_to_events (route r.method r.path))
      ∷ text (number n)
      ∷ text r.method
      ∷ text r.path
      ∷ text (number r.count)
      ∷ []

  abbrev pub user_row : ℕ → TopUser → Screen Action
  user_row n r =
      button true "View events for this user" (go_to_events (user r.identifier))
        ∷ text (number n)
        ∷ text (if truthy_text r.user_email then r.user_email else r.identifier)
        ∷ (if truthy_text r.user_email && not (str_eq r.identifier r.user_email)
            then text r.identifier ∷ []
            else [])
      ++ text (number r.count) ∷ []

  abbrev pub error_row : ℕ → TopErrorRoute → Screen Action
  error_row n r =
      button true "View error events for this route" (go_to_events (route r.method r.path))
      ∷ text (number n)
      ∷ text r.method
      ∷ text r.path
      ∷ text (number r.error_count <> " err")
      ∷ text (fixed r.error_rate <> "%")
      ∷ []

  abbrev pub slow_row : ℕ → TopSlowRoute → Screen Action
  slow_row n r =
      button true "View slowest events for this route" (go_to_events (slow_route r.method r.path))
      ∷ text (number n)
      ∷ text r.method
      ∷ text r.path
      ∷ text (number ((r.avg_ms + 500) / 1000) <> "ms")
      ∷ []

  abbrev pub cards : InsightsResult → Screen Action
  cards d =
      rank_card "Top Endpoints by Volume" endpoint_row d.top_endpoints
      ++ (rank_card "Top Users by Activity" user_row d.top_users
          ++ (rank_card "Top Routes by Error Rate" error_row d.top_error_routes
              ++ rank_card "Top Routes by Response Time" slow_row d.top_slow_routes))

  -- No reply shows as one whose rankings are empty.
  abbrev pub no_result : InsightsResult
  no_result = record {
    top_endpoints = [];
    top_users = [];
    top_error_routes = [];
    top_slow_routes = [];
  }

  unfoldable pub view : (is_loading : Bool) → Option InsightsResult → Screen Action
  view is_loading found =
      (text "Insights" ∷ each period_button periods)
      ++ (if is_loading then [] else elim found [ none ↦ cards no_result | some d ↦ cards d ])
