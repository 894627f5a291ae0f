-- ===== src/Dashboard/Tv/Panels.antt =====
-- The panels of `TVDashboard` in frontend/src/routes/tv.tsx, the health carousel and the cards of the grid.
use bataudit.Prelude.{
  ℕ, suc, ◌/◌, ◌==◌, String, true, not, Option, none, some, List, [], ◌∷◌, ◌++◌, ltb, length, take,
  str_eq, if◌then◌else◌,
}
use bataudit.Prelude.Text.{◌<>◌}
use bataudit.Dashboard.Pages.{page_size, slice}
use bataudit.Dashboard.Screen.{Screen, text, button, when, each}
use bataudit.Dashboard.Tv.Volume.{WbVolumePoint, avg_val, last_val, custom_dot}

-- Times are whole milliseconds.
pub record WbSummary : Type 0 where
  pub events_today : ℕ
  pub errors_4xx : ℕ
  pub errors_5xx : ℕ
  pub avg_response_ms : ℕ
  pub active_services : ℕ

pub record WbFeedEvent : Type 0 where
  pub method : String
  pub path : String
  pub status_code : ℕ
  pub response_ms : ℕ
  pub timestamp : String

pub record WbHealthEntry : Type 0 where
  pub name : String
  pub last_status : String
  pub response_ms : ℕ
  pub last_checked : String

pub record WbAlert : Type 0 where
  pub rule_type : String
  pub service_name : String
  pub timestamp : String

-- The rate is given in whole percents.
pub record WbErrorRoute : Type 0 where
  pub path : String
  pub method : String
  pub error_count : ℕ
  pub error_rate : ℕ

pub record WbProject : Type 0 where
  pub id : String
  pub name : String

pub record WbProjectStat : Type 0 where
  pub project_id : String
  pub project_name : String
  pub events_today : ℕ
  pub errors_4xx : ℕ
  pub errors_5xx : ℕ
  pub avg_response_ms : ℕ
  pub down_monitors : ℕ

-- The texts that the platform makes.
pub record Texts : Type 0 where
  pub number : ℕ → String
  -- `toLocaleString` of a number
  pub grouped : ℕ → String
  -- `timeAgo`
  pub age : String → String
  -- `rule_type.replace(/_/g, ' ')`
  pub spaced : String → String

pub data Age : Type 0 where
  just_now : Age
  seconds minutes hours : ℕ → Age

-- `timeAgo`, for a time that is not empty nor in the future, by its distance in milliseconds.
unfoldable pub time_ago : ℕ → Age
time_ago diff =
    let s = diff / 1000 in
    if s == 0
    then just_now
    else if ltb s 60
    then seconds s
    else if ltb s 3600
    then minutes (s / 60)
    else hours (s / 3600)

pub data Action : Type 0 where
  submit disconnect show_dashboard show_grid : Action
  type_code : String → Action
  choose_environment choose_project : String → Action
  grid_select : (project_id : String) → Action

pub data Color : Type 0 where
  red orange green plain : Color

-- The frame of a card of the grid.
unfoldable pub accent : WbProjectStat → Color
accent s =
    if ltb 0 s.down_monitors
    then red
    else if ltb 0 s.errors_5xx
    then red
    else if ltb 0 s.errors_4xx
    then orange
    else plain

abbrev pub project_grid_card : Texts → WbProjectStat → Screen Action
project_grid_card t s =
    button true "" (grid_select s.project_id)
      ∷ text s.project_name
      ∷ when (ltb 0 s.down_monitors) (text (t.number s.down_monitors) ∷ [])
    ++ (text "Events"
        ∷ text (t.grouped s.events_today)
        ∷ text "Avg"
        ∷ text (t.number s.avg_response_ms <> "ms")
        ∷ text "4xx"
        ∷ text (t.number s.errors_4xx)
        ∷ text "5xx"
        ∷ text (t.number s.errors_5xx)
        ∷ [])

unfoldable pub project_grid : Texts → List WbProjectStat → Screen Action
project_grid t [] = text "No projects yet" ∷ []
project_grid t (s ∷ ss) = each (project_grid_card t) (s ∷ ss)

abbrev pub health_row : Texts → WbHealthEntry → Screen Action
health_row t h =
    text (if str_eq h.last_status "up" then "↑" else "↓")
    ∷ text h.name
    ∷ text (t.number h.response_ms <> "ms")
    ∷ text (t.age h.last_checked)
    ∷ []

-- The dots under the entries have no text.
unfoldable pub health_carousel : Texts → (page : ℕ) → List WbHealthEntry → Screen Action
health_carousel t page entries =
    each (health_row t) (slice page entries)
    ++ when (not (ltb 0 (length entries))) (text "No monitors configured" ∷ [])

abbrev pub stat_card : (label value : String) → Screen Action
stat_card label value = text label ∷ text value ∷ []

-- `summary?.k ?? '—'`
abbrev pub stat : Option WbSummary → (WbSummary → String) → String
stat none f = "—"
stat (some s) f = f s

unfoldable pub stats_row : Texts → Option WbSummary → Screen Action
stats_row t summary =
    stat_card "Events today" (stat summary (λ s. t.number s.events_today))
    ++ (stat_card "4xx errors" (stat summary (λ s. t.number s.errors_4xx))
        ++ (stat_card "5xx errors" (stat summary (λ s. t.number s.errors_5xx))
            ++ (stat_card "Avg response" (stat summary (λ s. t.number s.avg_response_ms <> "ms"))
                ++ stat_card "Services" (stat summary (λ s. t.number s.active_services)))))

abbrev pub label_shown : Option String → Screen Action
label_shown none = []
label_shown (some label) = text label ∷ []

-- The labels of the points, from the one of an index on.
abbrev pub dots : Texts → List WbVolumePoint → ℕ → List WbVolumePoint → Screen Action
dots t pts index [] = []
dots t pts index (p ∷ ps) =
    label_shown (custom_dot t.number pts index p.count) ++ dots t pts (suc index) ps

unfoldable pub volume_panel : Texts → List WbVolumePoint → Screen Action
volume_panel t pts =
    text "Volume (last 2h)"
      ∷ text ("avg " <> t.number (avg_val pts))
      ∷ text ("now " <> t.number (last_val pts))
      ∷ when (ltb 0 (avg_val pts)) (text ("avg " <> t.number (avg_val pts)) ∷ [])
    ++ dots t pts 0 pts

-- A text that stands for a list without entries.
abbrev pub or_empty : {B : Type 0} → String → List B → Screen Action
or_empty none_text xs = when (not (ltb 0 (length xs))) (text none_text ∷ [])

abbrev pub error_route : Texts → WbErrorRoute → Screen Action
error_route t r =
    text r.method
    ∷ text r.path
    ∷ text (t.number r.error_count)
    ∷ text (t.number r.error_rate <> "%")
    ∷ []

unfoldable pub error_routes_panel : Texts → List WbErrorRoute → Screen Action
error_routes_panel t routes =
    text "Top Error Routes" ∷ each (error_route t) (take 8 routes)
    ++ or_empty "No errors in the last hour" routes

abbrev pub feed_row : Texts → WbFeedEvent → Screen Action
feed_row t e =
    text e.method
    ∷ text e.path
    ∷ text (t.number e.status_code)
    ∷ text (t.number e.response_ms <> "ms")
    ∷ text (t.age e.timestamp)
    ∷ []

unfoldable pub feed_panel : Texts → List WbFeedEvent → Screen Action
feed_panel t events = text "Live Feed" ∷ each (feed_row t) events ++ or_empty "No events yet" events

unfoldable pub health_panel : Texts → (page : ℕ) → List WbHealthEntry → Screen Action
health_panel t page entries =
    text "Health Monitors"
      ∷ when (ltb page_size (length entries)) (text (t.number (length entries) <> " total") ∷ [])
    ++ health_carousel t page entries

abbrev pub alert_row : Texts → WbAlert → Screen Action
alert_row t a = text (t.spaced a.rule_type) ∷ text (t.age a.timestamp) ∷ text a.service_name ∷ []

unfoldable pub alerts_panel : Texts → List WbAlert → Screen Action
alerts_panel t alerts =
    text "Recent Alerts" ∷ each (alert_row t) alerts
    ++ or_empty "No alerts in the last 30 minutes" alerts
