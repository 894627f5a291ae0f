-- ===== src/Dashboard/Overview/Feed.antt =====
-- The feed of the event list in frontend/src/routes/app/_layout/index.tsx, and the whole page. The panel of
-- the time range picker is Dashboard.Picker, and the window of an event that of Dashboard.Events.
use bataudit.Prelude.{
  ℕ, String, Bool, true, not, Option, none, some, List, [], ◌∷◌, ◌++◌, ◌==◌, str_eq, if◌then◌else◌,
  ◌or_else◌,
}
use bataudit.Prelude.Text.{◌<>◌}
use bataudit.Dashboard.Screen.{Screen, text, button, input, choice, when, each}
use bataudit.Dashboard.Filters.{Search, SortBy, timestamp, status_code, response_time}
use bataudit.Dashboard.Overview.{
  has_filters, service_name, method, identifier, status_code as status_key,
}
use bataudit.Dashboard.Overview.Page.{
  Page, AuditStats, AuditSummary, HistoryPoint, OrphansResponse, Texts, Action, clear,
  toggle_filter, toggle_export, export_as, select_event, sort_feed, set, set_environment, set_page,
}
use bataudit.Dashboard.Overview.Figures.{
  heading, metric_cards, Monitor, down_monitors, orphans_banner, services_table,
}
use bataudit.Dashboard.Overview.Charts.{charts}
use bataudit.Dashboard.Pages.{Control, previous, link, ellipsis, next, app_pagination}
use bataudit.Dashboard.Services.{sorted_services}

abbrev pub export_menu : Screen Action
export_menu = button true "CSV" (export_as "csv") ∷ button true "JSON" (export_as "json") ∷ []

abbrev pub feed_header : Page → Screen Action
feed_header s =
    text "Event Feed" ∷ when (has_filters s.search) (button true "Clear" clear ∷ [])
    ++ (button true "Filter" toggle_filter
        ∷ button (not s.exporting) (if s.exporting then "Exporting…" else "Export") toggle_export
        ∷ when s.export_open export_menu)

abbrev pub environment_button : String → Screen Action
environment_button e = button true e (set_environment (some e)) ∷ []

abbrev pub environments : Screen Action
environments =
    button true "All envs" (set_environment none)
    ∷ each environment_button ("production" ∷ "staging" ∷ "development" ∷ "testing" ∷ "local" ∷ [])

abbrev pub methods : List String
methods = "" ∷ "GET" ∷ "POST" ∷ "PUT" ∷ "PATCH" ∷ "DELETE" ∷ []

abbrev pub filter_panel : Search → Screen Action
filter_panel s =
    input (s.service_name or_else "") (set service_name)
    ∷ choice true (s.method or_else "") methods (set method)
    ∷ input (s.status_code or_else "") (set status_key)
    ∷ input (s.identifier or_else "") (set identifier)
    ∷ []

abbrev pub sort_head : (label : String) → SortBy → Screen Action
sort_head label col = button true label (sort_feed col) ∷ []

abbrev pub sort_heads : Screen Action
sort_heads =
    sort_head "Time" timestamp
    ++ (sort_head "Status" status_code ++ sort_head "Time(ms)" response_time)

abbrev pub is_alert : AuditSummary → Bool
is_alert e = str_eq e.event_type "system.alert"

abbrev pub event_row : Texts → AuditSummary → Screen Action
event_row t e =
    button true "" (select_event e.id)
      ∷ text (t.clock e.timestamp)
      ∷ text e.service_name
      ∷ text (if is_alert e then "ALERT" else e.method)
      ∷ text e.path
      ∷ when (not (is_alert e)) (text (t.number e.status_code) ∷ [])
    ++ text (if e.response_time == 0 then "—" else t.number e.response_time <> "ms") ∷ []

-- How the list stands.
pub data Listed : Type 0 where
  failed loading : Listed
  listed : (events : List AuditSummary) (total_pages : ℕ) → Listed

abbrev pub no_events : List AuditSummary → Screen Action
no_events [] = text "No events found." ∷ []
no_events (e ∷ es) = []

unfoldable pub event_list : Texts → Listed → Screen Action
event_list t failed = text "Failed to load events. Check your connection and try again." ∷ []
event_list t loading = sort_heads
event_list t (listed events n) = sort_heads ++ (no_events events ++ each (event_row t) events)

-- `auditList?.pagination.totalPage ?? 1`, for a query that has not failed after it had data.
abbrev pub total_pages : Listed → ℕ
total_pages (listed events n) = n
total_pages _ = 1

abbrev pub control : Texts → Control → Screen Action
control t (previous p) = button true "Previous" (set_page p) ∷ []
control t (link p is_current) = button true (t.number p) (set_page p) ∷ []
control t ellipsis = text "…" ∷ []
control t (next p) = button true "Next" (set_page p) ∷ []

unfoldable pub feed : Texts → Listed → Page → Screen Action
feed t l s =
    feed_header s
    ++ (environments
        ++ (when s.filter_open (filter_panel s.search)
            ++ (event_list t l
                ++ each (control t) (app_pagination (s.search.page or_else 1) (total_pages l)))))

-- What the queries of the page report.
pub record Loaded : Type 0 where
  pub project_id : Option String
  pub stats_loading : Bool
  pub stats : Option AuditStats
  pub alerts : ℕ
  pub monitors : List Monitor
  pub orphans : Option OrphansResponse
  pub history : List HistoryPoint
  pub events : Listed

abbrev pub orphans_total : Option OrphansResponse → ℕ
orphans_total none = 0
orphans_total (some o) = o.total

abbrev pub services_shown : Texts → (String → String → Bool) → Loaded → Page → Screen Action
services_shown t text_less d s = elim d.stats [
  | none ↦ []
  | some st ↦ services_table t d.monitors (sorted_services text_less s.sort st.by_service)
]

unfoldable pub view : Texts → (text_less : String → String → Bool) → Loaded → Page → Screen Action
view t text_less d s =
    heading t d.project_id d.stats
    ++ (metric_cards t d.stats_loading d.stats d.alerts (orphans_total d.orphans)
        ++ (down_monitors t d.monitors
            ++ (orphans_banner t s.show_orphans d.orphans
                ++ (services_shown t text_less d s
                    ++ (charts t d.project_id d.stats d.history ++ feed t d.events s)))))
