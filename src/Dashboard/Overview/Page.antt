-- ===== src/Dashboard/Overview/Page.antt =====
-- The state of the event list in frontend/src/routes/app/_layout/index.tsx, its data, and what its
-- controls do.
use bataudit.Prelude.{
  ℕ, ◌+◌, ◌*◌, String, Bool, true, false, not, Option, none, some, List, str_eq, if◌then◌else◌,
}
use bataudit.Dashboard.Filters.{
  Search, RelativeRange, custom, SortBy, on_relative, on_absolute, on_clear, toggle_feed_sort,
}
use bataudit.Dashboard.Overview.{Key, set_filter, clear_filters}
use bataudit.Dashboard.Services.{ServiceBreakdown, Column, Direction, requests, desc, toggle_sort}

pub record TimelinePoint : Type 0 where
  pub hour : String
  pub count : ℕ

-- Counts, and times in whole milliseconds.
pub record AuditStats : Type 0 where
  pub total : ℕ
  pub errors_4xx : ℕ
  pub errors_5xx : ℕ
  pub avg_response_time : ℕ
  pub p95_response_time : ℕ
  pub active_services : ℕ
  pub last_event_at : String
  pub by_service : List ServiceBreakdown
  pub by_status_class : List (String × ℕ)
  pub by_method : List (String × ℕ)
  pub timeline : List TimelinePoint

pub record HistoryPoint : Type 0 where
  pub period_start : String
  pub period_type : String
  pub event_count : ℕ
  pub errors_4xx : ℕ
  pub errors_5xx : ℕ

pub record AuditSummary : Type 0 where
  pub id : String
  pub event_type : String
  pub identifier : String
  pub method : String
  pub path : String
  pub status_code : ℕ
  pub service_name : String
  pub timestamp : String
  pub response_time : ℕ

pub record OrphansResponse : Type 0 where
  pub events : List AuditSummary
  pub total : ℕ

-- The texts and times that the platform makes.
pub record Texts : Type 0 where
  pub number : ℕ → String
  -- `toLocaleString` of a number
  pub grouped : ℕ → String
  -- `timeAgo`
  pub age : String → String
  -- `toLocaleTimeString` with hours and minutes
  pub clock : String → String
  -- `((part / whole) * 100).toFixed(1)`
  pub percent : (part whole : ℕ) → String
  -- `getHours()` of a time
  pub hours : String → String
  -- `getTime()` of a time
  pub time : String → ℕ
  -- The labels of a day, and of an hour of a day.
  pub day : String → String
  pub day_and_hour : String → String
  pub iso : ℕ → String

pub data Action : Type 0 where
  refresh clear toggle_filter toggle_orphans toggle_export clear_range : Action
  export_as : (format : String) → Action
  select_event : (id : String) → Action
  sort_services : Column → Action
  sort_feed : SortBy → Action
  set : Key → String → Action
  set_environment : Option String → Action
  click_hour : (raw_hour : ℕ) → Action
  click_status click_method : String → Action
  pick_relative : RelativeRange → Action
  pick_absolute : (start end : String) → Action
  set_page : ℕ → Action

pub record Page : Type 0 where
  pub search : Search
  pub environment : Option String
  pub filter_open : Bool
  pub selected_event_id : Option String
  pub sort : Column × Direction
  pub show_orphans : Bool
  pub exporting : Bool
  pub export_open : Bool

abbrev pub start : Search → Option String → Page
start search environment = record {
  search = search;
  environment = environment;
  filter_open = false;
  selected_event_id = none;
  sort = (requests, desc);
  show_orphans = false;
  exporting = false;
  export_open = false;
}

abbrev pub is_selected : Option String → String → Bool
is_selected none name = false
is_selected (some s) name = str_eq s name

-- `search.k === name ? undefined : name`
abbrev pub toggled : Option String → String → Option String
toggled selected name = if is_selected selected name then none else some name

-- The clicks on the charts: an hour, a class of statuses, a method.
unfoldable pub hour_clicked : (iso : ℕ → String) → (raw_hour : ℕ) → Search → Search
hour_clicked iso raw_hour prev = record prev {
  time_range = some custom;
  start_date = some (iso raw_hour);
  end_date = some (iso (raw_hour + 60 * 60 * 1000));
  page = some 1;
}

unfoldable pub status_clicked : String → Search → Search
status_clicked cls prev = record prev {
  status_class = toggled prev.status_class cls;
  status_code = none;
  page = some 1;
}

unfoldable pub method_clicked : String → Search → Search
method_clicked m prev = record prev { method = toggled prev.method m; page = some 1 }

-- An action, which changes the state; `refresh` asks for the data again, and an export is
-- handle_export of Dashboard.Overview.
unfoldable pub act : Texts → Action → Page → Page
act t refresh s = s
act t clear s = record s { search = clear_filters }
act t toggle_filter s = record s { filter_open = not s.filter_open }
act t toggle_orphans s = record s { show_orphans = not s.show_orphans }
act t toggle_export s = record s { export_open = not s.export_open }
act t clear_range s = record s { search = on_clear s.search }
act t (export_as format) s = record s { exporting = true; export_open = false }
act t (select_event id) s = record s { selected_event_id = some id }
act t (sort_services col) s = record s { sort = toggle_sort col s.sort }
act t (sort_feed col) s = record s { search = toggle_feed_sort col s.search }
act t (set key value) s = record s { search = set_filter key value s.search }
act t (set_environment e) s = record s { environment = e }
act t (click_hour raw_hour) s = record s { search = hour_clicked t.iso raw_hour s.search }
act t (click_status cls) s = record s { search = status_clicked cls s.search }
act t (click_method m) s = record s { search = method_clicked m s.search }
act t (pick_relative range) s = record s { search = on_relative range s.search }
act t (pick_absolute start end) s = record s { search = on_absolute start end s.search }
act t (set_page p) s = record s { search = record (s.search) { page = some p } }
