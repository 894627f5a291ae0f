-- ===== src/Dashboard/Filters.antt =====
-- The filters of the event list: the search parameters and their changes in
-- frontend/src/routes/app/_layout/index.tsx, the time ranges of
-- frontend/src/components/time-range-picker.constants.ts, and `useAuditList` of
-- frontend/src/queries/audit.ts. Times are milliseconds since 1970, and `toISOString` is an argument.
pub mod Ranges
pub mod Export
use Prim.Native.Nat.{◌-◌}
use mathlib.Core.Option
use bataudit.Prelude.{
  ℕ, ◌*◌, String, Bool, true, false, Option, none, some, List, [], ◌∷◌, ◌++◌, if◌then◌else◌,
  ◌or_else◌, str_eq, ◌&&◌,
}
use bataudit.Prelude.Text.{truthy_text}
use bataudit.Web.Clients.Requests.{given, Search as Query}
use bataudit.Web.Clients.Audit.{ListAuditParams}

pub data RelativeRange : Type 0 where
  m5 m15 m30 h1 h3 h6 h12 h24 d3 d7 d30 : RelativeRange

pub data TimeRange : Type 0 where
  relative : RelativeRange → TimeRange
  custom : TimeRange

-- The table `TIME_RANGE_MS`.
unfoldable pub time_range_ms : RelativeRange → ℕ
time_range_ms m5 = 5 * 60 * 1000
time_range_ms m15 = 15 * 60 * 1000
time_range_ms m30 = 30 * 60 * 1000
time_range_ms h1 = 60 * 60 * 1000
time_range_ms h3 = 3 * 60 * 60 * 1000
time_range_ms h6 = 6 * 60 * 60 * 1000
time_range_ms h12 = 12 * 60 * 60 * 1000
time_range_ms h24 = 24 * 60 * 60 * 1000
time_range_ms d3 = 3 * 24 * 60 * 60 * 1000
time_range_ms d7 = 7 * 24 * 60 * 60 * 1000
time_range_ms d30 = 30 * 24 * 60 * 60 * 1000

pub data SortBy : Type 0 where
  timestamp status_code response_time : SortBy

pub data SortOrder : Type 0 where
  asc desc : SortOrder

-- The search parameters of the page's URL.
pub record Search : Type 0 where
  pub page : Option ℕ
  pub service_name : Option String
  pub method : Option String
  pub path : Option String
  pub status_code : Option String
  pub status_class : Option String
  pub identifier : Option String
  pub time_range : Option TimeRange
  pub start_date : Option String
  pub end_date : Option String
  pub sort_by : Option SortBy
  pub sort_order : Option SortOrder

abbrev pub empty_search : Search
empty_search = record {
  page = none;
  service_name = none;
  method = none;
  path = none;
  status_code = none;
  status_class = none;
  identifier = none;
  time_range = none;
  start_date = none;
  end_date = none;
  sort_by = none;
  sort_order = none;
}

-- `search.time_range && search.time_range !== 'custom' ? undefined : date`
abbrev pub absolute : Option TimeRange → Option String → Option String
absolute (some (relative r)) date = none
absolute _ date = date

-- `activeFilters`, but for the parameters that are copied as they are.
pub record ActiveFilters : Type 0 where
  pub search : Search
  pub environment : Option String
  pub start_date : Option String
  pub end_date : Option String

unfoldable pub active_filters : Search → Option String → ActiveFilters
active_filters search environment = record {
  search = search;
  environment = environment;
  start_date = absolute search.time_range search.start_date;
  end_date = absolute search.time_range search.end_date;
}

-- `onRelative`, `onAbsolute` and `onClear` of the picker.
unfoldable pub on_relative : RelativeRange → Search → Search
on_relative range prev = record prev {
  time_range = some (relative range);
  start_date = none;
  end_date = none;
  page = some 1;
}

unfoldable pub on_absolute : (start end : String) → Search → Search
on_absolute start end prev = record prev {
  time_range = some custom;
  start_date = some start;
  end_date = if truthy_text end then some end else none;
  page = some 1;
}

unfoldable pub on_clear : Search → Search
on_clear prev = record prev { time_range = none; start_date = none; end_date = none; page = some 1 }

abbrev pub same_column : SortBy → SortBy → Bool
same_column timestamp timestamp = true
same_column status_code status_code = true
same_column response_time response_time = true
same_column _ _ = false

abbrev pub is_desc : SortOrder → Bool
is_desc desc = true
is_desc asc = false

unfoldable pub toggle_feed_sort : SortBy → Search → Search
toggle_feed_sort col prev =
    let current_col = prev.sort_by or_else timestamp in
    let current_dir = prev.sort_order or_else desc in
    record prev {
      sort_by = some col;
      sort_order = some (if same_column current_col col && is_desc current_dir then asc else desc);
      page = some 1;
    }

abbrev pub sort_by_text : SortBy → String
sort_by_text timestamp = "timestamp"
sort_by_text status_code = "status_code"
sort_by_text response_time = "response_time"

abbrev pub sort_order_text : SortOrder → String
sort_order_text asc = "asc"
sort_order_text desc = "desc"

module _ (iso : ℕ → String) (now : ℕ) where
  -- `resolved.start_date` and `resolved.end_date`.
  abbrev pub resolved_start : Option TimeRange → Option String → Option String
  resolved_start (some (relative r)) date = some (iso (now - time_range_ms r))
  resolved_start _ date = date

  abbrev pub resolved_end : Option TimeRange → Option String → Option String
  resolved_end (some (relative r)) date = none
  resolved_end _ date = date

  -- The arguments of `ListAudit` that the query function of `useAuditList` makes.
  unfoldable pub audit_list_params :
      (page limit : ℕ) → Option String → ActiveFilters → ListAuditParams
  audit_list_params page limit project_id f = record {
    page = some page;
    limit = some limit;
    project_id = project_id;
    service_name = f.search.service_name;
    method = f.search.method;
    path = f.search.path;
    status_code = f.search.status_code;
    status_class = f.search.status_class;
    environment = f.environment;
    identifier = f.search.identifier;
    start_date = resolved_start f.search.time_range f.start_date;
    end_date = resolved_end f.search.time_range f.end_date;
    sort_by = Option.map sort_by_text f.search.sort_by;
    sort_order = Option.map sort_order_text f.search.sort_order;
    event_type = none;
  }

  -- What the page asks for: 50 events of the page in the URL.
  unfoldable pub page_params : Option String → Option String → Search → ListAuditParams
  unfolding audit_list_params active_filters
  page_params project_id environment search =
      audit_list_params (search.page or_else 1) 50 project_id (active_filters search environment)

-- The parameters of the export in `handleExport`.
unfoldable pub export_query : String → Option String → ActiveFilters → Query
export_query format project_id f =
    ("format", format) ∷ given "project_id" project_id
    ++ given "service_name" f.search.service_name
    ++ given "method" f.search.method
    ++ given "status_code" f.search.status_code
    ++ given "environment" f.environment
    ++ given "identifier" f.search.identifier
    ++ given "start_date" f.start_date
    ++ given "end_date" f.end_date
