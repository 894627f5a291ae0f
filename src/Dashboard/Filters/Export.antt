-- ===== src/Dashboard/Filters/Export.antt =====
-- What the export contains, compared with the list on the page.
use bataudit.Prelude.{String, ◌≡◌, Option, none, some}
use bataudit.Dashboard.Filters.{RelativeRange, relative, Search, active_filters, export_query}

-- Under a relative time range the export asks for the same as with no time range, no path and no
-- status class: it is not restricted to the events that the list shows.
pub export_query-relative :
    (format : String) (project_id environment : Option String) (r : RelativeRange) (s : Search)
    → s.time_range ≡ some (relative r)
    → export_query format project_id (active_filters s environment)
      ≡ export_query format project_id (
          active_filters
            (record s {
              time_range = none;
              start_date = none;
              end_date = none;
              path = none;
              status_class = none;
            })
            environment)
unfolding export_query active_filters
export_query-relative format project_id environment r s h = rw h
