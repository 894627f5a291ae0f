-- ===== src/Dashboard/Overview/FilterChange.antt =====
-- Setting and clearing filters.
use bataudit.Prelude.{String, true, ◌≡◌, some, arith, eq_iff, List, [], ◌∷◌, ◌++◌}
use bataudit.Prelude.Text.{truthy_text}
use bataudit.Dashboard.Filters.{Search}
use bataudit.Dashboard.Overview.{Key, set_filter, has_filters, monitor_by_service}

-- A filter that is set to a text that is not empty counts as a filter.
has_filters-set_filter :
    (key : Key) (value : String) (s : Search)
    → truthy_text value ≡ true
    → has_filters (set_filter key value s) ≡ true
unfolding has_filters set_filter
has_filters-set_filter key value s h = ground arith

-- The last value that was set for a key is what counts.
set_filter_twice :
    (key : Key) (value later : String) (s : Search)
    → set_filter key later (set_filter key value s) ≡ set_filter key later s
unfolding set_filter
set_filter_twice key value later s = ground arith

-- A monitor that comes last in the list gives the health of its service.
monitor_by_service_last :
    (name status : String) (ms : List (String × String))
    → monitor_by_service name (ms ++ (name, status) ∷ []) ≡ some status
unfolding monitor_by_service
monitor_by_service_last name status [] = ground (arith, eq_iff name name)
monitor_by_service_last name status ((n, t) ∷ ms) =
    ground (arith, monitor_by_service_last name status ms)
