-- ===== src/Dashboard/Examples.antt =====
-- The theorems of the pages at concrete inputs.
use bataudit.Prelude.{
  ℕ, ◌/◌, ◌%◌, ◌<◌, String, ◌≡◌, refl, none, some, List, [], ◌∷◌, length, get_elem?, All, arith,
}
use bataudit.Web.Clients.Studio.{Widget, GridItem, line, pie}
use bataudit.Dashboard.Studio.{Studio, add_or_update_widget, remove_widget, new_report}
use bataudit.Dashboard.Studio.Consistency.{IsConsistent, studio-IsConsistent}
use bataudit.Dashboard.Studio.Overlap.{Disjoint, studio-Disjoint}
use bataudit.Dashboard.Filters.{Search, empty_search, relative, h24, active_filters, export_query}
use bataudit.Dashboard.Filters.Export.{export_query-relative}
use bataudit.Dashboard.Pages.{app_pagination, page_count, slice}
use bataudit.Dashboard.Pages.Controls.{LeadsInto, marked, app_pagination_sound}
use bataudit.Dashboard.Pages.Carousel.{ticks, slice-covers}
use bataudit.Dashboard.Queries.{use_insights}
use bataudit.Dashboard.Queries.Keys.{insights_query, query_key-query_fn}

abbrev errors : Widget
errors = record { id = "w1"; title = "Errors"; sql = "SELECT 1"; viz = line }

abbrev methods : Widget
methods = record { id = "w2"; title = "Methods"; sql = "SELECT 2"; viz = pie }

abbrev errors_place : GridItem
errors_place = record { i = "w1"; x = 0; y = 0; w = 6; h = 8 }

abbrev one_widget : Studio
one_widget = record {
  report_id = none;
  name = "Errors by day";
  widgets = errors ∷ [];
  layout = errors_place ∷ [];
  editing = some methods;
}

studio-IsConsistent_example :
    IsConsistent (add_or_update_widget methods one_widget)
    × IsConsistent (remove_widget "w1" one_widget)
    × IsConsistent (new_report one_widget)
studio-IsConsistent_example = studio-IsConsistent methods "w1" one_widget (λ id. refl)

studio-Disjoint_example :
    Disjoint (add_or_update_widget methods one_widget).layout
    × Disjoint (remove_widget "w1" one_widget).layout
studio-Disjoint_example = studio-Disjoint methods "w1" one_widget (tt, tt)

-- The filters of a day's failures of one route, with a leftover date.
abbrev failures : Search
failures = record empty_search {
  path = some "/login";
  status_class = some "5xx";
  time_range = some (relative h24);
  start_date = some "2024-01-01T00:00:00Z";
}

abbrev iso : ℕ → String
iso t = "2024-05-01T00:00:00Z"

export_query-relative_example :
    export_query "csv" (some "p1") (active_filters failures none)
    ≡ export_query "csv" (some "p1") (
        active_filters
          (record failures {
            time_range = none;
            start_date = none;
            end_date = none;
            path = none;
            status_class = none;
          })
          none)
export_query-relative_example = export_query-relative "csv" (some "p1") none h24 failures refl

app_pagination_sound_example :
    All (LeadsInto 7) (app_pagination 3 7) × (marked (app_pagination 3 7) ≡ 3 ∷ [])
app_pagination_sound_example = app_pagination_sound 3 7 (omega arith) (omega arith)

abbrev seven : List ℕ
seven = 10 ∷ 11 ∷ 12 ∷ 13 ∷ 14 ∷ 15 ∷ 16 ∷ []

slice-covers_example :
    (6 / 5 < page_count (length seven))
    × (ticks (page_count (length seven)) (6 / 5) ≡ 6 / 5)
    × (get_elem? (slice (6 / 5) seven) (6 % 5) ≡ get_elem? seven 6)
slice-covers_example = slice-covers seven 6 (omega arith)

query_key-query_fn_example :
    (use_insights (some "p1") none none).query_fn
    ≡ (use_insights (some "p1") (some "7d") none).query_fn
unfolding use_insights
query_key-query_fn_example =
    query_key-query_fn (use_insights (some "p1") none none)
      (use_insights (some "p1") (some "7d") none) (insights_query (some "p1") none none)
      (insights_query (some "p1") (some "7d") none) refl
