-- ===== src/Dashboard/Filters/Ranges.antt =====
-- Which part of the log the list shows.
use Prim.Native.Nat.{◌-◌}
use bataudit.Prelude.{ℕ, String, ◌≡◌, refl, Option, none, some, arith, if◌then◌else◌}
use bataudit.Prelude.Text.{truthy_text}
use bataudit.Web.Clients.Audit.{ListAuditParams}
use bataudit.Dashboard.Filters.{
  RelativeRange, relative, Search, time_range_ms, page_params, on_relative, on_absolute, on_clear,
}

module _ (iso : ℕ → String) (now : ℕ) (project_id environment : Option String) where
  abbrev asked : Search → ListAuditParams
  asked s = page_params iso now project_id environment s

  -- With a relative time range in the URL the list begins that far in the past and is open at its
  -- end, whatever absolute dates stand in the URL beside it.
  page_params-relative :
      (r : RelativeRange) (s : Search)
      → s.time_range ≡ some (relative r)
      → ((asked s).start_date ≡ some (iso (now - time_range_ms r))) × ((asked s).end_date ≡ none)
  unfolding page_params
  page_params-relative r s h = ground arith

  -- Each choice in the time range picker shows the first page of the chosen range, under the other
  -- filters and the order as they were: a relative range by its start, an absolute one by both ends
  -- (an empty end leaves it open), and no range at all after the choice is cleared.
  page_params-picker :
      (r : RelativeRange) (start end : String) (s : Search)
      → (asked (on_relative r s) ≡ record (asked s) {
        page = some 1;
        start_date = some (iso (now - time_range_ms r));
        end_date = none;
      })
        × (asked (on_absolute start end s) ≡ record (asked s) {
          page = some 1;
          start_date = some start;
          end_date = if truthy_text end then some end else none;
        })
        × (asked (on_clear s)
            ≡ record (asked s) { page = some 1; start_date = none; end_date = none })
  unfolding page_params on_relative on_absolute on_clear
  page_params-picker r start end s = (refl, refl, refl)
