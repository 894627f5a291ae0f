-- ===== src/Dashboard/Picker/Applied.antt =====
-- The range that the picker applies.
use bataudit.Prelude.{ℕ, ◌-◌, ◌%◌, String, true, false, ◌≡◌, none, some, arith}
use bataudit.Prelude.Text.{◌<>◌, truthy_text}
use bataudit.Dashboard.Filters.{Search, on_absolute}
use bataudit.Dashboard.Picker.{Dates, Picker, open_panel, handle_calendar_select, handle_apply}

-- The start of the minute.
abbrev pub to_minute : ℕ → ℕ
to_minute t = t - t % 60000

-- The formatted date is not empty, and is parsed to the start of its minute.
abbrev pub IsReadBack : Dates → ℕ → Type 0
IsReadBack dates t =
    (truthy_text (dates.format_date t) ≡ true)
    × (truthy_text (dates.format_time t) ≡ true)
    × (dates.parse (dates.format_date t <> " " <> dates.format_time t) ≡ some (to_minute t))

-- Opening the panel on an absolute range and applying it without a change sets the same range, to
-- the start of the minute, and closes the panel; the two dates, once formatted, are not empty
-- and are parsed to the start of their minute.
pub handle_apply-open_panel :
    (dates : Dates) (query : Search) (s : Picker) (start end : String) (from to : ℕ)
    → query.start_date ≡ some start
    → query.end_date ≡ some end
    → truthy_text start ≡ true
    → truthy_text end ≡ true
    → dates.new_date start ≡ some from
    → dates.new_date end ≡ some to
    → IsReadBack dates from
    → IsReadBack dates to
    → let (closed, applied) = handle_apply dates (open_panel dates query s) query in
      (applied
        ≡ on_absolute
            (dates.to_iso_string (to_minute from))
            (dates.to_iso_string (to_minute to))
            query)
      × (closed.is_open ≡ false)
unfolding handle_apply open_panel
handle_apply-open_panel dates query s start end from to a b c d e f g h = ground arith

-- Where no range is set, opening the panel, picking days in the calendar and applying sets a range
-- that ends where the last day begins.
handle_apply-picked :
    (dates : Dates) (query : Search) (s : Picker) (from to : ℕ) (first last : ℕ)
    → query.start_date ≡ none
    → query.end_date ≡ none
    → truthy_text (dates.format_date from) ≡ true
    → truthy_text (dates.format_date to) ≡ true
    → dates.parse (dates.format_date from <> " " <> "00:00") ≡ some first
    → dates.parse (dates.format_date to <> " " <> "00:00") ≡ some last
    → (handle_apply dates
        (handle_calendar_select dates
          (some (record { from = some from; to = some to }))
          (open_panel dates query s))
        query).1
      ≡ on_absolute (dates.to_iso_string first) (dates.to_iso_string last) query
unfolding handle_apply open_panel handle_calendar_select
handle_apply-picked dates query s from to first last a b c d e f = cc
