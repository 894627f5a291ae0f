-- ===== src/Dashboard/Picker.antt =====
-- frontend/src/components/time-range-picker.tsx: the state of the time range picker, as the event
-- list uses it: its callbacks change the search parameters. A valid `Date` is its milliseconds; the
-- functions of date-fns and of `Date` are arguments.
pub mod Applied
use bataudit.Prelude.{
  ℕ, String, Bool, true, false, Option, none, some, str_eq, if◌then◌else◌, ◌or_else◌,
}
use bataudit.Prelude.Text.{◌<>◌, truthy, truthy_text}
use bataudit.Dashboard.Filters.{RelativeRange, Search, on_relative, on_absolute, on_clear}

pub record Dates : Type 0 where
  -- `new Date(iso)`, where it is valid.
  pub new_date : String → Option ℕ
  -- `format(d, 'yyyy-MM-dd')` and `format(d, 'HH:mm')`
  pub format_date : ℕ → String
  pub format_time : ℕ → String
  -- `parse(text, 'yyyy-MM-dd HH:mm', new Date())`, where it is valid.
  pub parse : String → Option ℕ
  pub to_iso_string : ℕ → String

pub record DateRange : Type 0 where
  pub from : Option ℕ
  pub to : Option ℕ

pub record Picker : Type 0 where
  pub is_open : Bool
  pub start_date_str : String
  pub start_time_str : String
  pub end_date_str : String
  pub end_time_str : String
  pub range : Option DateRange

abbrev pub initial : Picker
initial = record {
  is_open = false;
  start_date_str = "";
  start_time_str = "00:00";
  end_date_str = "";
  end_time_str = "23:59";
  range = none;
}

-- `prev?.from` and `prev?.to`
abbrev pub from_of : Option DateRange → Option ℕ
from_of none = none
from_of (some r) = r.from

abbrev pub to_of : Option DateRange → Option ℕ
to_of none = none
to_of (some r) = r.to

module _ (dates : Dates) where
  -- The valid date of a text that may be missing or empty.
  abbrev date_of : Option String → Option ℕ
  date_of none = none
  date_of (some iso) = if truthy_text iso then dates.new_date iso else none

  abbrev pub to_date_str : Option String → String
  to_date_str iso = elim (date_of iso) [ none ↦ "" | some d ↦ dates.format_date d ]

  abbrev pub to_time_str : Option String → String
  to_time_str iso = elim (date_of iso) [ none ↦ "00:00" | some d ↦ dates.format_time d ]

  abbrev pub build_date : (date_str time_str : String) → Option ℕ
  build_date date_str time_str =
      if truthy_text date_str
      then dates.parse (date_str <> " " <> (if truthy_text time_str then time_str else "00:00"))
      else none

  -- `sd ? new Date(startDate!) : undefined`
  abbrev seeded : String → Option String → Option ℕ
  seeded date_str iso = if truthy_text date_str then date_of iso else none

  -- `setOpen(true)`, with the effect that follows it.
  unfoldable pub open_panel : Search → Picker → Picker
  open_panel search s =
      let sd = to_date_str search.start_date in
      let ed = to_date_str search.end_date in
      record {
        is_open = true;
        start_date_str = sd;
        start_time_str = to_time_str search.start_date;
        end_date_str = ed;
        end_time_str = to_time_str search.end_date;
        range =
            some (record { from = seeded sd search.start_date; to = seeded ed search.end_date });
      }

  unfoldable pub handle_calendar_select : Option DateRange → Picker → Picker
  handle_calendar_select r s = record s {
    range = r;
    start_date_str = elim (from_of r) [ none ↦ s.start_date_str | some d ↦ dates.format_date d ];
    end_date_str = elim (to_of r) [ none ↦ s.end_date_str | some d ↦ dates.format_date d ];
  }

  unfoldable pub handle_start_date_change : String → Picker → Picker
  handle_start_date_change v s = record s {
    start_date_str = v;
    range = elim (build_date v s.start_time_str) [
      | none ↦ s.range
      | some d ↦ some (record { from = some d; to = to_of s.range })
    ];
  }

  unfoldable pub handle_end_date_change : String → Picker → Picker
  handle_end_date_change v s = record s {
    end_date_str = v;
    range = elim (build_date v s.end_time_str) [
      | none ↦ s.range
      | some d ↦ some (record { from = from_of s.range; to = some d })
    ];
  }

  unfoldable pub handle_apply : Picker → Search → Picker × Search
  handle_apply s search = elim (build_date s.start_date_str s.start_time_str) [
    | none ↦ (s, search)
    | some from ↦
        let to = build_date s.end_date_str s.end_time_str or_else from in
        (
          record s { is_open = false },
          on_absolute (dates.to_iso_string from) (dates.to_iso_string to) search,
        )
  ]

abbrev pub set_start_time_str : String → Picker → Picker
set_start_time_str v s = record s { start_time_str = v }

abbrev pub set_end_time_str : String → Picker → Picker
set_end_time_str v s = record s { end_time_str = v }

unfoldable pub handle_relative : RelativeRange → Picker → Search → Picker × Search
handle_relative r s search = (record s { is_open = false }, on_relative r search)

-- The handler of 'Clear selection'.
unfoldable pub clear_selection : Picker → Search → Picker × Search
clear_selection s search = (record s { is_open = false }, on_clear search)
