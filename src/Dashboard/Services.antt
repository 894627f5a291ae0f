-- ===== src/Dashboard/Services.antt =====
-- The breakdown by service of frontend/src/routes/app/_layout/index.tsx: a table that is sorted by
-- a column. Times are milliseconds; `<` on texts is an argument.
pub mod Order
use bataudit.Prelude.{
  ℕ, String, Bool, true, false, ltb, List, Option, none, some, str_eq, if◌then◌else◌, [], ◌∷◌,
}
use bataudit.Prelude.Sort.{sort}

pub record ServiceBreakdown : Type 0 where
  pub service_name : String
  pub requests : ℕ
  pub errors : ℕ
  pub avg_response_time : ℕ
  pub last_event : String

-- The columns whose heads sort the table.
pub data Column : Type 0 where
  service_name requests errors avg_response_time last_event : Column

pub data Direction : Type 0 where
  asc desc : Direction

-- A value of a cell.
pub data Value : Type 0 where
  number : ℕ → Value
  text : String → Value

abbrev pub value_of : Column → ServiceBreakdown → Value
value_of service_name s = text s.service_name
value_of requests s = number s.requests
value_of errors s = number s.errors
value_of avg_response_time s = number s.avg_response_time
value_of last_event s = text s.last_event

abbrev pub same_column : Column → Column → Bool
same_column service_name service_name = true
same_column requests requests = true
same_column errors errors = true
same_column avg_response_time avg_response_time = true
same_column last_event last_event = true
same_column _ _ = false

abbrev pub other_direction : Direction → Direction
other_direction asc = desc
other_direction desc = asc

-- `toggleSort`, on the column and the direction.
unfoldable pub toggle_sort : Column → Column × Direction → Column × Direction
toggle_sort col (sort_col, sort_dir) =
    if same_column sort_col col then (sort_col, other_direction sort_dir) else (col, desc)

-- `<`
abbrev pub less : (String → String → Bool) → Value → Value → Bool
less text_less (number m) (number n) = ltb m n
less text_less (text s) (text t) = text_less s t
less text_less _ _ = false

-- Whether the comparison yields 1, for values that are not both below each other.
abbrev pub comes_after : (String → String → Bool) → Direction → Value → Value → Bool
comes_after text_less asc va vb = less text_less vb va
comes_after text_less desc va vb = less text_less va vb

abbrev pub row_after :
    (String → String → Bool) → Column → Direction → ServiceBreakdown → ServiceBreakdown → Bool
row_after text_less col dir a b = comes_after text_less dir (value_of col a) (value_of col b)

-- `Array.prototype.sort` is stable, so that the order of its result is determined by the comparison: it is the one of
-- the insertion sort that stands here.
unfoldable pub sorted_services :
    (String → String → Bool) → Column × Direction → List ServiceBreakdown → List ServiceBreakdown
sorted_services text_less (col, dir) by_service = sort (row_after text_less col dir) by_service
