-- ===== src/Dashboard/Csv.antt =====
-- The download of a query's result: `toCSV` of frontend/src/routes/app/_layout/query.tsx. A text is
-- the list of its code units, and `String` of a value that is not `null` is an argument.
pub mod Reader
pub mod Laws
use bataudit.Prelude.{ℕ, Bool, ◌||◌, ◌==◌, List, [], ◌∷◌, ◌++◌, map, any, if◌then◌else◌}
use bataudit.Prelude.Json.{Json, null}

abbrev pub Codes : Type 0
Codes = List ℕ

-- The interface `QueryResult`, without what the download does not read.
pub record QueryResult : Type 0 where
  pub columns : List Codes
  pub rows : List (List Json)

-- `/[",\n]/`
abbrev pub is_special : ℕ → Bool
is_special c = c == b'"' || c == b',' || c == b'\n'

-- `s.replace(/"/g, '""')`
unfoldable pub double_quotes : Codes → Codes
double_quotes [] = []
double_quotes (c ∷ s) =
    let rest = double_quotes s in if c == b'"' then b'"' ∷ b'"' ∷ rest else c ∷ rest

-- `esc` of a value whose text is given.
unfoldable pub esc : Codes → Codes
esc s = if any is_special s then b'"' ∷ (double_quotes s ++ b'"' ∷ []) else s

unfoldable pub join : ℕ → List Codes → Codes
join sep [] = []
join sep (x ∷ []) = x
join sep (x ∷ y ∷ r) = x ++ sep ∷ join sep (y ∷ r)

-- One line of the file.
abbrev pub line : List Codes → Codes
line cells = join b',' (map esc cells)

module _ (string_of : Json → Codes) where
  -- `v === null || v === undefined ? '' : String(v)`; a value of JSON is never `undefined`.
  abbrev pub cell_text : Json → Codes
  cell_text null = []
  cell_text v = string_of v

  unfoldable pub to_csv : QueryResult → Codes
  unfolding esc join
  to_csv result =
      join b'\n' (line result.columns ∷ map (λ (r : List Json). line (map cell_text r)) result.rows)
