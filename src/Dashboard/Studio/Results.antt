-- ===== src/Dashboard/Studio/Results.antt =====
-- How the result of a query is shown: `VizRender` of frontend/src/routes/app/_layout/studio.tsx.
use bataudit.Prelude.{
  ℕ, String, Bool, true, ◌≡◌, refl, Option, none, some, List, [], ◌∷◌, ◌++◌, str_eq, if◌then◌else◌,
}
use bataudit.Prelude.Json.{Json, null, str, num}
use bataudit.Web.Clients.Studio.{VizType, line, pie, table}
use bataudit.Dashboard.Screen.{Screen, text, each}

pub record QueryResult : Type 0 where
  pub columns : List String
  pub rows : List (List Json)
  pub row_count : ℕ
  pub elapsed_ms : ℕ
  pub truncated : Bool

-- The conversions of the language: the text of a value, `undefined` included, and `Number(value) || 0`.
pub record Conversions : Type 0 where
  pub string_of : Option Json → String
  pub number_of : Option Json → ℕ
  pub number : ℕ → String

abbrev pub first : {B : Type 0} → List B → Option B
first [] = none
first (x ∷ xs) = some x

abbrev pub second : {B : Type 0} → List B → Option B
second [] = none
second (x ∷ []) = none
second (x ∷ y ∷ xs) = some y

-- `cell === null ? missing : String(cell)`
abbrev pub cell_text : Conversions → (missing : String) → Json → String
cell_text c missing null = missing
cell_text c missing j = c.string_of (some j)

abbrev pub cell : {A : Type 0} → Conversions → (missing : String) → Json → Screen A
cell c missing j = text (cell_text c missing j) ∷ []

abbrev pub row_shown : {A : Type 0} → Conversions → (missing : String) → List Json → Screen A
row_shown c missing row = each (cell c missing) row

abbrev pub column_head : {A : Type 0} → String → Screen A
column_head name = text name ∷ []

abbrev pub table_shown : {A : Type 0} → Conversions → (missing : String) → QueryResult → Screen A
table_shown c missing r = each column_head r.columns ++ each (row_shown c missing) r.rows

-- A point of a chart: what stands for its label, and its value.
pub record Point : Type 0 where
  pub label : Json
  pub value : ℕ

-- Whether the keys of the label and of the value, `columns[0]` and `columns[1] ?? columns[0]`, are
-- the same.
unfoldable pub same_keys : List String → Bool
same_keys [] = true
same_keys (x ∷ []) = true
same_keys (x ∷ y ∷ cs) = str_eq x y

-- `{ [xKey]: String(r[0]), [yKey]: Number(r[1]) || 0 }`: the later one of two equal keys wins.
unfoldable pub point : Conversions → List String → List Json → Point
point c columns row =
    let v = c.number_of (second row) in
    record { label = if same_keys columns then num v else str (c.string_of (first row)); value = v }

abbrev pub label_text : Conversions → Json → String
label_text c (str s) = s
label_text c (num n) = c.number n
label_text c j = c.string_of (some j)

abbrev pub point_shown : {A : Type 0} → Conversions → List String → List Json → Screen A
point_shown c columns row =
    let p = point c columns row in text (label_text c p.label) ∷ text (c.number p.value) ∷ []

-- A line or a pie stands as its points.
unfoldable pub viz_render : {A : Type 0} → Conversions → QueryResult → VizType → Screen A
viz_render c r viz = elim r.rows [
  | [] ↦ text "No rows." ∷ []
  | row ∷ rows ↦ elim viz [
    | table ↦ table_shown c "—" r
    | line ↦ each (point_shown c r.columns) (row ∷ rows)
    | pie ↦ each (point_shown c r.columns) (row ∷ rows)
  ]
]

-- A chart of a result with a single column shows numbers in the place of its labels.
point_single :
    (c : Conversions) (column : String) (row : List Json)
    → (point c (column ∷ []) row).label ≡ num (c.number_of (second row))
unfolding point same_keys
point_single c column row = refl
