-- ===== src/Dashboard/Csv/Laws.antt =====
-- Written tables are read back.
use mathlib.Core.List.{append_assoc, append-nil}
use bataudit.Prelude.{
  true, false, ◌||◌, ◌==◌, ◌≡◌, refl, ◌∙◌, ap, sym, List, [], ◌∷◌, ◌++◌, map, any, All, arith,
  Bool-cases, inl, inr,
}
use bataudit.Prelude.Json.{Json}
use bataudit.Dashboard.Csv.{
  Codes, QueryResult, is_special, double_quotes, esc, join, cell_text, line, to_csv,
}
use bataudit.Dashboard.Csv.Reader.{start, plain, quoted, closing, read}

-- What can follow a field: nothing, a comma or a line feed.
abbrev IsEnd : Codes → Type 0
IsEnd [] = Unit
IsEnd (c ∷ t) = ((c == b',') || (c == b'\n')) ≡ true

-- A line has a cell.
abbrev pub IsFilled : {A : Type 0} → List A → Type 0
IsFilled [] = ⊥
IsFilled (x ∷ xs) = Unit

start_end : (t : Codes) → IsEnd t → read start t ≡ read plain t
unfolding read
start_end [] h = refl
start_end (c ∷ t) h = ground arith

closing_end : (t : Codes) → IsEnd t → read closing t ≡ read plain t
unfolding read
closing_end [] h = refl
closing_end (c ∷ t) h = ground arith

module _ (t f : Codes) (fs : List Codes) (ls : List (List Codes)) where
  -- A field without quotes, before a text that goes on with `f`.
  read-plain :
      (s : Codes)
      → any is_special s ≡ false
      → read plain t ≡ (f ∷ fs) ∷ ls
      → read plain (s ++ t) ≡ ((s ++ f) ∷ fs) ∷ ls
  unfolding read
  read-plain [] h e = e
  read-plain (c ∷ s) h e = ground (arith, read-plain s)

  -- The same within quotes.
  read_quoted :
      (s : Codes)
      → read closing t ≡ (f ∷ fs) ∷ ls
      → read quoted (double_quotes s ++ b'"' ∷ t) ≡ ((s ++ f) ∷ fs) ∷ ls
  unfolding read double_quotes
  read_quoted [] e = e
  read_quoted (c ∷ s) e = ground (arith, read_quoted s)

start_ordinary :
    (s t : Codes) → any is_special s ≡ false → IsEnd t → read start (s ++ t) ≡ read plain (s ++ t)
unfolding read
start_ordinary [] t h end = start_end t end
start_ordinary (c ∷ s) t h end = ground arith

read-esc :
    (s t : Codes) (fs : List Codes) (ls : List (List Codes))
    → IsEnd t
    → read plain t ≡ ([] ∷ fs) ∷ ls
    → read start (esc s ++ t) ≡ (s ∷ fs) ∷ ls
unfolding esc read
read-esc s t fs ls h e = elim (Bool-cases (any is_special s)) [
  | inl special ↦
      rw (special, append_assoc (double_quotes s) (b'"' ∷ []) t)
        (read_quoted t [] fs ls s (closing_end t h ∙ e) ∙ rw append-nil)
  | inr ordinary ↦
      rw ordinary
        (start_ordinary s t ordinary h ∙ read-plain t [] fs ls s ordinary e ∙ rw append-nil)
]

read_comma :
    (t : Codes) (fs : List Codes) (ls : List (List Codes))
    → read start t ≡ fs ∷ ls
    → read plain (b',' ∷ t) ≡ ([] ∷ fs) ∷ ls
unfolding read
read_comma t fs ls e = rw e

-- A line, before the end of the text or a line feed.
read-line :
    (x : Codes) (xs : List Codes) (t : Codes) (ls : List (List Codes))
    → IsEnd t
    → read plain t ≡ ([] ∷ []) ∷ ls
    → read start (line (x ∷ xs) ++ t) ≡ (x ∷ xs) ∷ ls
unfolding join
read-line x [] t ls h e = read-esc x t [] ls h e
read-line x (y ∷ xs) t ls h e = rw (append_assoc (esc x) (b',' ∷ line (y ∷ xs)) t) (
    read-esc x (b',' ∷ (line (y ∷ xs) ++ t)) (y ∷ xs) ls refl
      (read_comma (line (y ∷ xs) ++ t) (y ∷ xs) ls (read-line y xs t ls h e)))

-- Several lines, each with a cell.
read_lines :
    (l : List Codes) (ls : List (List Codes))
    → All IsFilled (l ∷ ls)
    → read start (join b'\n' (map line (l ∷ ls))) ≡ l ∷ ls
unfolding join read
read_lines (x ∷ xs) [] h =
    ap (read start) (sym (append-nil (line (x ∷ xs)))) ∙ read-line x xs [] [] tt refl
read_lines (x ∷ xs) (m ∷ ls) h =
    read-line x xs (b'\n' ∷ join b'\n' (map line (m ∷ ls))) (m ∷ ls) refl
      (ap (λ u. ([] ∷ []) ∷ u) (read_lines m ls (h.1)))
read_lines [] ls h = absurd (h.0)

map_cells :
    (f : List Json → List Codes) (rows : List (List Json))
    → map (λ (r : List Json). line (f r)) rows ≡ map line (map f rows)
map_cells f [] = refl
map_cells f (r ∷ rows) = ap (λ u. line (f r) ∷ u) (map_cells f rows)

-- If there is a column and every row has a cell, a reader of comma-separated values reads the
-- downloaded file back as the columns and the texts of the rows' cells, whatever commas, quotes
-- and line feeds these contain.
pub read-to_csv :
    (string_of : Json → Codes) (result : QueryResult)
    → IsFilled result.columns
    → All IsFilled (map (map (cell_text string_of)) result.rows)
    → read start (to_csv string_of result)
      ≡ result.columns ∷ map (map (cell_text string_of)) result.rows
unfolding to_csv
read-to_csv string_of result columns rows =
    ap (λ u. read start (join b'\n' (line result.columns ∷ u)))
      (map_cells (map (cell_text string_of)) result.rows)
    ∙ read_lines result.columns (map (map (cell_text string_of)) result.rows) (columns, rows)
