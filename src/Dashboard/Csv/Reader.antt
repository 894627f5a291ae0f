-- ===== src/Dashboard/Csv/Reader.antt =====
-- A reader of comma-separated values, independent of the code that writes them: RFC 4180 with line
-- feeds between the lines.
use bataudit.Prelude.{ℕ, ◌==◌, List, [], ◌∷◌, if◌then◌else◌}
use bataudit.Dashboard.Csv.{Codes}

pub data Mode : Type 0 where
  -- At the start of a field, inside one without quotes, inside quotes, and after a quote in quotes.
  start plain quoted closing : Mode

pub data Action : Type 0 where
  keep_code end_field end_line nothing : Action

abbrev pub unquoted_action : ℕ → Action
unquoted_action c = if c == b',' then end_field else if c == b'\n' then end_line else keep_code

abbrev pub unquoted_mode : ℕ → Mode
unquoted_mode c = if c == b',' then start else if c == b'\n' then start else plain

abbrev pub action : Mode → ℕ → Action
action start c = if c == b'"' then nothing else unquoted_action c
action plain c = unquoted_action c
action quoted c = if c == b'"' then nothing else keep_code
action closing c = if c == b'"' then keep_code else unquoted_action c

abbrev pub next : Mode → ℕ → Mode
next start c = if c == b'"' then quoted else unquoted_mode c
next plain c = unquoted_mode c
next quoted c = if c == b'"' then closing else quoted
next closing c = if c == b'"' then quoted else unquoted_mode c

-- The rest of the text has been read into lines; the first field of the first line goes on.
abbrev pub act : Action → ℕ → List (List Codes) → List (List Codes)
act keep_code c ((f ∷ fs) ∷ ls) = ((c ∷ f) ∷ fs) ∷ ls
act end_field c (fs ∷ ls) = ([] ∷ fs) ∷ ls
act end_line c ls = ([] ∷ []) ∷ ls
act _ c ls = ls

unfoldable pub read : Mode → Codes → List (List Codes)
read m [] = ([] ∷ []) ∷ []
read m (c ∷ s) = act (action m c) c (read (next m c) s)
