-- ===== src/Dashboard/Studio.antt =====
-- frontend/src/routes/app/_layout/studio.tsx: the report that is being edited. Dragging and
-- resizing in the grid, which the grid component does, is not modelled.
pub mod Consistency
pub mod Overlap
pub mod Results
pub mod View
pub mod Editor
use Prim.Native.Nat.{max}
use bataudit.Prelude.{
  ℕ, ◌+◌, String, Bool, true, false, not, Option, none, some, List, [], ◌∷◌, ◌++◌, any, keep, map,
  str_eq, if◌then◌else◌,
}
use bataudit.Web.Clients.Studio.{Widget, GridItem}

pub record Studio : Type 0 where
  pub report_id : Option String
  pub name : String
  pub widgets : List Widget
  pub layout : List GridItem
  pub editing : Option Widget

abbrev pub has_widget : String → List Widget → Bool
has_widget id ws = any (λ w. str_eq w.id id) ws

abbrev pub has_item : String → List GridItem → Bool
has_item id ls = any (λ l. str_eq l.i id) ls

-- `prev.map((x) => (x.id === w.id ? w : x))`
abbrev pub replace_widget : Widget → List Widget → List Widget
replace_widget w [] = []
replace_widget w (x ∷ xs) =
    let rest = replace_widget w xs in (if str_eq x.id w.id then w else x) ∷ rest

-- `prev.reduce((m, l) => Math.max(m, l.y + l.h), 0)`
abbrev pub bottom_from : ℕ → List GridItem → ℕ
bottom_from m [] = m
bottom_from m (l ∷ ls) = bottom_from (max m (l.y + l.h)) ls

unfoldable pub put_widget : Widget → List Widget → List Widget
put_widget w prev = if has_widget w.id prev then replace_widget w prev else prev ++ w ∷ []

unfoldable pub place : String → List GridItem → List GridItem
place id prev =
    if has_item id prev
    then prev
    else prev ++ record { i = id; x = 0; y = bottom_from 0 prev; w = 6; h = 8 } ∷ []

unfoldable pub add_or_update_widget : Widget → Studio → Studio
unfolding put_widget place
add_or_update_widget w s = record s {
  widgets = put_widget w s.widgets;
  layout = place w.id s.layout;
  editing = none;
}

unfoldable pub remove_widget : String → Studio → Studio
remove_widget id s = record s {
  widgets = keep (λ w. not (str_eq w.id id)) s.widgets;
  layout = keep (λ l. not (str_eq l.i id)) s.layout;
}

unfoldable pub new_report : Studio → Studio
new_report s = record s { report_id = none; name = "Untitled report"; widgets = []; layout = [] }

-- A report as the server holds it.
pub record Report : Type 0 where
  pub id : String
  pub name : String
  pub widgets : List Widget
  pub layout : List GridItem

unfoldable pub open_report : Report → Studio → Studio
open_report r s = record s {
  report_id = some r.id;
  name = r.name;
  widgets = r.widgets;
  layout = r.layout;
}
