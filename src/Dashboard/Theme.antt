-- ===== src/Dashboard/Theme.antt =====
-- frontend/src/lib/theme.ts: the theme in the storage and on the root element, whose classes are the
-- third part of the state.
pub mod Toggle
use bataudit.Prelude.{
  String, Bool, not, Option, none, some, List, [], ◌∷◌, ◌++◌, ◌||◌, keep, str_eq, if◌then◌else◌,
  ◌or_else◌,
}
use bataudit.Web.Storage.{Storage, get_item, set_item}

abbrev pub storage_key : String
storage_key = "bataudit-theme"

-- The stored text, taken as a theme without a check.
unfoldable pub get_stored_theme : Storage → String
get_stored_theme s = get_item storage_key s or_else "dark"

pub record Page : Type 0 where
  pub storage : Storage
  pub classes : List String

unfoldable pub apply_theme : String → Page → Page
apply_theme theme p = record {
  storage = set_item storage_key theme p.storage;
  classes = keep (λ c. not (str_eq c "dark" || str_eq c "light")) p.classes ++ theme ∷ [];
}

unfoldable pub toggle_theme : Page → Page × String
unfolding get_stored_theme apply_theme
toggle_theme p =
    let next = if str_eq (get_stored_theme p.storage) "dark" then "light" else "dark" in
    (apply_theme next p, next)
