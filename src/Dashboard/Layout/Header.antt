-- ===== src/Dashboard/Layout/Header.antt =====
-- The header: the selectors, the user, and signing out.
use package.text.Mathlib.Text.{starts_with}
use bataudit.Prelude.{
  String, Bool, true, false, not, Option, none, some, List, [], ◌∷◌, ◌++◌, str_eq, if◌then◌else◌,
  ◌or_else◌, any,
}
use bataudit.Prelude.Text.{truthy_text}
use bataudit.Web.Auth.{StoredUser}
use bataudit.Dashboard.Screen.{Screen, text, button, when, each}
use bataudit.Dashboard.ApiKeys.{Project}
use bataudit.Dashboard.Layout.{Selection, has_role, in_settings}

pub record Header : Type 0 where
  pub selection : Selection
  pub project_open : Bool
  pub env_open : Bool

pub data Action : Type 0 where
  toggle_projects toggle_environments : Action
  choose_project choose_environment : Option String → Action
  toggle_theme log_out : Action

-- The values, which are also the labels, of `ENVIRONMENTS`.
abbrev pub environments : List String
environments = "production" ∷ "staging" ∷ "development" ∷ "testing" ∷ "local" ∷ []

abbrev pub global_settings : List String
global_settings = "/app/settings/users" ∷ "/app/settings/retention" ∷ "/app/settings/api-keys" ∷ []

abbrev pub show_env_filter : (pathname : String) → Bool
show_env_filter pathname = not (in_settings pathname)

abbrev pub show_project_filter : (pathname : String) → Bool
show_project_filter pathname = not (any (λ p. starts_with pathname p) global_settings)

abbrev pub role_of : Option StoredUser → Option String
role_of none = none
role_of (some u) = some u.role

abbrev pub is_owner : Option StoredUser → Bool
is_owner user = has_role "owner" (role_of user)

-- `p.id === selectedProjectId`
abbrev pub is_selected : Option String → String → Bool
is_selected none id = false
is_selected (some s) id = str_eq id s

-- The name of the first project of the list that is selected.
unfoldable pub selected_name : List Project → Option String → Option String
selected_name [] selected = none
selected_name (p ∷ ps) selected =
    let rest = selected_name ps selected in if is_selected selected p.id then some p.name else rest

unfoldable pub selector_label : Bool → List Project → Option String → String
selector_label owner projects none =
    if owner then "All Projects" else selected_name projects none or_else "Select project"
selector_label owner projects (some id) = selected_name projects (some id) or_else "Select project"

abbrev pub project_choice : Project → Screen Action
project_choice p = button true p.name (choose_project (some p.id)) ∷ []

abbrev pub environment_choice : String → Screen Action
environment_choice e = button true e (choose_environment (some e)) ∷ []

abbrev pub project_menu : Bool → List Project → Screen Action
project_menu owner projects =
    when owner (button true "All Projects" (choose_project none) ∷ [])
    ++ each project_choice projects

abbrev pub environment_menu : Screen Action
environment_menu =
    button true "All Envs" (choose_environment none) ∷ each environment_choice environments

abbrev pub project_selector : Bool → List Project → Header → Screen Action
project_selector owner projects h =
    button true (selector_label owner projects h.selection.selected_project_id) toggle_projects
    ∷ when h.project_open (project_menu owner projects)

abbrev pub environment_selector : Header → Screen Action
environment_selector h =
    button true (h.selection.selected_environment or_else "All Envs") toggle_environments
    ∷ when h.env_open environment_menu

abbrev pub user_shown : Option StoredUser → Screen Action
user_shown none = []
user_shown (some u) = text (if truthy_text u.name then u.name else u.email) ∷ text u.role ∷ []

unfoldable pub header :
    (pathname : String)
    → Option StoredUser
    → List Project
    → (logging_out : Bool) → Header
    → Screen Action
header pathname user projects logging_out h =
    when (show_project_filter pathname) (project_selector (is_owner user) projects h)
    ++ (when (show_env_filter pathname) (environment_selector h)
        ++ (button true "" toggle_theme ∷ user_shown user
            ++ button (not logging_out) "Logout" log_out ∷ []))

-- What an action does with the header; switching the theme and signing out are toggle_theme of
-- Dashboard.Theme and handle_logout of Dashboard.SignIn.
unfoldable pub act : Action → Header → Header
act toggle_projects h = record h { project_open = not h.project_open; env_open = false }
act toggle_environments h = record h { env_open = not h.env_open; project_open = false }
act (choose_project id) h = record h {
  selection = record h.selection { selected_project_id = id };
  project_open = false;
}
act (choose_environment e) h = record h {
  selection = record h.selection { selected_environment = e };
  env_open = false;
}
act toggle_theme h = h
act log_out h = h
