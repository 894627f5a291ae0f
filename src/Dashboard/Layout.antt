-- ===== src/Dashboard/Layout.antt =====
-- The frame of the pages: frontend/src/components/sidebar.tsx and header.tsx, over the selection of
-- lib/project-context.tsx and lib/environment-context.tsx.
pub mod Header
pub mod Offered
use package.text.Mathlib.Text.{starts_with}
use bataudit.Prelude.{
  String, Bool, true, false, not, ◌||◌, Option, none, some, List, [], ◌∷◌, ◌++◌, str_eq,
  if◌then◌else◌, any,
}
use bataudit.Dashboard.Screen.{Screen, text, link, when}

-- `selectedProjectId` and `selectedEnvironment`; `none` for all of them.
pub record Selection : Type 0 where
  pub selected_project_id : Option String
  pub selected_environment : Option String

abbrev pub initial : Selection
initial = record { selected_project_id = none; selected_environment = none }

-- `role === …` for a role that may be missing.
abbrev pub has_role : String → Option String → Bool
has_role role none = false
has_role role (some r) = str_eq r role

abbrev pub in_settings : (pathname : String) → Bool
in_settings pathname = starts_with pathname "/app/settings"

module _ {A : Type 0} where
  unfoldable pub main_nav : Screen A
  main_nav =
      link "/app" "Dashboard"
      ∷ link "/app/sessions" "Sessions"
      ∷ link "/app/anomalies" "Anomalies"
      ∷ link "/app/insights" "Insights"
      ∷ link "/app/query" "Query"
      ∷ link "/app/studio" "Studio"
      ∷ link "/app/settings" "Settings"
      ∷ []

  abbrev pub team_links : Screen A
  team_links =
      text "Team" ∷ link "/app/settings/members" "Members" ∷ link "/app/settings/users" "Users" ∷ []

  abbrev pub project_links : Screen A
  project_links =
      text "Project"
      ∷ link "/app/settings/api-keys" "API Keys"
      ∷ link "/app/settings/wallboard" "Wallboard"
      ∷ link "/app/settings/notifications" "Notifications"
      ∷ []

  abbrev pub danger_links : Screen A
  danger_links = text "Danger" ∷ link "/app/settings/retention" "Retention" ∷ []

  -- `SettingsNav`, for the role of the stored user, if there is one.
  unfoldable pub settings_nav : Option String → Screen A
  settings_nav role =
      (link "/app" "Back" ∷ text "General" ∷ link "/app/settings/healthcheck" "Healthcheck" ∷ [])
      ++ (when (has_role "owner" role || has_role "admin" role) team_links
          ++ (when (has_role "owner" role || has_role "admin" role) project_links
              ++ when (has_role "owner" role) danger_links))

  unfoldable pub sidebar : (pathname : String) → Option String → Screen A
  sidebar pathname role =
      when (not (in_settings pathname)) (text "BatAudit" ∷ text "Monitoring" ∷ [])
      ++ (if in_settings pathname then settings_nav role else main_nav)
