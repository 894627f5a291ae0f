-- ===== src/Dashboard/Layout/Offered.antt =====
-- What the header (frontend/src/components/header.tsx) offers to whom.
use mathlib.Core.List.{Memᴰ}
use package.text.Mathlib.Text.{starts_with}
use bataudit.Prelude.{
  String, Bool, true, false, not, ◌&&◌, ◌≡◌, refl, Option, none, some, List, [], ◌∷◌, eq_iff, arith,
  All-of_Mem,
}
use bataudit.Web.Auth.{StoredUser}
use bataudit.Dashboard.Screen.{button, when, each}
use bataudit.Dashboard.Screen.Offers.{
  Offers, Allows, Allows-Offers, Allows-append, Allows-when, Allows-each, Permits-button, ◌and◌,
}
use bataudit.Dashboard.ApiKeys.{Project}
use bataudit.Dashboard.Layout.{initial}
use bataudit.Dashboard.Layout.Header.{
  Header, Action, toggle_projects, toggle_environments, choose_project, choose_environment,
  toggle_theme, log_out, environments, show_env_filter, show_project_filter, is_owner,
  project_choice, environment_choice, project_menu, project_selector, environment_menu,
  environment_selector, user_shown, header, act,
}

-- The pages that are not about the current project or environment.
abbrev pub IsAway : (pathname start : String) → Type 0
IsAway pathname start = starts_with pathname start ≡ false

abbrev pub IsProjectPage : (pathname : String) → Type 0
IsProjectPage pathname =
    IsAway pathname "/app/settings/users"
    × IsAway pathname "/app/settings/retention"
    × IsAway pathname "/app/settings/api-keys"

abbrev pub IsOwner : Option StoredUser → Type 0
IsOwner user = (u : StoredUser) × (user ≡ some u) × (u.role ≡ "owner")

IsProjectPage-shown :
    (pathname : String) → show_project_filter pathname ≡ true → IsProjectPage pathname
IsProjectPage-shown pathname shown = ground arith

IsAway-shown :
    (pathname : String) → show_env_filter pathname ≡ true → IsAway pathname "/app/settings"
IsAway-shown pathname shown = ground arith

IsOwner-tested : (user : Option StoredUser) → is_owner user ≡ true → IsOwner user
IsOwner-tested none h = cc
IsOwner-tested (some u) h = (u, refl, (eq_iff u.role "owner").0 h)

module _ (pathname : String) (user : Option StoredUser) (projects : List Project) (h : Header) where
  -- What an action of the header may be.
  abbrev pub IsOpen : Action → Type 0
  IsOpen (choose_project none) = IsOwner user × IsProjectPage pathname × (h.project_open ≡ true)
  IsOpen (choose_project (some id)) =
      (p : Project) × Memᴰ p projects
      × (p.id ≡ id)
      × IsProjectPage pathname
      × (h.project_open ≡ true)
  IsOpen (choose_environment none) = IsAway pathname "/app/settings" × (h.env_open ≡ true)
  IsOpen (choose_environment (some e)) =
      Memᴰ e ("production" ∷ "staging" ∷ "development" ∷ "testing" ∷ "local" ∷ [])
      × IsAway pathname "/app/settings"
      × (h.env_open ≡ true)
  IsOpen toggle_projects = IsProjectPage pathname
  IsOpen toggle_environments = IsAway pathname "/app/settings"
  IsOpen toggle_theme = Unit
  IsOpen log_out = Unit

  project_selector-IsOpen :
      show_project_filter pathname ≡ true
      → Allows IsOpen (project_selector (is_owner user) projects h)
  project_selector-IsOpen test =
      let shown = IsProjectPage-shown pathname test in
      shown
      and Allows-when IsOpen h.project_open (project_menu (is_owner user) projects) (λ opened.
        Allows-append IsOpen
          (when (is_owner user) (button true "All Projects" (choose_project none) ∷ [])) _
          (Allows-when IsOpen (is_owner user)
            (button true "All Projects" (choose_project none) ∷ [])
            (λ owner. ((IsOwner-tested user owner, shown, opened), tt)))
          (Allows-each IsOpen project_choice projects
            (All-of_Mem _ projects (λ p m. ((p, m, refl, shown, opened), tt)))))

  environment_selector-IsOpen :
      show_env_filter pathname ≡ true → Allows IsOpen (environment_selector h)
  environment_selector-IsOpen test =
      let shown = IsAway-shown pathname test in
      shown
      and Allows-when IsOpen h.env_open environment_menu (λ opened.
        let rest : Allows IsOpen (each environment_choice environments) = choices shown opened in
        ((shown, opened), rest))
    where
      choices :
          IsAway pathname "/app/settings"
          → h.env_open ≡ true
          → Allows IsOpen (each environment_choice environments)
      choices shown opened = Allows-each IsOpen environment_choice environments (
          All-of_Mem (λ e. Allows IsOpen (environment_choice e)) environments
            (λ e m. ((m, shown, opened), tt)))

  user_shown-IsOpen : (u : Option StoredUser) → Allows IsOpen (user_shown u)
  user_shown-IsOpen none = tt
  user_shown-IsOpen (some u) = tt and tt and tt

  pub header-IsOpen :
      (logging_out : Bool) → Allows IsOpen (header pathname user projects logging_out h)
  unfolding header
  header-IsOpen logging_out =
      Allows-append IsOpen
        (when (show_project_filter pathname) (project_selector (is_owner user) projects h)) _
        (Allows-when IsOpen (show_project_filter pathname)
          (project_selector (is_owner user) projects h) project_selector-IsOpen)
        (Allows-append IsOpen (when (show_env_filter pathname) (environment_selector h)) _
          (Allows-when IsOpen (show_env_filter pathname) (environment_selector h)
            environment_selector-IsOpen)
          (tt
            and Allows-append IsOpen (user_shown user) _ (user_shown-IsOpen user)
                (Permits-button IsOpen (not logging_out) "Logout" log_out (λ _. tt) and tt)))

-- A use of the header, on whatever pages, with whatever user and projects.
pub data Reach : Header → Type 0 where
  start : Reach (record { selection = initial; project_open = false; env_open = false })
  acts :
      {h : Header} (pathname : String) (user : Option StoredUser) (projects : List Project)
      (logging_out : Bool) (a : Action)
      → Reach h
      → Offers a (header pathname user projects logging_out h)
      → Reach (act a h)

Reach-closed : {h : Header} → Reach h → (h.project_open && h.env_open) ≡ false
unfolding act
Reach-closed start = refl
Reach-closed (acts {h} pathname user projects out toggle_projects r o) = ground arith
Reach-closed (acts {h} pathname user projects out toggle_environments r o) = ground arith
Reach-closed (acts {h} pathname user projects out (choose_project id) r o) = refl
Reach-closed (acts {h} pathname user projects out (choose_environment e) r o) = ground arith
Reach-closed (acts {h} pathname user projects out toggle_theme r o) = Reach-closed r
Reach-closed (acts {h} pathname user projects out log_out r o) = Reach-closed r

-- However the header is used: at most one of its two menus is open; a project is offered from the list of the projects
-- only, and all projects to a user whose role is owner only; an environment is production, staging, development, testing
-- or local; neither is offered but from its open menu, no environment or its menu on a page under /app/settings, and no
-- project or its menu on one under /app/settings/users, /app/settings/retention or /app/settings/api-keys.
pub header-Offers :
    (h : Header) (pathname : String) (user : Option StoredUser) (projects : List Project)
    (logging_out : Bool) (a : Action)
    → Reach h
    → Offers a (header pathname user projects logging_out h)
    → ((h.project_open && h.env_open) ≡ false) × IsOpen pathname user projects h a
header-Offers h pathname user projects logging_out a r o = (
  Reach-closed r,
  Allows-Offers (IsOpen pathname user projects h) a _
      (header-IsOpen pathname user projects h logging_out) o,
)
