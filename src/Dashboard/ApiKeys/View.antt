-- ===== src/Dashboard/ApiKeys/View.antt =====
-- What the page of the keys shows.
use bataudit.Prelude.{
  String, Bool, true, false, not, ◌||◌, Option, none, some, List, [], ◌∷◌, ◌++◌, str_eq,
  if◌then◌else◌, ◌or_else◌, entry,
}
use bataudit.Prelude.Text.{truthy, truthy_text}
use bataudit.Dashboard.Screen.{Screen, text, button, input, choice, when, each}
use bataudit.Dashboard.ApiKeys.{
  Project, ApiKey, Member, Tab, keys, members, ApiKeysPage, Action, toggle_new_project,
  create_project, cancel_project, dismiss, type_name, type_slug, copy_key, toggle_project, open_tab,
  type_key_name, type_email, choose_role, generate_key, add_member, revoke_key, change_role,
  remove_member, is_expanded, role_of,
}

-- What the queries and the mutations of the page report.
pub record Loaded : Type 0 where
  pub projects : List Project
  pub is_loading : Bool
  pub keys : List ApiKey
  pub members : List Member
  pub creating_project : Bool
  pub creating_key : Bool
  pub adding_member : Bool

abbrev pub is_empty : {A : Type 0} → List A → Bool
is_empty [] = true
is_empty (x ∷ xs) = false

-- The card 'Create project'.
abbrev pub project_card : Loaded → ApiKeysPage → Screen Action
project_card d s =
    text "Create project"
    ∷ input s.project_name type_name
    ∷ input s.project_slug type_slug
    ∷ button
        (not (
          not (truthy_text s.project_name)
          || not (truthy_text s.project_slug)
          || d.creating_project))
        "Create" create_project
    ∷ button true "Cancel" cancel_project
    ∷ when (truthy_text s.project_error) (text s.project_error ∷ [])

-- The card of the new key.
abbrev pub key_card : Bool → Option String → Screen Action
key_card copied none = []
key_card copied (some key) = when (truthy_text key) (
    text "New API Key — copy it now, it will not be shown again"
    ∷ text key
    ∷ button true (if copied then "Copied" else "Copy") (copy_key key)
    ∷ button true "Dismiss" dismiss
    ∷ [])

abbrev pub key_row : (date : String → String) → ApiKey → Screen Action
key_row date key =
    text key.name
    ∷ text (if key.active then "active" else "revoked")
    ∷ text (date key.created_at)
    ∷ when key.active (button true "Revoke" (revoke_key key.id) ∷ [])

abbrev pub keys_tab : (date : String → String) → Loaded → ApiKeysPage → String → Screen Action
keys_tab date d s id =
    input (entry id s.new_key_name or_else "") (type_key_name id)
    ∷ button (not (not (truthy (entry id s.new_key_name)) || d.creating_key)) "Generate key"
        (generate_key id)
    ∷ (if is_empty d.keys
        then text "No keys yet for this project." ∷ []
        else each (key_row date) d.keys)

abbrev pub member_row : Member → Screen Action
member_row m =
    text m.name
    ∷ text m.email
    ∷ choice (not (str_eq m.role "owner")) m.role ("viewer" ∷ "admin" ∷ []) (change_role m.user_id)
    ∷ when (not (str_eq m.role "owner")) (button true "" (remove_member m.user_id) ∷ [])

abbrev pub members_tab : Loaded → ApiKeysPage → String → Screen Action
members_tab d s id =
    input (entry id s.new_member_email or_else "") (type_email id)
    ∷ choice true (role_of id s) ("viewer" ∷ "admin" ∷ []) (choose_role id)
    ∷ button (not (not (truthy (entry id s.new_member_email)) || d.adding_member)) "Add member"
        (add_member id)
    ∷ (if is_empty d.members then text "No members yet." ∷ [] else each member_row d.members)

-- The tab that is open.
abbrev pub tab_screen :
    (date : String → String) → Loaded → ApiKeysPage → String → Tab → Screen Action
tab_screen date d s id keys = keys_tab date d s id
tab_screen date d s id members = members_tab d s id

abbrev pub project_row : (date : String → String) → Loaded → ApiKeysPage → Project → Screen Action
project_row date d s p =
    text p.name
    ∷ text p.slug
    ∷ button true "" (toggle_project p.id)
    ∷ when (is_expanded s.expanded_project p.id) (
        button true "API Keys" (open_tab p.id keys)
        ∷ button true "Members" (open_tab p.id members)
        ∷ tab_screen date d s p.id (entry p.id s.active_tab or_else keys))

unfoldable pub projects_list : (date : String → String) → Loaded → ApiKeysPage → Screen Action
projects_list date d s =
    if d.is_loading
    then text "Loading projects..." ∷ []
    else if is_empty d.projects
    then text "No projects yet."
      ∷ text
          "Projects are created automatically when your SDK sends its first event, or you can create one manually above."
      ∷ []
    else each (project_row date d s) d.projects

unfoldable pub view : (date : String → String) → Loaded → ApiKeysPage → Screen Action
view date d s =
    text "API Keys"
      ∷ text "Manage API keys used by your SDKs to send events to BatAudit."
      ∷ button true "New Project" toggle_new_project
      ∷ when s.show_new_project (project_card d s)
    ++ (key_card s.copied s.revealed_key ++ projects_list date d s)
