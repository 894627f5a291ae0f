-- ===== src/Dashboard/ApiKeys.antt =====
-- frontend/src/routes/app/_layout/settings/api-keys.tsx: the projects with their keys and members.
-- A call to the server is started by an action and ends, later and in any order, with an event.
pub mod View
pub mod Own
use bataudit.Prelude.{
  ℕ, String, Bool, true, false, not, Option, none, some, List, [], ◌∷◌, str_eq, if◌then◌else◌,
  ◌or_else◌, Entries, entry,
}
use bataudit.Dashboard.Mutations.{
  Mutation, use_create_api_key, use_revoke_api_key, use_create_project, use_add_member,
  use_remove_member, use_update_member_role,
}
use bataudit.Dashboard.Slug.{Codes, slug_from_name}

pub record Project : Type 0 where
  pub id : String
  pub name : String
  pub slug : String

pub record ApiKey : Type 0 where
  pub id : String
  pub name : String
  pub project_id : String
  pub created_at : String
  pub expires_at : Option String
  pub active : Bool

pub record Member : Type 0 where
  pub user_id : String
  pub project_id : String
  pub role : String
  pub name : String
  pub email : String

pub data Tab : Type 0 where
  keys members : Tab

pub record ApiKeysPage : Type 0 where
  pub expanded_project : Option String
  pub new_key_name : Entries String
  pub revealed_key : Option String
  pub copied : Bool
  pub show_new_project : Bool
  pub project_name : String
  pub project_slug : String
  pub project_error : String
  pub active_tab : Entries Tab
  pub new_member_email : Entries String
  pub new_member_role : Entries String

abbrev pub initial : ApiKeysPage
initial = record {
  expanded_project = none;
  new_key_name = [];
  revealed_key = none;
  copied = false;
  show_new_project = false;
  project_name = "";
  project_slug = "";
  project_error = "";
  active_tab = [];
  new_member_email = [];
  new_member_role = [];
}

-- What the controls of the page do; the first text is the id of a project, where there are two.
pub data Action : Type 0 where
  toggle_new_project create_project cancel_project dismiss : Action
  type_name type_slug copy_key toggle_project : String → Action
  open_tab : String → Tab → Action
  type_key_name type_email choose_role : String → String → Action
  generate_key add_member : String → Action
  revoke_key : (id : String) → Action
  change_role : (user_id role : String) → Action
  remove_member : (user_id : String) → Action

-- `expandedProject === id`
abbrev pub is_expanded : Option String → String → Bool
is_expanded none id = false
is_expanded (some project) id = str_eq project id

-- `handleSlugFromName`, over the code units of a text.
abbrev pub named : (slug : String → String) → String → ApiKeysPage → ApiKeysPage
named slug name s = record s { project_name = name; project_slug = slug name }

-- The role that is chosen for a new member of a project.
abbrev pub role_of : String → ApiKeysPage → String
role_of id s = entry id s.new_member_role or_else "viewer"

-- The state after an action.
unfoldable pub act : (slug : String → String) → Action → ApiKeysPage → ApiKeysPage
act slug toggle_new_project s = record s { show_new_project = not s.show_new_project }
act slug create_project s = record s { project_error = "" }
act slug cancel_project s = record s { show_new_project = false }
act slug dismiss s = record s { revealed_key = none }
act slug (type_name name) s = named slug name s
act slug (type_slug text) s = record s { project_slug = text }
act slug (copy_key key) s = record s { copied = true }
act slug (toggle_project id) s = record s {
  expanded_project = if is_expanded s.expanded_project id then none else some id;
  revealed_key = none;
}
act slug (open_tab id tab) s = record s { active_tab = (id, tab) ∷ s.active_tab }
act slug (type_key_name id name) s = record s { new_key_name = (id, name) ∷ s.new_key_name }
act slug (type_email id email) s = record s { new_member_email = (id, email) ∷ s.new_member_email }
act slug (choose_role id role) s = record s { new_member_role = (id, role) ∷ s.new_member_role }
act slug (generate_key id) s = record s { new_key_name = (id, "") ∷ s.new_key_name }
act slug (add_member id) s = s
act slug (revoke_key id) s = s
act slug (change_role user_id role) s = s
act slug (remove_member user_id) s = s

-- The call that an action starts. A button is disabled where the text that it sends is missing.
unfoldable pub call : Action → ApiKeysPage → Option Mutation
call create_project s = some (use_create_project s.project_name s.project_slug)
call (generate_key id) s =
    some (use_create_api_key s.expanded_project id (entry id s.new_key_name or_else ""))
call (revoke_key id) s = some (use_revoke_api_key s.expanded_project id)
call (add_member id) s =
    some (use_add_member s.expanded_project (entry id s.new_member_email or_else "") (role_of id s))
call (change_role user_id role) s = some (use_update_member_role s.expanded_project user_id role)
call (remove_member user_id) s = some (use_remove_member s.expanded_project user_id)
call _ s = none

-- How a call ends, and the end of the two seconds after a copy.
pub data Event : Type 0 where
  project_created copy_over : Event
  project_failed : (message : String) → Event
  key_created : (key : String) → Event
  member_added : (project_id : String) → Event

unfoldable pub ended : Event → ApiKeysPage → ApiKeysPage
ended project_created s = record s {
  show_new_project = false;
  project_name = "";
  project_slug = "";
}
ended (project_failed message) s = record s { project_error = message }
ended (key_created key) s = record s { revealed_key = some key }
ended (member_added id) s = record s { new_member_email = (id, "") ∷ s.new_member_email }
ended copy_over s = record s { copied = false }
