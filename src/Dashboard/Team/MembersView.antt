-- ===== src/Dashboard/Team/MembersView.antt =====
-- The page of the members of a project.
use bataudit.Prelude.{
  ℕ, String, Bool, true, false, not, ◌&&◌, ◌||◌, Option, none, some, List, [], ◌∷◌, ◌++◌, str_eq,
  ltb, length, if◌then◌else◌, ◌or_else◌, Entries,
}
use bataudit.Prelude.Text.{truthy, truthy_text}
use bataudit.Web.Platform.{Platform}
use bataudit.Web.Http.{Server, Error}
use bataudit.Dashboard.Settings.People.{MemberForm, submit_member}
use bataudit.Dashboard.Mutations.{Mutation, use_update_member_role}
use bataudit.Dashboard.Settings.Confirm.{remove_member}
use bataudit.Dashboard.Screen.{Screen, text, button, input, choice, when, each}
use bataudit.Dashboard.ApiKeys.{Member}
use bataudit.Dashboard.Team.{asks, name_or, capital, counted}

pub record MembersPage : Type 0 where
  pub form : MemberForm
  pub confirms : Entries Bool

-- What the queries and the mutations of the page report.
pub record Loaded : Type 0 where
  pub members : List Member
  pub is_loading : Bool
  pub adding : Bool
  -- Whether a change of a role, or a removal, of the row is on its way.
  pub updating : String → Bool
  pub removing : String → Bool

pub data Action : Type 0 where
  type_email choose_role : String → Action
  submit : Action
  change_role : (user_id role : String) → Action
  click_remove : (user_id : String) → Action

-- The first owner of the list.
abbrev pub has_owner : List Member → Bool
has_owner [] = false
has_owner (m ∷ ms) = str_eq m.role "owner" || has_owner ms

abbrev pub current_user_role : List Member → String
current_user_role members = if has_owner members then "owner" else "admin"

abbrev pub can_manage : (current_role : String) → Bool
can_manage role = str_eq role "owner" || str_eq role "admin"

abbrev pub member_row : Loaded → MembersPage → String → Member → Screen Action
member_row d s current_role m =
    text (name_or m.name "—")
    ∷ text m.email
    ∷ (if can_manage current_role && not (str_eq m.role "owner")
        then choice (not (d.updating m.user_id)) m.role ("admin" ∷ "viewer" ∷ [])
            (change_role m.user_id)
        else text (capital m.role))
    ∷ when (can_manage current_role && not (str_eq m.role "owner")) (
        button (not (d.removing m.user_id))
          (if asks m.user_id s.confirms then "Confirm?" else "Remove") (click_remove m.user_id)
        ∷ [])

abbrev pub add_form : (trim : String → String) → Loaded → MembersPage → Screen Action
add_form trim d s =
    input s.form.email type_email
    ∷ choice true s.form.role ("viewer" ∷ "admin" ∷ []) choose_role
    ∷ button (not (d.adding || not (truthy_text (trim s.form.email))))
        (if d.adding then "Adding…" else "Add Member") submit
    ∷ when (truthy_text s.form.error_text) (text s.form.error_text ∷ [])

abbrev pub heading : (text_of : ℕ → String) → Loaded → Screen Action
heading text_of d =
    text "Members"
    ∷ text "Manage who has access to this project"
    ∷ when (ltb 0 (length d.members)) (text (counted text_of "member" (length d.members)) ∷ [])

abbrev pub add_card : (trim : String → String) → Loaded → MembersPage → Screen Action
add_card trim d s =
    text "Add member" ∷ add_form trim d s
    ++ text "The user must already have a BatAudit account." ∷ []

abbrev pub note : Loaded → Screen Action
note d =
    when d.is_loading (text "Loading…" ∷ [])
    ++ when (not d.is_loading && not (ltb 0 (length d.members))) (text "No members yet." ∷ [])

unfoldable pub view :
    (text_of : ℕ → String)
    → (trim : String → String) → Option String
    → Loaded
    → MembersPage
    → Screen Action
view text_of trim project d s =
    if not (truthy project)
    then text "Select a project to manage its members." ∷ []
    else heading text_of d
      ++ (add_card trim d s
          ++ (note d ++ each (member_row d s (current_user_role d.members)) d.members))

-- What an action does: the state, and the call that it starts. The form's call is run to its end.
module _ (p : Platform) (browsers : Error → String) (trim : String → String) (net : Server) where
  unfoldable pub act :
      (project : Option String) → Action → MembersPage → MembersPage × Option Mutation
  act project (type_email email) s = (record s { form = record s.form { email = email } }, none)
  act project (choose_role role) s = (record s { form = record s.form { role = role } }, none)
  act project submit s =
      (record s { form = submit_member p browsers trim (project or_else "") net s.form }, none)
  act project (change_role user_id role) s = (s, some (use_update_member_role project user_id role))
  act project (click_remove user_id) s =
      let (asked, m) = remove_member project user_id (asks user_id s.confirms) in
      (record s { confirms = (user_id, asked) ∷ s.confirms }, m)

  -- `onSettled`
  abbrev pub settled : (user_id : String) → MembersPage → MembersPage
  settled user_id s = record s { confirms = (user_id, false) ∷ s.confirms }
