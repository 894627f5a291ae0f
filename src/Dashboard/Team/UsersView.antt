-- ===== src/Dashboard/Team/UsersView.antt =====
-- The page of the users.
use bataudit.Prelude.{
  ℕ, String, Bool, true, false, not, ◌&&◌, ◌||◌, Option, none, some, List, [], ◌∷◌, ◌++◌, ltb,
  length, if◌then◌else◌, Entries,
}
use bataudit.Prelude.Text.{◌<>◌, truthy_text}
use bataudit.Prelude.Json.{Json}
use bataudit.Web.Platform.{Platform}
use bataudit.Web.Http.{Server, Error}
use bataudit.Dashboard.Settings.People.{InviteForm, submit_invite}
use bataudit.Dashboard.Mutations.{Mutation, use_revoke_invite}
use bataudit.Dashboard.Settings.Confirm.{remove_user, user_button}
use bataudit.Dashboard.Screen.{Screen, text, button, input, choice, when, each}
use bataudit.Dashboard.Team.{User, Invite, asks, name_or, capital, counted}

pub record UsersPage : Type 0 where
  pub form : InviteForm
  pub copied : Bool
  pub confirms : Entries Bool

pub record Loaded : Type 0 where
  pub users : List User
  pub is_loading : Bool
  pub invites : List Invite
  pub inviting : Bool
  -- Whether the removal of a user, or of an invite, is on its way.
  pub deleting : String → Bool
  pub revoking : String → Bool

pub data Action : Type 0 where
  type_email choose_role copy : String → Action
  submit : Action
  click_remove : (id : String) → Action
  revoke_invite : (id : String) → Action

abbrev pub user_row : Loaded → UsersPage → User → Screen Action
user_row d s u =
    text (name_or u.name "—")
    ∷ text u.email
    ∷ text (capital u.role)
    ∷ when (user_button u.role) (
        button (not (d.deleting u.id)) (if asks u.id s.confirms then "Confirm?" else "Remove")
          (click_remove u.id)
        ∷ [])

abbrev pub invite_row : (date : String → String) → Loaded → Invite → Screen Action
invite_row date d i =
    text i.email
    ∷ text ("Expires " <> date i.expires_at)
    ∷ text i.role
    ∷ button (not (d.revoking i.id)) "Revoke invite" (revoke_invite i.id)
    ∷ []

abbrev pub invite_form : (trim : String → String) → Loaded → UsersPage → Screen Action
invite_form trim d s =
    input s.form.email type_email
    ∷ choice true s.form.role ("viewer" ∷ "admin" ∷ []) choose_role
    ∷ button (not (d.inviting || not (truthy_text (trim s.form.email))))
        (if d.inviting then "Generating…" else "Generate Invite") submit
    ∷ (when (truthy_text s.form.invite_link) (
          text s.form.invite_link
          ∷ button true (if s.copied then "Copied!" else "Copy") (copy s.form.invite_link)
          ∷ [])
        ++ when (truthy_text s.form.error_text) (text s.form.error_text ∷ []))

unfoldable pub view :
    (text_of : ℕ → String) → (trim date : String → String) → Loaded → UsersPage → Screen Action
view text_of trim date d s =
    (text "Users"
      ∷ text "Manage BatAudit accounts"
      ∷ when (ltb 0 (length d.users)) (text (counted text_of "user" (length d.users)) ∷ []))
    ++ ((text "Invite user" ∷ invite_form trim d s)
        ++ (when (ltb 0 (length d.invites))
              (text "Pending invites" ∷ each (invite_row date d) d.invites)
            ++ (when d.is_loading (text "Loading…" ∷ [])
                ++ (when (not d.is_loading && not (ltb 0 (length d.users)))
                      (text "No users yet." ∷ [])
                    ++ each (user_row d s) d.users))))

-- What an action does: the state, and the call that it starts. The form's call is run to its end.
module _ (p : Platform) (browsers : Error → String) (text_of : Option Json → String)
    (trim : String → String) (origin : String) (net : Server) where
  unfoldable pub act : Action → UsersPage → UsersPage × Option Mutation
  act (type_email email) s = (record s { form = record s.form { email = email } }, none)
  act (choose_role role) s = (record s { form = record s.form { role = role } }, none)
  act submit s = (record s { form = submit_invite p browsers text_of trim origin net s.form }, none)
  act (copy link) s = (record s { copied = true }, none)
  act (revoke_invite id) s = (s, some (use_revoke_invite id))
  act (click_remove id) s =
      let (asked, m) = remove_user id (asks id s.confirms) in
      (record s { confirms = (id, asked) ∷ s.confirms }, m)

  -- `onSettled`
  abbrev pub settled : (id : String) → UsersPage → UsersPage
  settled id s = record s { confirms = (id, false) ∷ s.confirms }
