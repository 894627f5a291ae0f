-- ===== src/Dashboard/Settings/Confirm.antt =====
-- `UserRow` of settings/users.tsx and `MemberRow` of settings/members.tsx: a removal that asks to
-- be confirmed by a second click.
use bataudit.Prelude.{
  String, Bool, true, false, not, ◌&&◌, ◌||◌, Option, none, some, if◌then◌else◌, str_eq,
}
use bataudit.Dashboard.Mutations.{Mutation, use_delete_user, use_remove_member}

-- The button of a row: whether it asks to be confirmed after a click, and what is called then.
unfoldable pub handle_remove : Mutation → (confirm : Bool) → Bool × Option Mutation
handle_remove m confirm = if not confirm then (true, none) else (true, some m)

-- `onSettled`
abbrev pub settled : Bool → Bool
settled confirm = false

-- The button of a user, which an owner has none of, and of a member, for someone who manages.
abbrev pub user_button : (role : String) → Bool
user_button role = not (str_eq role "owner")

abbrev pub member_button : (current_role role : String) → Bool
member_button current_role role =
    (str_eq current_role "owner" || str_eq current_role "admin") && not (str_eq role "owner")

abbrev pub remove_user : (id : String) → Bool → Bool × Option Mutation
remove_user id = handle_remove (use_delete_user id)

abbrev pub remove_member : (project : Option String) → (id : String) → Bool → Bool × Option Mutation
remove_member project id = handle_remove (use_remove_member project id)
