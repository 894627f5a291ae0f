-- ===== src/Dashboard/Team.antt =====
-- What settings/members.tsx and settings/users.tsx of frontend/src/routes/app/_layout show.
pub mod MembersView
pub mod UsersView
pub mod Managed
use bataudit.Prelude.{
  ℕ, String, Bool, true, false, List, [], ◌∷◌, ◌==◌, str_eq, if◌then◌else◌, ◌or_else◌, Entries,
  entry,
}
use bataudit.Prelude.Text.{◌<>◌, truthy_text}
use bataudit.Dashboard.Screen.{Screen, text, button}

pub record User : Type 0 where
  pub id : String
  pub name : String
  pub email : String
  pub role : String
  pub created_at : String

pub record Invite : Type 0 where
  pub id : String
  pub email : String
  pub role : String
  pub expires_at : String
  pub created_at : String

-- What a row asks for: the state of each row's `confirm`, by the id.
abbrev pub asks : String → Entries Bool → Bool
asks id confirms = entry id confirms or_else false

-- `name || other`
abbrev pub name_or : String → String → String
name_or name other = if truthy_text name then name else other

abbrev pub capital : String → String
capital role =
    if str_eq role "owner"
    then "Owner"
    else if str_eq role "admin"
    then "Admin"
    else if str_eq role "viewer"
    then "Viewer"
    else ""

-- The number of rows with its word.
abbrev pub counted : (text_of : ℕ → String) → String → ℕ → String
counted text_of word n = text_of n <> " " <> word <> (if n == 1 then "" else "s")
