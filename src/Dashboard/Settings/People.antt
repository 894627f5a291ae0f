-- ===== src/Dashboard/Settings/People.antt =====
-- The forms that add a member, settings/members.tsx, and invite a user, settings/users.tsx. `mutate`
-- is run to its end.
use bataudit.Prelude.{String, not, ◌≡◌, ◌⊎◌, Option, if◌then◌else◌, arith}
use bataudit.Prelude.Text.{◌<>◌, truthy_text}
use bataudit.Prelude.Json.{Json, null}
use bataudit.Web.Platform.{Platform}
use bataudit.Web.Http.{Server, Browser, Error, Result, ok, err, optional_property}
use bataudit.Web.Clients.Projects.{add_member}
use bataudit.Web.Clients.Accounts.{create_invite}
use bataudit.Dashboard.Settings.{message_of}

pub record MemberForm : Type 0 where
  pub email : String
  pub role : String
  pub error_text : String
  pub browser : Browser

abbrev pub added : (Error → String) → Result (Option Json) × Browser → MemberForm → MemberForm
added browsers (ok _, b) s = record s { email = ""; role = "viewer"; error_text = ""; browser = b }
added browsers (err e, b) s = record s { error_text = message_of browsers e; browser = b }

-- `handleSubmit` of AddMemberForm
unfoldable pub submit_member :
    Platform
    → (browsers : Error → String) → (trim : String → String) → (project : String) → Server
    → MemberForm
    → MemberForm
submit_member p browsers trim project net s =
    if not (truthy_text (trim s.email))
    then s
    else added browsers (add_member p project (trim s.email) s.role net s.browser) s

pub record InviteForm : Type 0 where
  pub email : String
  pub role : String
  pub invite_link : String
  pub error_text : String
  pub browser : Browser

-- `${data.token}`
abbrev pub link_of : (origin : String) → (Option Json → String) → Option Json → String
link_of origin text_of token = origin <> "/invite/" <> text_of token

module _ (p : Platform) (browsers : Error → String) (text_of : Option Json → String)
    (trim : String → String) (origin : String) where
  -- `data.token` of `null` throws within the callback, after the texts were reset.
  abbrev pub invited : Result Json × Browser → InviteForm → InviteForm
  invited (ok null, b) s = record s { invite_link = ""; error_text = ""; browser = b }
  invited (ok reply, b) s = record s {
    email = "";
    role = "viewer";
    invite_link = link_of origin text_of (optional_property "token" reply);
    error_text = "";
    browser = b;
  }
  invited (err e, b) s = record s {
    invite_link = "";
    error_text = message_of browsers e;
    browser = b;
  }

  -- `handleSubmit` of InviteForm
  unfoldable pub submit_invite : Server → InviteForm → InviteForm
  submit_invite net s =
      if not (truthy_text (trim s.email))
      then s
      else invited (create_invite p (trim s.email) s.role net s.browser) s

  -- A form that is not taken keeps what was filled in.
  submit_invite_kept :
      (net : Server) (s : InviteForm)
      → let after = submit_invite net s in
        ((after.email ≡ s.email) × (after.role ≡ s.role))
        ⊎ ((after.email ≡ "") × (after.role ≡ "viewer") × (after.error_text ≡ ""))
  unfolding submit_invite
  submit_invite_kept net s = ground arith
