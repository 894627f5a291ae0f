-- ===== src/Dashboard/SignIn.antt =====
-- Signing in and out: frontend/src/routes/login.tsx and invite.$token.tsx, the guard of
-- frontend/src/routes/app/_layout.tsx, and `handleLogout` of frontend/src/components/header.tsx.
-- A handler is run to its end. The router's location and that of the window are one.
pub mod Guard
use bataudit.Prelude.{String, Bool, true, false, Option, none, some, if◌then◌else◌}
use bataudit.Prelude.Json.{Json}
use bataudit.Web.Platform.{Platform}
use bataudit.Web.Storage.{Storage, set_item}
use bataudit.Web.Http.{
  Server, Browser, Error, error, error_value, Result, ok, err, Api, ◌>>=◌, ◌>>◌, modify, property,
}
use bataudit.Web.Auth.{token_key, user_key, clear_auth, is_authenticated}
use bataudit.Web.Wallboard.{stored_text}
use bataudit.Web.Clients.Accounts.{login, logout, get_invite_preview, accept_invite}

pub record LoginForm : Type 0 where
  pub email : String
  pub password : String
  pub error_text : String
  pub loading : Bool

-- `JSON.stringify(user)` as `setItem` stores it.
abbrev pub user_text : Platform → Option Json → String
user_text p none = "undefined"
user_text p (some user) = p.stringify_json user

-- `setAuth` with the values of a reply.
abbrev pub store_auth : Platform → (token user : Option Json) → Storage → Storage
store_auth p token user s =
    set_item user_key (user_text p user) (set_item token_key (stored_text p token) s)

-- `router.navigate({ to })`
abbrev pub navigate : String → Browser → Browser
navigate to b = record b { location = to }

-- The `try` of the login page.
unfoldable pub sign_in : Platform → (email password : String) → Api Unit
sign_in p email password = do
  json ← login p email password
  token ← property "token" json
  user ← property "user" json
  modify (λ b. navigate "/app" (record b { storage = store_auth p token user b.storage }))

abbrev pub signed_in : Result Unit × Browser → LoginForm → LoginForm × Browser
signed_in (ok _, b) form = (record form { loading = false }, b)
signed_in (err e, b) form =
    (record form { error_text = "Invalid email or password."; loading = false }, b)

-- `handleSubmit` of the login page.
unfoldable pub handle_submit : Platform → Server → LoginForm → Browser → LoginForm × Browser
handle_submit p net form b =
    signed_in (sign_in p form.email form.password net b)
      (record form { error_text = ""; loading = true })

-- `beforeLoad` of the pages under `/app`: where a redirection is thrown to, and the browser.
unfoldable pub before_load : Platform → Browser → Option String × Browser
before_load p b =
    let (authenticated, storage) = is_authenticated p b.now b.storage in
    (if authenticated then none else some "/login", record b { storage = storage })

-- `handleLogout`: `onSettled` runs whether or not the server could be told.
unfoldable pub handle_logout : Platform → Server → Browser → Browser
handle_logout p net b =
    let (_, c) = logout p net b in navigate "/login" (record c { storage = clear_auth c.storage })

-- The page of an invite.
pub record InvitePage : Type 0 where
  pub preview : Option Json
  pub invalid : Bool
  pub name : String
  pub password : String
  pub error_text : String
  pub loading : Bool

-- The effect of the page.
unfoldable pub show_invite :
    Platform → Server → (token : String) → InvitePage → Browser → InvitePage × Browser
show_invite p net token s b =
    let (r, c) = get_invite_preview p token net b in
    elim r [
      | ok preview ↦ (record s { preview = some preview }, c)
      | err e ↦ (record s { invalid = true }, c)
    ]

-- `err instanceof Error ? err.message : …`, where every exception of the call is an `Error`; the
-- messages that the browser makes are an argument.
abbrev pub message_of : (Error → String) → Error → String
message_of browsers (error message) = message
message_of browsers e = browsers e

unfoldable pub accept :
    Platform
    → (trim : String → String) → (browsers : Error → String) → Server
    → (token : String) → InvitePage
    → Browser
    → InvitePage × Browser
accept p trim browsers net token s b =
    let (r, c) = accept_invite p token (trim s.name) s.password net b in
    elim r [
      | ok _ ↦ (record s { error_text = ""; loading = false }, navigate "/login" c)
      | err e ↦ (record s { error_text = message_of browsers e; loading = false }, c)
    ]
