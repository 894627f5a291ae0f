-- ===== src/Web/Clients/Accounts.antt =====
-- frontend/src/http/auth, users.ts, invites.ts and health/details.tsx.
use bataudit.Prelude.{String, Option, none, some, [], ◌∷◌, not, ◌==◌}
use bataudit.Prelude.Text.{◌<>◌}
use bataudit.Prelude.Json.{Json, str}
use bataudit.Web.Platform.{Platform}
use bataudit.Web.Http.{get, post, delete, Api, ◌>>=◌, ◌>>◌, fetch, ensure, property}
use bataudit.Web.Api.{fetch_with_auth}
use bataudit.Web.Clients.Requests.{plain, with_body, content_type, checked, checked_done}

module _ (p : Platform) where
  -- `login` and the two operations on an invite's token go without a token of a user.
  unfoldable pub login : (email password : String) → Api Json
  login email password = do
    res ← fetch (
        with_body post (p.base <> "/v1/auth/login")
          (("email", some (str email)) ∷ ("password", some (str password)) ∷ []))
    checked "Invalid credentials" res

  unfoldable pub logout : Api (Option Json)
  logout = do
    res ← fetch_with_auth (plain post (p.base <> "/v1/auth/logout"))
    checked_done "Failed to logout" res

  unfoldable pub get_health_details : Api Json
  get_health_details = do
    res ←
        fetch
          (record { method = get; url = p.base <> "/health"; headers = content_type; body = none })
    checked "Failed to fetch health status" res

  -- `json.data`, `undefined` if the reply has none.
  unfoldable pub list_users : Api (Option Json)
  list_users = do
    res ← fetch_with_auth (plain get (p.base <> "/v1/auth/users"))
    json ← checked "Failed to list users" res
    property "data" json

  unfoldable pub create_user : (name email password role : String) → Api Json
  create_user name email password role = do
    res ← fetch_with_auth (
        with_body post (p.base <> "/v1/auth/users") (
          ("name", some (str name))
          ∷ ("email", some (str email))
          ∷ ("password", some (str password))
          ∷ ("role", some (str role))
          ∷ []))
    ensure (not (res.status == 409)) "Email already in use"
    checked "Failed to create user" res

  unfoldable pub delete_user : String → Api (Option Json)
  delete_user id = do
    res ← fetch_with_auth (plain delete (p.base <> "/v1/auth/users/" <> id))
    checked_done "Failed to delete user" res

  unfoldable pub list_invites : Api (Option Json)
  list_invites = do
    res ← fetch_with_auth (plain get (p.base <> "/v1/auth/invites"))
    json ← checked "Failed to list invites" res
    property "data" json

  unfoldable pub create_invite : (email role : String) → Api Json
  create_invite email role = do
    res ← fetch_with_auth (
        with_body post (p.base <> "/v1/auth/invites")
          (("email", some (str email)) ∷ ("role", some (str role)) ∷ []))
    checked "Failed to create invite" res

  unfoldable pub revoke_invite : String → Api (Option Json)
  revoke_invite id = do
    res ← fetch_with_auth (plain delete (p.base <> "/v1/auth/invites/" <> id))
    checked_done "Failed to revoke invite" res

  unfoldable pub get_invite_preview : String → Api Json
  get_invite_preview token = do
    res ← fetch (plain get (p.base <> "/v1/auth/invite/" <> token))
    checked "Invite not found or expired" res

  unfoldable pub accept_invite : (token name password : String) → Api (Option Json)
  accept_invite token name password = do
    res ← fetch (
        with_body post (p.base <> "/v1/auth/invite/" <> token <> "/accept")
          (("name", some (str name)) ∷ ("password", some (str password)) ∷ []))
    ensure (not (res.status == 409)) "Email already in use"
    ensure (not (res.status == 410)) "Invite has expired"
    checked_done "Failed to accept invite" res
