-- ===== src/Web/Clients/Projects.antt =====
-- frontend/src/http/projects, members and api-keys.
use bataudit.Prelude.{String, Bool, true, false, Option, none, some, [], ◌∷◌}
use bataudit.Prelude.Text.{◌<>◌}
use bataudit.Prelude.Json.{Json, str}
use bataudit.Web.Platform.{Platform}
use bataudit.Web.Http.{
  get, post, patch, delete, Response, Api, ◌>>=◌, ◌>>◌, pure, raise, is_ok, read_json, property,
  error_or,
}
use bataudit.Web.Api.{fetch_with_auth}
use bataudit.Web.Clients.Requests.{
  plain, with_body, content_type, checked, checked_data, checked_done,
}

-- `if (!ok) { const err = await res.json(); throw new Error(err.error ?? message) }`
abbrev pub refuse : Bool → String → Response → Api (Unit {0})
refuse true message res = pure tt
refuse false message res = do
  err ← read_json res
  found ← property "error" err
  raise (error_or found message)

module _ (p : Platform) where
  unfoldable pub list_projects : Api Json
  list_projects = do
    res ← fetch_with_auth (record {
      method = get;
      url = p.base <> "/v1/auth/projects";
      headers = content_type;
      body = none;
    })
    checked_data "Failed to list projects" res

  unfoldable pub create_project : (name slug : String) → Api Json
  create_project name slug = do
    res ← fetch_with_auth (
        with_body post (p.base <> "/v1/auth/projects")
          (("name", some (str name)) ∷ ("slug", some (str slug)) ∷ []))
    refuse (is_ok res) "Failed to create project" res
    read_json res

  abbrev members_url : String → String
  members_url project_id = p.base <> "/v1/auth/projects/" <> project_id <> "/members"

  unfoldable pub list_members : String → Api Json
  list_members project_id = do
    res ← fetch_with_auth (plain get (members_url project_id))
    checked_data "Failed to list members" res

  unfoldable pub add_member : (project_id email role : String) → Api (Option Json)
  add_member project_id email role = do
    res ← fetch_with_auth (
        with_body post (members_url project_id)
          (("email", some (str email)) ∷ ("role", some (str role)) ∷ []))
    refuse (is_ok res) "Failed to add member" res
    pure none

  unfoldable pub update_member_role : (project_id user_id role : String) → Api (Option Json)
  update_member_role project_id user_id role = do
    res ← fetch_with_auth (
        with_body patch (members_url project_id <> "/" <> user_id) (("role", some (str role)) ∷ []))
    checked_done "Failed to update member role" res

  unfoldable pub remove_member : (project_id user_id : String) → Api (Option Json)
  remove_member project_id user_id = do
    res ← fetch_with_auth (plain delete (members_url project_id <> "/" <> user_id))
    checked_done "Failed to remove member" res

  -- The project's id goes into the URL as it is.
  unfoldable pub list_api_keys : String → Api Json
  list_api_keys project_id = do
    res ← fetch_with_auth (plain get (p.base <> "/v1/auth/api-keys?project_id=" <> project_id))
    checked_data "Failed to list api keys" res

  unfoldable pub create_api_key : (project_id name : String) → Api Json
  create_api_key project_id name = do
    res ← fetch_with_auth (
        with_body post (p.base <> "/v1/auth/api-keys")
          (("project_id", some (str project_id)) ∷ ("name", some (str name)) ∷ []))
    checked "Failed to create api key" res

  unfoldable pub revoke_api_key : String → Api (Option Json)
  revoke_api_key id = do
    res ← fetch_with_auth (plain delete (p.base <> "/v1/auth/api-keys/" <> id))
    checked_done "Failed to revoke api key" res
