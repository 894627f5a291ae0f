-- ===== src/Web/Wallboard.antt =====
-- frontend/src/http/wallboard.ts, the first part: the tokens of a wallboard, which is not signed in
-- as a user, and its data. `Date.now()` does not move during one operation.
pub mod Feeds
pub mod Tokens
pub mod Renewal
use bataudit.Prelude.{
  ℕ, ◌+◌, ◌*◌, String, Bool, true, false, not, ◌||◌, Option, none, some, List, [], ◌∷◌, ◌++◌, ltb,
  if◌then◌else◌, ◌or_else◌, str_eq, ◌==◌,
}
use bataudit.Prelude.Text.{◌<>◌, truthy, truthy_text}
use bataudit.Prelude.Json.{Json, null, bool, num, str, arr, obj}
use bataudit.Web.Platform.{Platform}
use bataudit.Web.Storage.{Storage, get_item, set_item, remove_item}
use bataudit.Web.Http.{
  get, post, Request, Response, Browser, Api, Error, error, ◌>>=◌, ◌>>◌, pure, raise, gets, modify,
  fetch, ensure, is_ok, read_json, property,
}
use bataudit.Web.Clients.Requests.{given, query_of, Search, with_body}

abbrev pub wb_access_key : String
wb_access_key = "wb_access_token"

abbrev pub wb_refresh_key : String
wb_refresh_key = "wb_refresh_token"

abbrev pub wb_project_key : String
wb_project_key = "wb_project_id"

abbrev pub wb_expires_key : String
wb_expires_key = "wb_expires_at"

abbrev pub wb_profile_key : String
wb_profile_key = "wb_profile_name"

pub record WbTokens : Type 0 where
  pub access : Option String
  pub refresh : Option String
  pub project_id : Option String
  -- `none` is `NaN`.
  pub expires_at : Option ℕ
  pub profile_name : String

-- `Number(localStorage.getItem(…) ?? 0)`
abbrev pub number_or_zero : Platform → Option String → Option ℕ
number_or_zero p none = some 0
number_or_zero p (some text) = p.number_of_text text

unfoldable pub get_wb_tokens : Platform → Storage → WbTokens
get_wb_tokens p s = record {
  access = get_item wb_access_key s;
  refresh = get_item wb_refresh_key s;
  project_id = get_item wb_project_key s;
  expires_at = number_or_zero p (get_item wb_expires_key s);
  profile_name = get_item wb_profile_key s or_else "";
}

unfoldable pub clear_wb_tokens : Storage → Storage
clear_wb_tokens s = remove_item wb_profile_key (
    remove_item wb_expires_key
      (remove_item wb_project_key (remove_item wb_refresh_key (remove_item wb_access_key s))))

-- A value of a reply as `setItem` stores it.
unfoldable pub stored_text : Platform → Option Json → String
stored_text p none = "undefined"
stored_text p (some null) = "null"
stored_text p (some (str s)) = s
stored_text p (some (bool true)) = "true"
stored_text p (some (bool false)) = "false"
stored_text p (some (num n)) = p.text_of_number n
stored_text p (some j) = p.stringify_json j

-- Whether `if (value)` takes the branch.
abbrev pub truthy_json : Option Json → Bool
truthy_json none = false
truthy_json (some null) = false
truthy_json (some (bool b)) = b
truthy_json (some (num n)) = not (n == 0)
truthy_json (some (str s)) = truthy_text s
truthy_json (some j) = true

-- `value ?? ''`
abbrev pub or_no_text : Option Json → Option Json
or_no_text none = some (str "")
or_no_text (some null) = some (str "")
or_no_text (some j) = some j

-- `String(Date.now() + expiresIn * 1000)`
abbrev pub expiry_text : Platform → ℕ → Option ℕ → String
expiry_text p now none = "NaN"
expiry_text p now (some expires_in) = p.text_of_number (now + expires_in * 1000)

abbrev pub number_of : Platform → Option Json → Option ℕ
number_of p none = none
number_of p (some j) = p.to_number j

-- The arguments of `saveTokens`.
pub record Grant : Type 0 where
  pub access : Option Json
  pub refresh : Option Json
  pub project_id : Option Json
  pub expires_in : Option Json
  -- `none` where the profile's name is not passed.
  pub profile_name : Option (Option Json)

abbrev pub set_if : Bool → String → String → Storage → Storage
set_if test k v s = if test then set_item k v s else s

abbrev pub set_profile : Platform → Option (Option Json) → Storage → Storage
set_profile p none s = s
set_profile p (some name) s = set_item wb_profile_key (stored_text p name) s

unfoldable pub save_tokens : Platform → ℕ → Grant → Storage → Storage
save_tokens p now g s = set_profile p g.profile_name (
    set_item wb_expires_key (expiry_text p now (number_of p g.expires_in)) (
      set_item wb_project_key (stored_text p g.project_id) (
        set_if (truthy_json g.refresh) wb_refresh_key (stored_text p g.refresh)
          (set_item wb_access_key (stored_text p g.access) s))))

abbrev pub save : Platform → Grant → Browser → Browser
save p g b = record b { storage = save_tokens p b.now g b.storage }

module _ (p : Platform) where
  unfoldable pub activate : String → Api Json
  activate code = do
    res ←
        fetch (with_body post (p.base <> "/v1/wallboard/activate") (("code", some (str code)) ∷ []))
    ensure (is_ok res) "Invalid or expired code"
    json ← read_json res
    access ← property "access_token" json
    refresh ← property "refresh_token" json
    project_id ← property "project_id" json
    expires_in ← property "expires_in" json
    profile_name ← property "profile_name" json
    modify (
        save p (record {
          access = access;
          refresh = refresh;
          project_id = or_no_text project_id;
          expires_in = expires_in;
          profile_name = some (or_no_text profile_name);
        }))
    pure json

  -- A refused renewal: the tokens go, and the value is `null`.
  abbrev pub forget : Api (Option Json)
  forget = modify (λ b. record b { storage = clear_wb_tokens b.storage }) >> pure none

  abbrev pub renew : Response → Api (Option Json)
  renew res = do
    json ← read_json res
    access ← property "access_token" json
    project_id ← property "project_id" json
    expires_in ← property "expires_in" json
    modify (
        save p (record {
          access = access;
          refresh = none;
          project_id = or_no_text project_id;
          expires_in = expires_in;
          profile_name = none;
        }))
    pure access

  abbrev pub refresh_request : String → Request
  refresh_request refresh =
      with_body post (p.base <> "/v1/wallboard/refresh")
        (("refresh_token", some (str refresh)) ∷ [])

  abbrev pub refresh_with : Option String → Api (Option Json)
  refresh_with none = pure none
  refresh_with (some refresh) =
      if truthy_text refresh
      then (fetch (refresh_request refresh) >>= λ res. if is_ok res then renew res else forget)
      else pure none

  -- `refreshAccessToken`, with `none` for `null` and for `undefined`.
  unfoldable pub refresh_access_token : Api (Option Json)
  refresh_access_token = do
    tokens ← gets (λ b. get_wb_tokens p b.storage)
    refresh_with tokens.refresh

  -- `Date.now() > expiresAt - 5 * 60 * 1000`, which is false at `NaN`.
  abbrev pub expires_soon : ℕ → Option ℕ → Bool
  expires_soon now none = false
  expires_soon now (some expires_at) = ltb expires_at (now + 5 * 60 * 1000)

  -- The token that a request is made with: the stored one, or a new one.
  unfoldable pub current_access : Api (Option Json)
  current_access = do
    tokens ← gets (λ b. get_wb_tokens p b.storage)
    now ← gets (λ b. b.now)
    if not (truthy tokens.access) || expires_soon now tokens.expires_at
        then refresh_access_token
        else pure (some (str (tokens.access or_else "")))

  abbrev pub wb_request : String → (project_id environment : Option String) → String → Request
  wb_request path project_id environment access = record {
    method = get;
    url =
        p.base
        <> path
        <> query_of p (given "project_id" project_id ++ given "environment" environment);
    headers = ("Authorization", "Bearer " <> access) ∷ [];
    body = none;
  }

  unfoldable pub wb_fetch : String → (project_id environment : Option String) → Api Response
  wb_fetch path project_id environment = do
    access ← current_access
    if truthy_json access
        then fetch (wb_request path project_id environment (stored_text p access))
        else raise (error "unauthenticated")
