-- ===== src/Web/Auth.antt =====
-- frontend/src/lib/auth.ts: the signed-in user, kept in `localStorage`.
pub mod Session
pub mod Refinement
use bataudit.Prelude.{
  ℕ, ◌*◌, String, Bool, true, false, Option, none, some, List, [], ◌∷◌, ltb, if◌then◌else◌, str_eq,
}
use bataudit.Prelude.Text.{◌<>◌, before, after}
use bataudit.Prelude.Json.{Json, null, str, obj, Fields, end, field, get_field}
use bataudit.Web.Platform.{Platform}
use bataudit.Web.Storage.{Storage, get_item, set_item, remove_item}
use bataudit.Web.Http.{Headers, Browser}

abbrev pub token_key : String
token_key = "bataudit_token"

abbrev pub user_key : String
user_key = "bataudit_user"

pub record StoredUser : Type 0 where
  pub id : String
  pub name : String
  pub email : String
  pub role : String

abbrev pub user_json : StoredUser → Json
user_json u = obj (
    field "id" (str u.id)
      (field "name" (str u.name) (field "email" (str u.email) (field "role" (str u.role) end))))

unfoldable pub get_token : Storage → Option String
get_token s = get_item token_key s

unfoldable pub set_auth : Platform → String → StoredUser → Storage → Storage
set_auth p token user s =
    set_item user_key (p.stringify_json (user_json user)) (set_item token_key token s)

unfoldable pub clear_auth : Storage → Storage
clear_auth s = remove_item user_key (remove_item token_key s)

-- The user in the stored text: `null` where nothing is stored, or the text is empty or no JSON.
abbrev pub stored_user : Platform → Option String → Option Json
stored_user p none = none
stored_user p (some raw) = if str_eq raw "" then none else p.parse_json raw

unfoldable pub get_user : Platform → Storage → Option Json
get_user p s = stored_user p (get_item user_key s)

-- `token.split('.')[1]` as `atob` takes it: where it is `undefined`, the text of that name.
abbrev pub payload_part : String → String
payload_part token = elim (after b'.' token) [ none ↦ "undefined" | some rest ↦ before b'.' rest ]

-- `payload.exp * 1000 < Date.now()`: false where `exp` is missing or no number, an exception,
-- which the code takes for an expired token, where the payload is `null`.
unfoldable pub payload_expired : Platform → ℕ → Json → Bool
payload_expired p now null = true
payload_expired p now (obj fs) = elim (get_field "exp" fs) [
  | none ↦ false
  | some e ↦ elim (p.to_number e) [ none ↦ false | some exp ↦ ltb (exp * 1000) now ]
]
payload_expired p now _ = false

unfoldable pub is_token_expired : Platform → ℕ → Storage → Bool
unfolding get_token payload_expired
is_token_expired p now s = elim (get_token s) [
  | none ↦ true
  | some token ↦ if str_eq token "" then true else elim (p.atob (payload_part token)) [
    | none ↦ true
    | some text ↦ elim (p.parse_json text) [
      | none ↦ true
      | some payload ↦ payload_expired p now payload
    ]
  ]
]

-- `!getToken()`
abbrev pub no_token : Option String → Bool
no_token none = true
no_token (some token) = str_eq token ""

-- `isAuthenticated`, with the storage that it leaves.
unfoldable pub is_authenticated : Platform → ℕ → Storage → Bool × Storage
unfolding get_token
is_authenticated p now s =
    if no_token (get_token s)
    then (false, s)
    else if is_token_expired p now s
    then (false, clear_auth s)
    else (true, s)

-- `authHeader`
unfoldable pub auth_header : Storage → Headers
unfolding get_token
auth_header s = elim (get_token s) [
  | none ↦ []
  | some token ↦ if str_eq token "" then [] else ("Authorization", "Bearer " <> token) ∷ []
]
