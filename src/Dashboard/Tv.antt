-- ===== src/Dashboard/Tv.antt =====
-- frontend/src/routes/tv.tsx: the page of a wallboard, which is activated with a code and keeps its
-- tokens. A handler is run to its end; a profile's name is a text by its type, and another value
-- stands as its text.
pub mod Reload
pub mod Views
pub mod Volume
pub mod Panels
pub mod Screens
pub mod Chosen
use bataudit.Prelude.{
  ℕ, ◌+◌, ◌/◌, String, Bool, true, false, not, ◌&&◌, ltb, leb, Option, none, some, List, length,
  any, ◌==◌, if◌then◌else◌, str_eq,
}
use bataudit.Prelude.Text.{truthy, truthy_text}
use bataudit.Prelude.Json.{Json}
use bataudit.Web.Platform.{Platform}
use bataudit.Web.Http.{
  Server, Browser, Error, Result, ok, err, Api, ◌>>=◌, property, optional_property,
}
use bataudit.Web.Wallboard.{
  get_wb_tokens, clear_wb_tokens, refresh_access_token, activate, truthy_json, or_no_text,
  stored_text,
}

pub record Tv : Type 0 where
  pub authenticated : Bool
  pub active_project_id : String
  pub profile_name : String
  pub browser : Browser

-- The page as it is loaded, with `search.project_id`.
abbrev pub loaded : Option String → Browser → Tv
loaded search_project browser = record {
  authenticated = false;
  active_project_id = elim search_project [ none ↦ "" | some id ↦ id ];
  profile_name = "";
  browser = browser;
}

-- `access && Date.now() < expiresAt`, which is false at `NaN`.
abbrev pub is_valid : ℕ → Option String → Option ℕ → Bool
is_valid now access none = false
is_valid now access (some expires_at) = truthy access && ltb now expires_at

-- `refreshAccessToken().then(…)`, where it rejects nothing follows.
abbrev pub refreshed : Result (Option Json) × Browser → Tv → Tv
refreshed (err e, b) s = record s { browser = b }
refreshed (ok token, b) s =
    if truthy_json token
    then record s { authenticated = true; browser = b }
    else record s { browser = b }

-- The first effect of `TVPage`.
unfoldable pub check_tokens : Platform → Server → Tv → Tv
check_tokens p net s =
    let tokens = get_wb_tokens p s.browser.storage in
    let r =
      if truthy_text tokens.profile_name
      then record s { profile_name = tokens.profile_name }
      else s in
    if is_valid s.browser.now tokens.access tokens.expires_at
    then record r { authenticated = true }
    else refreshed (refresh_access_token p net s.browser) r

-- The second effect.
abbrev pub override_project : Option String → Tv → Tv
override_project none s = s
override_project (some id) s = if truthy_text id then record s { active_project_id = id } else s

-- The page after it has been loaded, with its effects.
abbrev pub load : Platform → Server → Option String → Browser → Tv
load p net search_project b =
    override_project search_project (check_tokens p net (loaded search_project b))

-- The button 'Disconnect'.
unfoldable pub disconnect : Tv → Tv
disconnect s = record s {
  authenticated = false;
  browser = record s.browser { storage = clear_wb_tokens s.browser.storage };
}

-- The state of `ActivationScreen`.
pub record Activation : Type 0 where
  pub code : String
  pub error : String
  pub loading : Bool

abbrev pub activated : Platform → Result Json × Browser → Activation × Tv → Activation × Tv
activated p (err e, b) (form, s) = (
  record form {
    error = "Invalid or expired code. Generate one in Settings → Wallboard.";
    loading = false;
  },
  record s { browser = b },
)
activated p (ok found, b) (form, s) = (
  record form { loading = false },
  record s {
    authenticated = true;
    profile_name = stored_text p (or_no_text (optional_property "profile_name" found));
    browser = b;
  },
)

unfoldable pub handle_submit :
    Platform → (trim : String → String) → Server → Activation × Tv → Activation × Tv
handle_submit p trim net (form, s) =
    activated p (activate p (trim form.code) net s.browser)
      (record form { error = ""; loading = true }, s)
