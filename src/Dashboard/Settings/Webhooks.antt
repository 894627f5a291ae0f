-- ===== src/Dashboard/Settings/Webhooks.antt =====
-- The webhooks of frontend/src/routes/app/_layout/settings/notifications.tsx: the form, and the test.
use text.Mathlib.Text.{starts_with}
use bataudit.Prelude.{ℕ, String, Bool, false, not, ltb, Option, none, some, if◌then◌else◌}
use bataudit.Prelude.Text.{truthy_text}
use bataudit.Prelude.Json.{Json}
use bataudit.Web.Platform.{Platform}
use bataudit.Web.Http.{Server, Browser, Error, Result, ok, err}
use bataudit.Web.Clients.Notifications.{create_webhook}

pub record WebhookForm : Type 0 where
  pub show_form : Bool
  pub url : String
  pub secret : String
  pub form_error : String
  pub browser : Browser

abbrev pub created : (Error → String) → Result Json × Browser → WebhookForm → WebhookForm
created string_of (ok _, b) s = record s {
  url = "";
  secret = "";
  show_form = false;
  form_error = "";
  browser = b;
}
created string_of (err e, b) s = record s { form_error = string_of e; browser = b }

-- `secret || undefined`
abbrev pub given_secret : String → Option String
given_secret secret = if truthy_text secret then some secret else none

unfoldable pub handle_create :
    Platform
    → (string_of : Error → String) → (project : String) → Server
    → WebhookForm
    → WebhookForm
handle_create p string_of project net s =
    if not (starts_with s.url "http")
    then record s { form_error = "URL must start with http:// or https://" }
    else created string_of (create_webhook p project s.url (given_secret s.secret) net s.browser) s

-- The reply of a test.
pub record Tested : Type 0 where
  pub delivered : Bool
  pub status_code : ℕ
  pub response : String
  pub error_text : String

-- What a test shows: the parts of its text.
pub data Shown : Type 0 where
  delivered endpoint_returned : (status_code : ℕ) (response : Option String) → Shown
  not_reached failed : String → Shown

unfoldable pub handle_test : (string_of : Error → String) → Result Tested → Shown
handle_test string_of (err e) = failed (string_of e)
handle_test string_of (ok r) =
    if r.delivered
    then delivered r.status_code (given_secret r.response)
    else if ltb 0 r.status_code
    then endpoint_returned r.status_code (given_secret r.response)
    else not_reached
        (if truthy_text r.error_text then r.error_text else "Could not reach the endpoint")
