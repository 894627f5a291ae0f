-- ===== src/Dashboard/Sql.antt =====
-- Running a query: `run` of frontend/src/routes/app/_layout/query.tsx, and `run` of WidgetEditor in
-- studio.tsx, which does not replace variables. A handler is run to its end.
pub mod View
use mathlib.Core.Option
use bataudit.Prelude.{
  ℕ, ◌-◌, ◌*◌, String, Bool, false, ◌≡◌, refl, Option, none, some, ◌⊎◌, inl, inr,
}
use bataudit.Prelude.Json.{Json}
use bataudit.Web.Platform.{Platform}
use bataudit.Web.Http.{Server, Browser, Error, Result, ok, err}
use bataudit.Web.Clients.Template.{Codes, QueryVars, apply_vars}
use bataudit.Web.Clients.Studio.{run_query}
use bataudit.Dashboard.Settings.{message_of}

pub record SqlPage : Type 0 where
  pub sql : String
  pub result : Option Json
  pub error_text : Option String
  pub loading : Bool
  pub browser : Browser

-- `toISOString().slice(0, 10)` of a time, the code units of a text and the text of code units, and
-- the messages of the browser's own exceptions.
pub record Texts : Type 0 where
  pub date_of : ℕ → Codes
  pub codes : String → Codes
  pub text : Codes → String
  pub browsers : Error → String

abbrev pub shown : Texts → Result Json × Browser → SqlPage → SqlPage
shown t (ok r, b) s = record s { result = some r; error_text = none; loading = false; browser = b }
shown t (err e, b) s = record s {
  result = none;
  error_text = some (message_of t.browsers e);
  loading = false;
  browser = b;
}

-- From thirty days ago to today.
abbrev pub vars_of : Texts → Option String → ℕ → QueryVars
vars_of t project now = record {
  project_id = Option.map t.codes project;
  from = some (t.date_of (now - 30 * 86400000));
  to = some (t.date_of now);
}

unfoldable pub run : Platform → Texts → Option String → Server → SqlPage → SqlPage
run p t project net s =
    let sql = t.text (apply_vars (t.codes s.sql) (vars_of t project s.browser.now)) in
    shown t (run_query p sql net s.browser) s

-- `run` of WidgetEditor
unfoldable pub preview : Platform → Texts → Server → SqlPage → SqlPage
preview p t net s = shown t (run_query p s.sql net s.browser) s

-- When a run ends the page is not loading, and shows either a result or an error; the text of the
-- query stays.
shown_settles :
    (t : Texts) (r : Result Json × Browser) (s : SqlPage)
    → ((shown t r s).loading ≡ false)
      × ((shown t r s).sql ≡ s.sql)
      × (((shown t r s).result ≡ none) ⊎ ((shown t r s).error_text ≡ none))
shown_settles t (ok r, b) s = (refl, refl, inr refl)
shown_settles t (err e, b) s = (refl, refl, inl refl)
