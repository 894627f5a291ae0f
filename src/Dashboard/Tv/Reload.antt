-- ===== src/Dashboard/Tv/Reload.antt =====
-- The wallboard's page when it is loaded again.
use bataudit.Prelude.{
  ℕ, ◌+◌, ◌*◌, ◌<◌, String, true, false, ◌≡◌, refl, ap, sym, ◌∙◌, Option, none, some, [], ◌∷◌, ◌++◌,
  arith, eq_iff,
}
use bataudit.Prelude.Text.{◌<>◌, truthy_text}
use bataudit.Prelude.Json.{str, obj, Fields, get_field}
use bataudit.Web.Platform.{Platform}
use bataudit.Web.Http.{post, Request, Server, Browser, ok, is_ok, fetch}
use bataudit.Web.Clients.Requests.{with_body}
use bataudit.Web.Wallboard.{
  WbTokens, Grant, get_wb_tokens, refresh_access_token, activate, save_tokens, or_no_text,
  stored_text, number_of,
}
use bataudit.Web.Wallboard.Tokens.{get_wb_tokens-save_tokens, get_wb_tokens-clear_wb_tokens}
use bataudit.Dashboard.Tv.{
  Tv, Activation, loaded, check_tokens, load, disconnect, handle_submit, activated,
  override_project,
}

abbrev pub activation_request : Platform → String → Request
activation_request p code =
    with_body post (p.base <> "/v1/wallboard/activate") (("code", some (str code)) ∷ [])

-- What the reply of a successful activation grants.
abbrev pub granted : Fields → Grant
granted fs = record {
  access = get_field "access_token" fs;
  refresh = get_field "refresh_token" fs;
  project_id = or_no_text (get_field "project_id" fs);
  expires_in = get_field "expires_in" fs;
  profile_name = some (or_no_text (get_field "profile_name" fs));
}

check_none :
    (p : Platform) (net : Server) (s : Tv)
    → (get_wb_tokens p s.browser.storage).access ≡ none
    → (get_wb_tokens p s.browser.storage).refresh ≡ none
    → ((check_tokens p net s).authenticated ≡ s.authenticated)
      × ((check_tokens p net s).browser ≡ s.browser)
unfolding check_tokens refresh_access_token
check_none p net s a r = ground arith

-- The tokens make the page show the dashboard.
check_valid :
    (p : Platform) (net : Server) (s : Tv) (access : String) (expires_at : ℕ)
    → (get_wb_tokens p s.browser.storage).access ≡ some access
    → truthy_text access ≡ true
    → (get_wb_tokens p s.browser.storage).expires_at ≡ some expires_at
    → s.browser.now < expires_at
    → s.profile_name ≡ ""
    → ((check_tokens p net s).authenticated ≡ true)
      × ((check_tokens p net s).profile_name ≡ (get_wb_tokens p s.browser.storage).profile_name)
      × ((check_tokens p net s).browser ≡ s.browser)
unfolding check_tokens
check_valid p net s access expires_at a t e early none_yet =
    grind (arith, eq_iff (get_wb_tokens p s.browser.storage).profile_name "")

override-same :
    (project : Option String) (s : Tv)
    → ((override_project project s).authenticated ≡ s.authenticated)
      × ((override_project project s).profile_name ≡ s.profile_name)
      × ((override_project project s).browser ≡ s.browser)
override-same project s = ground arith

-- After 'Disconnect', loading the page again in a browser with the storage that is left, with
-- whatever project in the URL, shows the activation screen, makes no request and changes nothing.
load-disconnect :
    (p : Platform) (net : Server) (project : Option String) (s : Tv) (b : Browser)
    → b.storage ≡ (disconnect s).browser.storage
    → ((load p net project b).authenticated ≡ false) × ((load p net project b).browser ≡ b)
unfolding disconnect
load-disconnect p net project s b kept =
    let tokens = ap (get_wb_tokens p) kept ∙ get_wb_tokens-clear_wb_tokens p s.browser.storage in
    let (shown, same) =
      check_none p net (loaded project b) (ap (λ (t : WbTokens). t.access) tokens)
        (ap (λ (t : WbTokens). t.refresh) tokens) in
    let (a, n, b') = override-same project (check_tokens p net (loaded project b)) in
    (a ∙ shown, b' ∙ same)

activate_reply :
    (p : Platform) (net : Server) (code : String) (b : Browser) (fs : Fields) (status : ℕ)
    → net b.sent (activation_request p code)
      ≡ some (record { status = status; json = some (obj fs) })
    → is_ok (record { status = status; json = some (obj fs) }) ≡ true
    → activate p code net b ≡ (
      ok (obj fs),
      record b {
        sent = b.sent ++ activation_request p code ∷ [];
        storage = save_tokens p b.now (granted fs) b.storage;
      },
    )
unfolding activate fetch
activate_reply p net code b fs status answer good = ground arith

-- After an activation that the server accepts with a token and a lifetime, loading the page again
-- before the token expires shows the dashboard with the profile's name, without a request; numbers
-- are read back as they were written.
pub load-handle_submit :
    (p : Platform) (trim : String → String) (net later : Server) (project : Option String)
    (form : Activation) (s : Tv) (b : Browser) (fs : Fields) (status seconds : ℕ) (access : String)
    → ((n : ℕ) → p.number_of_text (p.text_of_number n) ≡ some n)
    → net s.browser.sent (activation_request p (trim form.code))
      ≡ some (record { status = status; json = some (obj fs) })
    → is_ok (record { status = status; json = some (obj fs) }) ≡ true
    → get_field "access_token" fs ≡ some (str access)
    → truthy_text access ≡ true
    → number_of p (get_field "expires_in" fs) ≡ some seconds
    → b.storage ≡ (handle_submit p trim net (form, s)).1.browser.storage
    → b.now < s.browser.now + seconds * 1000
    → let page = (handle_submit p trim net (form, s)).1 in
      (page.authenticated ≡ true)
      × ((load p later project b).authenticated ≡ true)
      × ((load p later project b).profile_name ≡ page.profile_name)
      × ((load p later project b).browser ≡ b)
unfolding handle_submit stored_text
load-handle_submit p trim net later project form s b fs status seconds access numbers answer good
      token filled lifetime kept early =
    let reply = activate_reply p net (trim form.code) s.browser fs status answer good in
    let done = ap (λ r. activated p r (record form { error = ""; loading = true }, s)) reply in
    let tokens =
      ap (get_wb_tokens p) (kept ∙ ap (λ (r : Activation × Tv). r.1.browser.storage) done)
      ∙ get_wb_tokens-save_tokens p s.browser.now seconds (granted fs) s.browser.storage numbers
          lifetime in
    let (shown, name, same) =
      check_valid p later (loaded project b) access (s.browser.now + seconds * 1000)
        (ap (λ (t : WbTokens). t.access) tokens ∙ ap (λ u. some (stored_text p u)) token) filled
        (ap (λ (t : WbTokens). t.expires_at) tokens) early refl in
    let (a, n, b') = override-same project (check_tokens p later (loaded project b)) in
    (
      ap (λ (r : Activation × Tv). r.1.authenticated) done,
      a ∙ shown,
      n
          ∙ name
          ∙ ap (λ (t : WbTokens). t.profile_name) tokens
          ∙ sym (ap (λ (r : Activation × Tv). r.1.profile_name) done),
      b' ∙ same,
    )
