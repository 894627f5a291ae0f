-- ===== src/Web/Examples.antt =====
-- The theorems of the browser's state and of the server's operations at concrete inputs.
use bataudit.Prelude.{◌≡◌, refl, none, some, List, [], ◌∷◌, str_eq, if◌then◌else◌}
use bataudit.Prelude.Json.{str, num, obj, Fields, end, field}
use bataudit.Web.Platform.{Platform}
use bataudit.Web.Fixtures.{ada, count, platform, browser, answering}
use bataudit.Web.Storage.{Storage, get_item}
use bataudit.Web.Http.{Request, Browser, delete, err, error, received}
use bataudit.Web.Auth.{get_token, get_user}
use bataudit.Web.Auth.Refinement.{
  Operation, sign_in, sign_out, check, ask_user, ask_header, Refines, spec_all, code_all,
  code-Refines,
}
use bataudit.Web.Clients.Template.{QueryVars, apply_vars, from, project_id}
use bataudit.Web.Clients.Template.Matches.{Piece, text, var, print}
use bataudit.Web.Clients.Template.Render.{render, apply_vars-print}
use bataudit.Web.Api.{authorised}
use bataudit.Web.Clients.Requests.{plain}
use bataudit.Web.Wallboard.{Grant, get_wb_tokens, refresh_request, wb_request, wb_fetch}
use bataudit.Web.Wallboard.Renewal.{IsStale, wb_fetch_renewed, wb_fetch_refused}
use bataudit.Web.Fixtures.{count-strokes}
use bataudit.Web.Http.{Server, Request}
use bataudit.Prelude.{String, ap, inr, ◌++◌, ◌*◌, ◌+◌, arith, Option}

abbrev deletion : Request
deletion = authorised browser.storage (plain delete "https://api.example/v1/auth/users/7")

abbrev failure : Fields
failure = field "error" (str "database is locked") end

abbrev grant : Grant
grant = record {
  access = some (str "a2");
  refresh = none;
  project_id = some (str "p1");
  expires_in = some (num 2);
  profile_name = none;
}

-- A wallboard whose token expires in a moment.
abbrev tokens : Storage
tokens =
    ("wb_access_token", "a1")
    ∷ ("wb_refresh_token", "r1")
    ∷ ("wb_project_id", "p1")
    ∷ ("wb_expires_at", "||")
    ∷ ("wb_profile_name", "Lobby")
    ∷ []

abbrev wallboard : Browser
wallboard = record { storage = tokens; location = "/tv"; now = 1000; sent = [] }

-- The same browser before 1970 had lasted for five minutes, with a token that is good for longer.
abbrev early : Browser
early = record wallboard {
  now = 0;
  storage = ("wb_access_token", "a1") ∷ ("wb_expires_at", "long") ∷ [];
}

abbrev patient : Platform
patient = record platform {
  number_of_text = λ text. if str_eq text "long" then some 400000 else none;
}

abbrev granted : Fields
granted =
    field "access_token" (str "a2")
      (field "project_id" (str "p1") (field "expires_in" (num 600) end))

abbrev granting : Server
granting = answering 200 (some (obj granted))

stale : IsStale (get_wb_tokens platform tokens) 1000
unfolding get_wb_tokens count get_item
stale = inr (inr (2, refl, omega arith))

wb_fetch_refused_example :
    (after : Browser) × (wb_fetch platform "/v1/wallboard/feed"
        (some "p1")
        none
        (answering 403 none)
        wallboard
      ≡ (err (error "unauthenticated"), after))
    × (after.sent ≡ refresh_request platform "r1" ∷ [])
    × (get_wb_tokens platform after.storage ≡ record {
      access = none;
      refresh = none;
      project_id = none;
      expires_at = some 0;
      profile_name = "";
    })
    × (get_item "bataudit-theme" after.storage ≡ get_item "bataudit-theme" tokens)
    × (wb_fetch platform "/v1/wallboard/alerts" none none granting after
        ≡ (err (error "unauthenticated"), after))
unfolding get_wb_tokens get_item
wb_fetch_refused_example =
    wb_fetch_refused platform (answering 403 none) wallboard "/v1/wallboard/feed" (some "p1") none
      "r1" (record { status = 403; json = none }) "bataudit-theme" granting "/v1/wallboard/alerts"
      none none stale refl refl refl refl refl

abbrev feed_request : String → Option String → Option String → Request
feed_request path project e = wb_request platform path project e "a2"

wb_fetch_renewed_example :
    let sent = refresh_request platform "r1" ∷ [] in
    let q = feed_request "/v1/wallboard/feed" (some "p1") none in
    (after : Browser) × (wb_fetch platform "/v1/wallboard/feed" (some "p1") none granting wallboard
      ≡ received (granting sent q) after)
    × (after.sent ≡ sent ++ q ∷ [])
    × (get_wb_tokens platform after.storage ≡ record {
      access = some "a2";
      refresh = some "r1";
      project_id = some "p1";
      expires_at = some (1000 + 600 * 1000);
      profile_name = (get_wb_tokens platform tokens).profile_name;
    })
    × (let next = feed_request "/v1/wallboard/alerts" none none in
        wb_fetch platform "/v1/wallboard/alerts" none none granting after
        ≡ received (granting after.sent next) (record after { sent = after.sent ++ next ∷ [] }))
unfolding get_wb_tokens get_item
wb_fetch_renewed_example =
    wb_fetch_renewed platform granting wallboard "/v1/wallboard/feed" (some "p1") none "r1" "a2"
      "p1" 600 200 granted granting "/v1/wallboard/alerts" none none stale refl refl refl refl refl
      refl refl refl (λ n. ap some (count-strokes n)) (omega arith)

-- Ada signs in, asks for a page before and after her token has expired, and signs out.
abbrev visit : List Operation
visit =
    check 1000
    ∷ sign_in "h.cGF5.s" ada
    ∷ check 1000
    ∷ ask_user
    ∷ ask_header
    ∷ check 950000
    ∷ ask_user
    ∷ sign_out
    ∷ ask_header
    ∷ []

code-Refines_example :
    ((code_all platform visit []).0 ≡ (spec_all platform visit none).0)
    × Refines platform (spec_all platform visit none).1 (code_all platform visit []).1
unfolding get_token get_user get_item
code-Refines_example =
    code-Refines platform visit none [] (refl, refl)
      (tt, ((refl, λ e. cc), (tt, (tt, (tt, (tt, (tt, (tt, (tt, tt)))))))))

-- `p='{{ project_id }}' t>{{from}}`
abbrev query : List Piece
query =
    text (b'p' ∷ b'=' ∷ [])
    ∷ var (32 ∷ []) project_id (32 ∷ [])
    ∷ text (b't' ∷ b'>' ∷ [])
    ∷ var [] from []
    ∷ []

abbrev vars : QueryVars
vars = record { project_id = some (b'p' ∷ b'1' ∷ []); from = some (b'9' ∷ []); to = none }

apply_vars-print_example : apply_vars (print query) vars ≡ render vars query
apply_vars-print_example =
    apply_vars-print vars query (refl, refl) (refl, refl) (refl, refl)
      (refl, ((refl, refl), (refl, ((refl, refl), tt))))
