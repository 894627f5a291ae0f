-- ===== src/Dashboard/SessionExamples.antt =====
-- The theorems of signing in, of the wallboard's page and of slugs at concrete inputs.
use bataudit.Prelude.{
  ℕ, ◌≡◌, refl, ap, true, false, none, some, map, ◌==◌, [], ◌∷◌, arith, if◌then◌else◌,
}
use bataudit.Prelude.Json.{str, num, obj, Fields, end, field}
use bataudit.Prelude.{String, Bool, ltb, List, length, keep}
use bataudit.Web.Fixtures.{count, platform, browser, answering, count-strokes}
use bataudit.Web.Http.{Browser}
use bataudit.Dashboard.SignIn.{LoginForm, handle_submit}
use bataudit.Dashboard.Slug.{Codes, slug_from_name}
use bataudit.Dashboard.Slug.Shape.{is_slug, slug_from_name-is_slug}
use bataudit.Dashboard.Services.{
  ServiceBreakdown, requests, errors, asc, desc, sorted_services, toggle_sort,
}
use bataudit.Dashboard.Services.Order.{IsOrder, IsSorted, sorted_services-IsSorted}
use bataudit.Dashboard.Tv.{Tv, Activation, loaded, load, disconnect, handle_submit as submit_code}
use bataudit.Dashboard.Tv.Reload.{load-handle_submit}

abbrev form : LoginForm
form = record { email = "ada@example.org"; password = "secret"; error_text = ""; loading = false }

abbrev accepted : Fields
accepted = field "token" (str "h.cGF5.s") (field "user" (str "ada") end)

abbrev grant : Fields
grant =
    field "access_token" (str "a1")
      (field "refresh_token" (str "r1") (field "expires_in" (num 900) end))

abbrev code_form : Activation
code_form = record { code = "BAT-123456"; error = ""; loading = false }

abbrev activated : Tv
activated =
    (submit_code platform (λ t. t) (answering 200 (some (obj grant)))
      (code_form, loaded none browser)).1

abbrev later : Browser
later = record activated.browser { now = 800000; location = "/tv"; sent = [] }

load-handle_submit_example :
    (activated.authenticated ≡ true)
    × ((load platform (answering 500 none) (some "p1") later).authenticated ≡ true)
    × ((load platform (answering 500 none) (some "p1") later).profile_name ≡ activated.profile_name)
    × ((load platform (answering 500 none) (some "p1") later).browser ≡ later)
load-handle_submit_example =
    load-handle_submit platform (λ t. t) (answering 200 (some (obj grant))) (answering 500 none)
      (some "p1") code_form (loaded none browser) later grant 200 900 "a1"
      (λ n. ap some (count-strokes n)) refl refl refl refl refl refl (omega arith)

abbrev disconnected : Tv
disconnected = disconnect activated

abbrev lower_ascii : ℕ → ℕ
lower_ascii c = if c == b'A' then b'a' else c

abbrev name : Codes
name = 32 ∷ b'A' ∷ 32 ∷ b'&' ∷ b'b' ∷ b'!' ∷ []

slug_from_name-is_slug_example :
    (is_slug (slug_from_name (map lower_ascii) name) ≡ true)
    × (slug_from_name (map lower_ascii) (b'a' ∷ b'-' ∷ b'b' ∷ []) ≡ b'a' ∷ b'-' ∷ b'b' ∷ [])
slug_from_name-is_slug_example =
    slug_from_name-is_slug (map lower_ascii) name (b'a' ∷ b'-' ∷ b'b' ∷ []) refl refl

-- Texts by their lengths.
abbrev text_less : String → String → Bool
text_less s t = ltb (count s) (count t)

ltb_asym : (m n : ℕ) → ltb m n ≡ true → ltb n m ≡ false
ltb_asym m n h = ground arith

ltb_trans : (k m n : ℕ) → ltb k m ≡ false → ltb m n ≡ false → ltb k n ≡ false
ltb_trans k m n h l = ground arith

text_less-IsOrder : IsOrder text_less
text_less-IsOrder =
    (λ s t. ltb_asym (count s) (count t), λ s t u. ltb_trans (count s) (count t) (count u))

abbrev service : String → ℕ → ServiceBreakdown
service name n = record {
  service_name = name;
  requests = n;
  errors = 0;
  avg_response_time = 12;
  last_event = "2024-01-01T00:00:00Z";
}

abbrev services : List ServiceBreakdown
services = service "billing" 3 ∷ service "auth" 9 ∷ service "mail" 5 ∷ []

abbrev is_busy : ServiceBreakdown → Bool
is_busy s = ltb 4 s.requests

sorted_services-IsSorted_example :
    IsSorted text_less requests desc (sorted_services text_less (requests, desc) services)
    × (length (keep is_busy (sorted_services text_less (requests, desc) services))
        ≡ length (keep is_busy services))
    × (toggle_sort errors (requests, desc) ≡ (errors, desc))
    × (toggle_sort requests (requests, asc) ≡ (requests, desc))
    × (toggle_sort requests (requests, desc) ≡ (requests, asc))
sorted_services-IsSorted_example =
    sorted_services-IsSorted text_less text_less-IsOrder requests errors desc is_busy services
      (λ e. cc)
