-- ===== src/Dashboard/PageExamples.antt =====
-- The theorems of the event list and of the page of a wallboard at concrete inputs.
use bataudit.Prelude.{String, false, ◌≡◌, refl, ◌⊎◌, none, some, [], ◌∷◌}
use bataudit.Web.Fixtures.{browser, strokes}
use bataudit.Dashboard.Filters.{empty_search}
use bataudit.Dashboard.Overview.Page.{Page, start, click_method, set_environment, act}
use bataudit.Dashboard.Overview.Page as Page
use bataudit.Dashboard.Overview.Clicked.{asked, act-asked}
use bataudit.Dashboard.Screen.Offers.{Offers}
use bataudit.Dashboard.Tv.{Tv, loaded, Activation}
use bataudit.Dashboard.Tv.Panels as Panels
use bataudit.Dashboard.Tv.Panels.{WbProject}
use bataudit.Dashboard.Tv.Screens.{Loaded, Codes}

abbrev same_text : String → String
same_text s = s

abbrev page_texts : Page.Texts
page_texts = record {
  number = strokes;
  grouped = strokes;
  age = same_text;
  clock = same_text;
  percent = λ part whole. strokes part;
  hours = same_text;
  time = λ s. 0;
  day = same_text;
  day_and_hour = same_text;
  iso = strokes;
}

-- The third page of the list, in production.
abbrev third_page : Page
third_page = start (record empty_search { page = some 3 }) (some "production")

act-asked_example :
    ((asked page_texts 0 none (act page_texts (click_method "GET") third_page)
        ≡ asked page_texts 0 none third_page)
      ⊎ ((asked page_texts 0 none (act page_texts (click_method "GET") third_page)).page ≡ some 1))
    × ((asked page_texts 0 none (act page_texts (set_environment none) third_page)).page
        ≡ (asked page_texts 0 none third_page).page)
act-asked_example = act-asked page_texts 0 none (click_method "GET") none third_page refl

abbrev tv_texts : Panels.Texts
tv_texts = record { number = strokes; grouped = strokes; age = same_text; spaced = same_text }

abbrev codes : Codes
codes = record { size = λ s. 10; upper = same_text; trim = same_text }

abbrev typed : Activation
typed = record { code = "BAT-AB12CD"; error = ""; loading = false }

abbrev no_data : Loaded
no_data = record {
  summary = none;
  events = [];
  volume = [];
  health = [];
  alerts = [];
  error_routes = [];
  projects = [];
  stats = [];
}

abbrev one_project : Loaded
one_project = record no_data { projects = record { id = "p1"; name = "Shop" } ∷ [] }

abbrev locked_tv : Tv
locked_tv = loaded (some "p1") browser
