-- ===== src/Dashboard/StateExamples.antt =====
-- The theorems of the pages that keep a state and call the server at concrete inputs.
use bataudit.Prelude.{
  String, ◌≡◌, refl, true, false, none, some, Option, [], ◌∷◌, map, str_eq, ◌==◌, if◌then◌else◌,
}
use bataudit.Prelude.Json.{Json, null, str, num, obj, Fields, end, field}
use bataudit.Web.Fixtures.{platform, browser, answering, strokes}
use bataudit.Web.Storage.{get_item}
use bataudit.Web.Http.{Browser, Error, ok}
use bataudit.Web.Clients.Notifications.{unsubscribe_push}
use bataudit.Web.Clients.Studio.{update_report, create_report}
use bataudit.Web.Api.{fetch_with_auth}
use bataudit.Dashboard.Csv.{QueryResult, Codes, to_csv, cell_text}
use bataudit.Dashboard.Csv.Reader.{read, start}
use bataudit.Dashboard.Csv.Laws.{read-to_csv}
use bataudit.Dashboard.Filters.{empty_search, Search, on_absolute}
use bataudit.Dashboard.Picker.{Dates, initial, open_panel, handle_apply}
use bataudit.Dashboard.Picker.Applied.{to_minute, handle_apply-open_panel}
use bataudit.Dashboard.Push.{
  Worker, Answers, Section, channel_key, detect, unsubscribed, click, initial as shown_section,
}
use bataudit.Dashboard.Push.Synced.{IsSynced, here, next, clicks, push-IsSynced}
use bataudit.Dashboard.Push.Switch.{switch_stale}
use bataudit.Dashboard.Reports.{Page, create, save, updated}
use bataudit.Dashboard.Reports.Saving.{save-save}

-- Two columns, and a cell with a quote and a comma.
abbrev table : QueryResult
table = record { columns = (b'a' ∷ []) ∷ (b'b' ∷ []) ∷ []; rows = (null ∷ num 1 ∷ []) ∷ [] }

abbrev quoted_text : Json → Codes
quoted_text v = b'"' ∷ b',' ∷ []

read-to_csv_example :
    read start (to_csv quoted_text table)
    ≡ table.columns ∷ map (map (cell_text quoted_text)) table.rows
read-to_csv_example = read-to_csv quoted_text table tt (tt, tt)

-- 00:02:00.5 and 00:03:00.999 of one day.
abbrev dates : Dates
dates = record {
  new_date = λ iso. if str_eq iso "start" then some 120500 else some 180999;
  format_date = λ t. "1970-01-01";
  format_time = λ t. if t == 120500 then "00:02" else "00:03";
  parse = λ day. if str_eq day "1970-01-01 00:02" then some 120000 else some 180000;
  to_iso_string = strokes;
}

abbrev three_minutes : Search
three_minutes = record empty_search { start_date = some "start"; end_date = some "end" }

handle_apply-open_panel_example :
    let (closed, applied) =
      handle_apply dates (open_panel dates three_minutes initial) three_minutes in
    (applied ≡ on_absolute (strokes (to_minute 120500)) (strokes (to_minute 180999)) three_minutes)
    × (closed.is_open ≡ false)
handle_apply-open_panel_example =
    handle_apply-open_panel dates three_minutes initial "start" "end" 120500 180999 refl refl refl
      refl refl refl (refl, refl, refl) (refl, refl, refl)

abbrev worker : Worker
worker = record {
  has_service_worker = true;
  has_push_manager = true;
  registered = true;
  subscribed = true;
}

abbrev willing : Answers
willing = record {
  register = ok tt;
  request_permission = ok "granted";
  subscribe = λ key. ok (str key);
  look_up = ok tt;
  unsubscribe = ok tt;
}

abbrev message : Error → String
message e = "failed"

abbrev channel_text : Option Json → String
channel_text id = "c1"

-- A subscription is found, removed, and made again.
abbrev found : Section
found = detect willing "p1" (
    shown_section worker
      (record browser { storage = ("bat_push_channel_id:p1", "c1") ∷ browser.storage }))

abbrev removed : Section
removed = click platform message channel_text willing "p1" (some "key") (answering 204 none) found

abbrev renewed : Section
renewed =
    click platform message channel_text willing "p1" (some "key")
      (answering 201 (some (obj (field "id" (str "c1") end)))) removed

push-IsSynced_example : IsSynced "p1" renewed
push-IsSynced_example =
    push-IsSynced platform message channel_text "p1" willing worker
      (record browser { storage = ("bat_push_channel_id:p1", "c1") ∷ browser.storage }) renewed
      (next (next here (clicks willing (some "key") (answering 204 none) found)) (
        clicks willing (some "key") (answering 201 (some (obj (field "id" (str "c1") end))))
          removed))

switch_stale_example :
    let after =
      click platform message channel_text willing "p2" none
        (answering 403 none)
        (detect willing "p2" found) in
    (detect willing "p2" found ≡ found)
    × (after
        ≡ unsubscribed platform message channel_text willing "p2"
            (unsubscribe_push platform "p2" "c1" (answering 403 none) found.browser)
            found)
    × (get_item (channel_key "p1") after.browser.storage
        ≡ get_item (channel_key "p1") found.browser.storage)
unfolding detect get_item
switch_stale_example =
    switch_stale platform message channel_text willing "p1" "p2" "c1" none (answering 403 none)
      found refl refl refl refl refl

abbrev page : Page
page = record {
  studio = record { report_id = none; name = "Errors"; widgets = []; layout = []; editing = none };
  reports = null;
  saving = false;
  browser = browser;
}

abbrev new_id : Fields
new_id = field "id" (str "r1") end

abbrev after_creation : Browser
after_creation =
    (create platform (some "p1") page.studio (answering 201 (some (obj new_id))) browser).1

abbrev saved : Page
saved = (save platform (λ j. "?") (some "p1") (answering 201 (some (obj new_id))) page).1

save-save_example :
    ((save platform (λ j. "?") (some "p1") (answering 201 (some (obj new_id))) page).0 ≡ none)
    × (saved.studio ≡ record page.studio { report_id = some "r1" })
    × (save platform (λ j. "?") (some "p1") (answering 500 none) saved
        ≡ updated platform
            (λ j. "?")
            (some "p1")
            (answering 500 none)
            (update_report platform "r1" saved.studio.name saved.studio.widgets saved.studio.layout
              (answering 500 none)
              saved.browser)
            (record saved { saving = true }))
unfolding create_report fetch_with_auth
save-save_example =
    save-save platform (λ j. "?") (some "p1") (answering 201 (some (obj new_id)))
      (answering 500 none) page saved "r1" after_creation refl refl refl refl
