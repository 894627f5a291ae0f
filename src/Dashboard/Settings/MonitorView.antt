-- ===== src/Dashboard/Settings/MonitorView.antt =====
-- What the page of the health monitors shows (frontend/src/routes/app/_layout/settings/healthcheck.tsx).
use bataudit.Prelude.{
  ℕ, String, Bool, true, false, not, ◌&&◌, Option, none, some, List, [], ◌∷◌, ◌++◌, ◌==◌, ltb, leb,
  length, keep, str_eq, if◌then◌else◌,
}
use bataudit.Prelude.Text.{◌<>◌, truthy_text}
use bataudit.Dashboard.Screen.{Screen, text, button, input, when, each}
use bataudit.Dashboard.Screen.Offers.{Offers, Allows, Allows-Offers, ◌and◌}
use bataudit.Dashboard.Settings.MonitorForm.{
  Monitor, MonitorPage, Field, name, url, interval_seconds, timeout_seconds, expected_status,
  is_editing, handle_edit, add_monitor, close_form, set_field,
}

pub record MonitorResult : Type 0 where
  pub status : String
  pub status_code : Option ℕ
  pub response_ms : Option ℕ
  pub error : String
  pub checked_at : String

-- A monitor of the list, with what its row shows: whether it is opened, with which history, whether
-- a test is under way, and the result of the last one.
pub record Row : Type 0 where
  pub monitor : Monitor
  pub last_status : String
  pub last_checked_at : Option String
  pub expanded : Bool
  pub history : List MonitorResult
  pub testing : Bool
  pub test_result : Option MonitorResult

-- The texts that the platform makes; `age` is `relativeTime`, and `number_of` is `Number`.
pub record Texts : Type 0 where
  pub number : ℕ → String
  pub age : Option String → String
  pub number_of : String → ℕ

pub data Action : Type 0 where
  add close submit : Action
  change : Field → Action
  edit : Monitor → Action
  set_enabled : (id : String) → Bool → Action
  toggle test delete : (id : String) → Action

abbrev pub status_badge : String → Screen Action
status_badge status =
    text (if str_eq status "up" then "UP" else if str_eq status "down" then "DOWN" else "Unknown")
    ∷ []

abbrev pub number_shown : Texts → (before after : String) → Option ℕ → Screen Action
number_shown t before after none = []
number_shown t before after (some n) = text (before <> t.number n <> after) ∷ []

abbrev pub error_shown : String → Screen Action
error_shown e = when (truthy_text e) (text e ∷ [])

abbrev pub history_row : Texts → MonitorResult → Screen Action
history_row t r =
    text (t.age (some r.checked_at)) ∷ number_shown t "" "" r.status_code
    ++ (number_shown t "" "ms" r.response_ms ++ error_shown r.error)

abbrev pub test_shown : Texts → Option MonitorResult → Screen Action
test_shown t none = []
test_shown t (some r) =
    text "Test result:" ∷ status_badge r.status
    ++ (number_shown t "HTTP " "" r.status_code
        ++ (number_shown t "" "ms" r.response_ms ++ error_shown r.error))

abbrev pub history_shown : Texts → List MonitorResult → Screen Action
history_shown t [] = text "No history yet" ∷ []
history_shown t (r ∷ rs) = each (history_row t) (r ∷ rs)

unfoldable pub monitor_row : Texts → Row → Screen Action
monitor_row t r =
    button true "" (toggle r.monitor.id) ∷ status_badge r.last_status
    ++ (text r.monitor.form.name
          ∷ text r.monitor.form.url
          ∷ text (
              "every "
              <> t.number r.monitor.form.interval_seconds
              <> "s · "
              <> t.age r.last_checked_at)
          ∷ button true "" (set_enabled r.monitor.id (not r.monitor.enabled))
          ∷ button true "" (edit r.monitor)
          ∷ button (not r.testing) "" (test r.monitor.id)
          ∷ button true "" (delete r.monitor.id)
          ∷ test_shown t r.test_result
        ++ when r.expanded (history_shown t r.history))

-- The form, whose numbers are typed as texts.
unfoldable pub monitor_form : Texts → (is_pending is_new : Bool) → MonitorPage → Screen Action
monitor_form t is_pending is_new s =
    text "Name"
      ∷ input s.form.name (λ v. change (name v))
      ∷ text "URL"
      ∷ input s.form.url (λ v. change (url v))
      ∷ text "Interval (seconds)"
      ∷ input (t.number s.form.interval_seconds) (λ v. change (interval_seconds (t.number_of v)))
      ∷ text "Timeout (seconds)"
      ∷ input (t.number s.form.timeout_seconds) (λ v. change (timeout_seconds (t.number_of v)))
      ∷ text "Expected status code"
      ∷ input (t.number s.form.expected_status) (λ v. change (expected_status (t.number_of v)))
      ∷ error_shown s.error_text
    ++ (button true "Cancel" close
        ∷ button (not is_pending)
            (if is_pending then "Saving…" else if is_new then "Create" else "Update") submit
        ∷ [])

abbrev pub is_down : Row → Bool
is_down r = str_eq r.last_status "down"

abbrev pub down_row : Texts → Row → Screen Action
down_row t r =
    text "DOWN"
    ∷ text r.monitor.form.name
    ∷ text r.monitor.form.url
    ∷ text (t.age r.last_checked_at)
    ∷ []

-- What is shown of the monitors of all projects.
abbrev pub down_rows : Texts → List Row → Screen Action
down_rows t [] = text "All monitors are UP across all projects." ∷ []
down_rows t (r ∷ rs) =
    text (
      t.number (length (r ∷ rs))
      <> " monitor"
      <> (if length (r ∷ rs) == 1 then "" else "s")
      <> " down")
    ∷ each (down_row t) (r ∷ rs)

unfoldable pub overview : Texts → (is_loading : Bool) → List Row → Screen Action
overview t is_loading rows =
    text "Healthcheck Monitors"
    ∷ text "All projects — select a project to manage monitors."
    ∷ (if is_loading then text "Loading…" ∷ [] else down_rows t (keep is_down rows))

abbrev pub row_with_form : Texts → (is_pending : Bool) → MonitorPage → Row → Screen Action
row_with_form t is_pending s r =
    monitor_row t r ++ when (is_editing r.monitor.id s.editing) (monitor_form t is_pending false s)

abbrev pub is_new : MonitorPage → Bool
is_new s = elim s.editing [ none ↦ s.show_form | some m ↦ false ]

abbrev pub rows_shown :
    Texts → (is_loading is_pending : Bool) → List Row → MonitorPage → Screen Action
rows_shown t is_loading is_pending rows s =
    if is_loading
    then text "Loading…" ∷ []
    else if not (ltb 0 (length rows)) && not s.show_form
    then text "No monitors yet. Add one to start tracking uptime." ∷ []
    else each (row_with_form t is_pending s) rows

unfoldable pub manager :
    Texts → (is_loading is_pending : Bool) → List Row → MonitorPage → Screen Action
manager t is_loading is_pending rows s =
    text "Healthcheck Monitors"
      ∷ text "BatAudit pings your URLs and notifies on status changes."
      ∷ button (ltb (length rows) 10) "Add monitor" add
      ∷ when (is_new s) (monitor_form t is_pending true s)
    ++ (rows_shown t is_loading is_pending rows s
        ++ when (leb 10 (length rows)) (text "Maximum of 10 monitors per project reached." ∷ []))

unfoldable pub view :
    Texts
    → (project_id : Option String) → (is_loading is_pending : Bool) → List Row
    → MonitorPage
    → Screen Action
view t none is_loading is_pending rows s = overview t is_loading rows
view t (some id) is_loading is_pending rows s =
    if truthy_text id then manager t is_loading is_pending rows s else overview t is_loading rows

-- An action on the state of the form; sending it is `submit` of Dashboard.Settings.MonitorForm, and the
-- others are calls of the server or belong to a row.
unfoldable pub act : Action → MonitorPage → MonitorPage
act add s = add_monitor s
act close s = close_form s
act (change f) s = record s { form = set_field f s.form }
act (edit m) s = handle_edit m s
act _ s = s

-- A row's action, on whether the row is opened.
abbrev pub toggled : String → Row → Row
toggled id r = if str_eq r.monitor.id id then record r { expanded = not r.expanded } else r

abbrev Nothing : Action → Type 0
Nothing a = ⊥

each-Nothing : (t : Texts) (rows : List Row) → Allows Nothing (each (down_row t) rows)
each-Nothing t [] = tt
each-Nothing t (r ∷ rs) = tt and tt and tt and tt and each-Nothing t rs

down_rows-Nothing : (t : Texts) (rows : List Row) → Allows Nothing (down_rows t rows)
down_rows-Nothing t [] = (tt, tt)
down_rows-Nothing t (r ∷ rs) = tt and each-Nothing t (r ∷ rs)

-- Where all projects are selected no action is offered, whatever was opened before.
view_all :
    (t : Texts) (is_loading is_pending : Bool) (rows : List Row) (s : MonitorPage) (a : Action)
    → ¬ Offers a (view t none is_loading is_pending rows s)
unfolding view overview
view_all t true is_pending rows s a o =
    Allows-Offers Nothing a (overview t true rows) (tt and tt and tt and tt) o
view_all t false is_pending rows s a o =
    Allows-Offers Nothing a (overview t false rows)
      (tt and tt and down_rows-Nothing t (keep is_down rows)) o
