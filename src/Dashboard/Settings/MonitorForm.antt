-- ===== src/Dashboard/Settings/MonitorForm.antt =====
-- frontend/src/routes/app/_layout/settings/healthcheck.tsx: the form of a health monitor.
use bataudit.Prelude.{
  ℕ, ◌/◌, String, Bool, false, not, ltb, Option, none, some, if◌then◌else◌, str_eq,
}
use bataudit.Prelude.Json.{Json}
use bataudit.Web.Platform.{Platform}
use bataudit.Web.Http.{Server, Browser, Error, Result, ok, err}
use bataudit.Web.Clients.Monitors.{
  NewMonitor, MonitorChange, create_monitor, update_monitor, test_monitor,
}
use bataudit.Dashboard.Settings.{message_of}
use bataudit.Dashboard.Times.{Age, seconds_ago, minutes_ago, hours_ago}

-- What the form changes of a monitor.
pub record Form : Type 0 where
  pub name : String
  pub url : String
  pub interval_seconds : ℕ
  pub timeout_seconds : ℕ
  pub expected_status : ℕ

abbrev pub empty_form : Form
empty_form = record {
  name = "";
  url = "";
  interval_seconds = 60;
  timeout_seconds = 10;
  expected_status = 200;
}

pub record Monitor : Type 0 where
  pub id : String
  pub form : Form
  pub enabled : Bool

pub record MonitorPage : Type 0 where
  pub show_form : Bool
  pub editing : Option Monitor
  pub form : Form
  pub error_text : String
  pub browser : Browser

-- A change of a field; a number is what `Number` makes of the text.
pub data Field : Type 0 where
  name url : String → Field
  interval_seconds timeout_seconds expected_status : ℕ → Field

abbrev pub set_field : Field → Form → Form
set_field (name v) f = record f { name = v }
set_field (url v) f = record f { url = v }
set_field (interval_seconds n) f = record f { interval_seconds = n }
set_field (timeout_seconds n) f = record f { timeout_seconds = n }
set_field (expected_status n) f = record f { expected_status = n }

-- Whether the form of that monitor is shown already.
abbrev pub is_editing : String → Option Monitor → Bool
is_editing id none = false
is_editing id (some m) = str_eq m.id id

-- `handleEdit`, and the form that is shown then: a new one, with the values of the monitor, unless
-- the form of this monitor was shown before.
unfoldable pub handle_edit : Monitor → MonitorPage → MonitorPage
handle_edit m s =
    let r = record s { editing = some m; show_form = false } in
    if is_editing m.id s.editing then r else record r { form = m.form; error_text = "" }

-- The button 'Add monitor', which shows an empty form or hides it.
unfoldable pub add_monitor : MonitorPage → MonitorPage
add_monitor s =
    let r = record s { editing = none; show_form = not s.show_form } in
    if s.show_form then r else record r { form = empty_form; error_text = "" }

unfoldable pub close_form : MonitorPage → MonitorPage
close_form s = record s { show_form = false; editing = none }

abbrev pub change_of : Form → MonitorChange
change_of f = record {
  name = some f.name;
  url = some f.url;
  interval_seconds = some f.interval_seconds;
  timeout_seconds = some f.timeout_seconds;
  expected_status = some f.expected_status;
  enabled = none;
}

abbrev pub new_of : String → Form → NewMonitor
new_of project f = record {
  project_id = project;
  name = f.name;
  url = f.url;
  interval_seconds = some f.interval_seconds;
  timeout_seconds = some f.timeout_seconds;
  expected_status = some f.expected_status;
}

abbrev pub submitted : (Error → String) → Result Json × Browser → MonitorPage → MonitorPage
submitted browsers (ok _, b) s = close_form (record s { error_text = ""; browser = b })
submitted browsers (err e, b) s = record s { error_text = message_of browsers e; browser = b }

unfoldable pub submit :
    Platform → (browsers : Error → String) → (project : String) → Server → MonitorPage → MonitorPage
submit p browsers project net s = elim s.editing [
  | some m ↦ submitted browsers (update_monitor p m.id (change_of s.form) net s.browser) s
  | none ↦ submitted browsers (create_monitor p (new_of project s.form) net s.browser) s
]

-- `relativeTime`, for the milliseconds since then.
unfoldable pub relative_time : ℕ → Age
relative_time diff =
    let s = diff / 1000 in
    let m = s / 60 in
    if ltb s 60 then seconds_ago s else if ltb m 60 then minutes_ago m else hours_ago (m / 60)

-- `handleTest` of a row: the exception, which is not caught, and the result that is shown.
unfoldable pub handle_test :
    Platform → (id : String) → Server → Browser → Option Error × (Option Json × Browser)
handle_test p id net b =
    let (r, c) = test_monitor p id net b in
    elim r [ ok result ↦ (none, (some result, c)) | err e ↦ (some e, (none, c)) ]
