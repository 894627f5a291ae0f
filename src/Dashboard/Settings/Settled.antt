-- ===== src/Dashboard/Settings/Settled.antt =====
-- What the handlers of the settings leave.
use bataudit.Prelude.{ℕ, String, Bool, true, false, ◌≡◌, ◌⊎◌, ◌↔◌, refl, Option, none, some, arith}
use bataudit.Web.Platform.{Platform}
use bataudit.Web.Http.{Server, Error}
use bataudit.Dashboard.Times.{Age, just_now, minutes_ago}
use bataudit.Dashboard.Mutations.{Mutation}
use bataudit.Dashboard.Settings.Profiles.{active, get_status, time_ago, ProfilesPage, load}
use bataudit.Dashboard.Settings.MonitorForm.{MonitorPage, submit, close_form}
use bataudit.Dashboard.Settings.Webhooks.{WebhookForm, handle_create}
use bataudit.Dashboard.Settings.Confirm.{handle_remove, settled}

-- The age in minutes, or less.
abbrev is_recent : Age → Bool
is_recent just_now = true
is_recent (minutes_ago m) = true
is_recent _ = false

-- A profile that is shown as active is one that was last seen some minutes ago, and the other way
-- round.
get_status-time_ago :
    (diff : ℕ) → (get_status (some diff) ≡ active) ↔ (is_recent (time_ago diff) ≡ true)
unfolding get_status time_ago
get_status-time_ago diff = ground arith

-- No removal is called by one click on a button that has not been clicked since the last removal.
handle_remove_twice :
    (m : Mutation) (before : Bool)
    → let (asked, nothing) = handle_remove m (settled before) in
      let (_, called) = handle_remove m asked in (nothing ≡ none) × (called ≡ some m)
unfolding handle_remove
handle_remove_twice m before = (refl, refl)

-- A list of profiles that was asked for is not left loading.
load_settles :
    (p : Platform) (trim : String → String) (project : Option String) (net : Server)
    (s : ProfilesPage)
    → (load p trim project net s).loading ≡ false
unfolding load
load_settles p trim project net s = ground arith

-- A webhook that is not taken leaves what was filled in, and the form open.
handle_create_kept :
    (p : Platform) (string_of : Error → String) (project : String) (net : Server) (s : WebhookForm)
    → let after = handle_create p string_of project net s in
      ((after.url ≡ "") × (after.secret ≡ "") × (after.show_form ≡ false))
      ⊎ ((after.url ≡ s.url) × (after.secret ≡ s.secret) × (after.show_form ≡ s.show_form))
unfolding handle_create
handle_create_kept p string_of project net s = ground arith

-- A monitor that is not taken leaves the form as it is; one that is taken closes it.
submit_kept :
    (p : Platform) (browsers : Error → String) (project : String) (net : Server) (s : MonitorPage)
    → let after = submit p browsers project net s in
      ((after.editing ≡ none) × (after.show_form ≡ false))
      ⊎ ((after.form ≡ s.form) × (after.editing ≡ s.editing) × (after.show_form ≡ s.show_form))
unfolding submit close_form
submit_kept p browsers project net s = ground arith
