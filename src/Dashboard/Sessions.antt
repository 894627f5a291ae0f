-- ===== src/Dashboard/Sessions.antt =====
-- The state of frontend/src/routes/app/_layout/sessions.tsx: the filters in the address, the session
-- that is expanded, and the session that is looked up.
pub mod View
pub mod Opened
use bataudit.Prelude.{
  not, String, Bool, true, false, ◌||◌, ◌≡◌, Option, none, some, str_eq, eq_iff, arith,
  if◌then◌else◌,
}
use bataudit.Prelude.Text.{◌<>◌, truthy, truthy_text}
use bataudit.Dashboard.Overview.{or_undefined}
use bataudit.Dashboard.TimedQueries.{Session}

-- The parameters of the address that the page reads.
pub record Search : Type 0 where
  pub identifier : Option String
  pub service_name : Option String
  pub start_date : Option String
  pub end_date : Option String

-- The keys that `setFilter` is called with.
pub data Key : Type 0 where
  identifier service_name start_date end_date : Key

abbrev pub put_filter : Key → Option String → Search → Search
put_filter identifier v s = record s { identifier = v }
put_filter service_name v s = record s { service_name = v }
put_filter start_date v s = record s { start_date = v }
put_filter end_date v s = record s { end_date = v }

unfoldable pub set_filter : Key → String → Search → Search
set_filter key value prev = put_filter key (or_undefined value) prev

abbrev pub clear_filters : Search
clear_filters = record {
  identifier = none;
  service_name = none;
  start_date = none;
  end_date = none;
}

unfoldable pub has_filters : Search → Bool
has_filters s =
    truthy s.identifier || truthy s.service_name || truthy s.start_date || truthy s.end_date

abbrev pub session_key : Session → String
session_key s = s.identifier <> "|" <> s.service_name <> "|" <> s.session_start

abbrev pub is_expanded : Option String → Session → Bool
is_expanded none session = false
is_expanded (some key) session = str_eq key (session_key session)

-- `toggleSession`, on the key that is expanded.
unfoldable pub toggle_session : Session → Option String → Option String
toggle_session session prev = if is_expanded prev session then none else some (session_key session)

-- The button 'Lookup': the id whose session is asked for.
abbrev pub lookup : (trim : String → String) → String → Option String
lookup trim input = or_undefined (trim input)

-- A click opens a session that is closed, and closes one that is open.
is_expanded-toggle_session :
    (session : Session) (prev : Option String)
    → is_expanded (toggle_session session prev) session ≡ not (is_expanded prev session)
unfolding toggle_session
is_expanded-toggle_session session prev =
    ground (arith, eq_iff (session_key session) (session_key session))

-- Sessions whose texts contain a bar may share a key; one click opens both.
toggle_session_twins :
    (a b : Session) → session_key a ≡ session_key b → is_expanded (toggle_session a none) b ≡ true
unfolding toggle_session
toggle_session_twins a b same = (eq_iff (session_key a) (session_key b)).1 same

-- Clearing leaves no filter, and setting one to a text that is not empty gives one.
has_filters-set_filter :
    (key : Key) (value : String) (s : Search)
    → truthy_text value ≡ true
    → (has_filters clear_filters ≡ false) × (has_filters (set_filter key value s) ≡ true)
unfolding has_filters set_filter
has_filters-set_filter key value s h = ground arith
