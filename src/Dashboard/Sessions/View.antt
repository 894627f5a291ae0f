-- ===== src/Dashboard/Sessions/View.antt =====
-- What the page of the sessions shows, and what its controls do.
use bataudit.Prelude.{
  ℕ, String, Bool, true, not, Option, none, some, List, [], ◌∷◌, ◌++◌, length, if◌then◌else◌,
  ◌or_else◌,
}
use bataudit.Prelude.Text.{◌<>◌, truthy, truthy_text}
use bataudit.Dashboard.Screen.{Screen, text, button, input, when, each}
use bataudit.Dashboard.Times.{Duration, format_duration}
use bataudit.Dashboard.TimedQueries.{Session}
use bataudit.Dashboard.Sessions.{
  Search, Key, identifier, service_name, start_date, end_date, set_filter, clear_filters,
  has_filters, is_expanded, toggle_session, lookup,
}

pub record SessionEvent : Type 0 where
  pub id : String
  pub timestamp : String
  pub method : String
  pub path : String
  pub status_code : ℕ
  pub response_time : Option ℕ

-- A row of the list; its length is in thousandths of a second.
pub record SessionRow : Type 0 where
  pub session : Session
  pub duration : ℕ
  pub event_count : ℕ

pub record SessionDetail : Type 0 where
  pub row : SessionRow
  pub events : List SessionEvent

-- How a query stands: without a reply yet, failed, or with its result.
pub data Query (A : Type 0) : Type 0 where
  loading failed : Query A
  found : A → Query A

-- The texts that the platform makes.
pub record Texts : Type 0 where
  pub number : ℕ → String
  -- `toLocaleString` of a number
  pub grouped : ℕ → String
  -- `toLocaleTimeString`, and `formatTime` for a text that is not empty.
  pub time : String → String
  pub day_and_time : String → String
  pub duration : Duration → String
  -- `new Date(value).toISOString()`
  pub iso : String → String
  pub trim : String → String

pub data Action : Type 0 where
  clear toggle_filter look_up end_look_up : Action
  set : Key → String → Action
  type_id : String → Action
  select_event : (id : String) → Action
  toggle : Session → Action

pub record SessionsPage : Type 0 where
  pub search : Search
  pub filter_open : Bool
  pub expanded_key : Option String
  pub selected_event_id : Option String
  pub session_id_input : String
  pub lookup_session_id : Option String

abbrev pub format_time : Texts → String → String
format_time t ts = if truthy_text ts then t.day_and_time ts else "—"

-- The line of an event, a button.
abbrev pub event_line : Texts → SessionEvent → Screen Action
event_line t e =
    button true "" (select_event e.id)
    ∷ text (t.time e.timestamp)
    ∷ text e.method
    ∷ text e.path
    ∷ text (t.number e.status_code)
    ∷ elim e.response_time [ none ↦ [] | some ms ↦ text (t.number ms <> "ms") ∷ [] ]

-- `SessionTimeline`
unfoldable pub session_timeline : Texts → Query (List SessionEvent) → Screen Action
session_timeline t loading = text "Loading events..." ∷ []
session_timeline t failed = text "Failed to load events." ∷ []
session_timeline t (found []) = text "No events found." ∷ []
session_timeline t (found (e ∷ es)) =
    text (t.number (length (e ∷ es)) <> " events") ∷ each (event_line t) (e ∷ es)

-- The value of a date's field: the time as a text, or nothing.
abbrev pub set_date : Texts → Key → String → Action
set_date t key value = set key (if truthy_text value then t.iso value else "")

abbrev pub filter_panel : Texts → Search → Screen Action
filter_panel t s =
    text "Identifier"
    ∷ input (s.identifier or_else "") (set identifier)
    ∷ text "Service"
    ∷ input (s.service_name or_else "") (set service_name)
    ∷ text "Start date"
    ∷ input (s.start_date or_else "") (set_date t start_date)
    ∷ text "End date"
    ∷ input (s.end_date or_else "") (set_date t end_date)
    ∷ []

abbrev pub heading : SessionsPage → Screen Action
heading s =
    text "Sessions"
      ∷ text "User sessions derived from audit events — 30 min inactivity gap = new session"
      ∷ when (has_filters s.search) (button true "Clear" clear ∷ [])
    ++ button true "Filter" toggle_filter ∷ []

abbrev pub span : Texts → SessionRow → String
span t r = format_time t r.session.session_start <> " → " <> format_time t r.session.session_end

-- The session of the id that is looked up.
abbrev pub looked_up : Texts → (id : String) → Query SessionDetail → Screen Action
looked_up t id loading = text "Loading..." ∷ []
looked_up t id failed = text ("No session found for ID: " <> id) ∷ []
looked_up t id (found d) =
    text ("Identifier: " <> d.row.session.identifier)
    ∷ text ("Service: " <> d.row.session.service_name)
    ∷ text ("Duration: " <> t.duration (format_duration d.row.duration))
    ∷ text ("Events: " <> t.number d.row.event_count)
    ∷ text (span t d.row)
    ∷ each (event_line t) d.events

abbrev pub look_up_card : Texts → SessionsPage → Query SessionDetail → Screen Action
look_up_card t s detail =
    text "Look up session by explicit ID"
    ∷ input s.session_id_input type_id
    ∷ button true "Lookup" look_up
    ∷ when (truthy s.lookup_session_id)
        (button true "" end_look_up ∷ looked_up t (s.lookup_session_id or_else "") detail)

-- A session, with its events where it is expanded.
abbrev pub session_card :
    Texts → SessionsPage → (Session → Query (List SessionEvent)) → SessionRow → Screen Action
session_card t s timeline r =
    button true "" (toggle r.session)
    ∷ text r.session.identifier
    ∷ text r.session.service_name
    ∷ text "Duration"
    ∷ text (t.duration (format_duration r.duration))
    ∷ text "Events"
    ∷ text (t.grouped r.event_count)
    ∷ text (format_time t r.session.session_start)
    ∷ text ("→ " <> format_time t r.session.session_end)
    ∷ when (is_expanded s.expanded_key r.session) (session_timeline t (timeline r.session))

abbrev pub content :
    Texts
    → SessionsPage
    → (Session → Query (List SessionEvent))
    → Query (List SessionRow)
    → Screen Action
content t s timeline loading = text "Loading sessions..." ∷ []
content t s timeline failed =
    text "Failed to load sessions. Check your connection and try again." ∷ []
content t s timeline (found []) =
    text "No sessions found."
    ∷ when (has_filters s.search) (text "Try adjusting your filters." ∷ [])
content t s timeline (found (r ∷ rs)) = each (session_card t s timeline) (r ∷ rs)

-- The page, but for the window of the selected event, which is event_detail_modal of Dashboard.Events.
unfoldable pub view :
    Texts
    → (timeline : Session → Query (List SessionEvent)) → (detail : Query SessionDetail)
    → Query (List SessionRow)
    → SessionsPage
    → Screen Action
view t timeline detail sessions s =
    heading s
    ++ (when s.filter_open (filter_panel t s.search)
        ++ (look_up_card t s detail
            ++ (content t s timeline sessions
                ++ text "Showing up to 200 most recent sessions" ∷ [])))

unfoldable pub act : Texts → Action → SessionsPage → SessionsPage
act t clear s = record s { search = clear_filters }
act t toggle_filter s = record s { filter_open = not s.filter_open }
act t look_up s = record s { lookup_session_id = lookup t.trim s.session_id_input }
act t end_look_up s = record s { lookup_session_id = none; session_id_input = "" }
act t (set key value) s = record s { search = set_filter key value s.search }
act t (type_id typed) s = record s { session_id_input = typed }
act t (select_event id) s = record s { selected_event_id = some id }
act t (toggle session) s = record s { expanded_key = toggle_session session s.expanded_key }
