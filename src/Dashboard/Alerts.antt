-- ===== src/Dashboard/Alerts.antt =====
-- What frontend/src/routes/app/_layout/anomalies.tsx shows: the alerts, and a drawer for the one that
-- is selected. The filters of its events are build_related_filters of Dashboard.Related.
use bataudit.Prelude.{
  ℕ, String, Bool, true, false, not, ◌&&◌, ◌≡◌, refl, Option, none, some, List, [], ◌∷◌, ◌++◌, ◌==◌,
  ltb, leb, length, str_eq, eq_iff, if◌then◌else◌,
}
use bataudit.Prelude.Text.{◌<>◌, truthy_text}
use bataudit.Prelude.Json.{Json, str, num, obj, Fields, end, field}
use bataudit.Web.Wallboard.{truthy_json}
use bataudit.Dashboard.Screen.{Screen, text, button, when, each}
use bataudit.Dashboard.Related.{AlertSummary, detail}

pub record Rule : Type 0 where
  pub label : String
  pub description : String

abbrev pub rule : String → String → Rule
rule label description = record { label = label; description = description }

-- `RULE_META[path] ?? …`
unfoldable pub rule_meta : String → Rule
rule_meta path =
    if str_eq path "volume_spike"
    then rule "Volume Spike" "Abnormal spike in request volume (z-score)"
    else if str_eq path "error_rate"
    then rule "Error Rate" "4xx/5xx rate exceeded threshold"
    else if str_eq path "brute_force"
    then rule "Brute Force" "Repeated auth failures from same identifier"
    else if str_eq path "silent_service"
    then rule "Silent Service" "No events received for threshold minutes"
    else if str_eq path "mass_delete"
    then rule "Mass Delete" "High volume of DELETE requests in short window"
    else if str_eq path "error_rate_by_route"
    then rule "Error Rate by Route" "High error rate detected on a specific route"
    else rule path ""

-- An alert, as the list has it.
pub record Alert : Type 0 where
  pub id : String
  pub environment : Option String
  pub summary : AlertSummary

pub record RelatedEvent : Type 0 where
  pub id : String
  pub method : String
  pub path : String
  pub status_code : ℕ
  pub response_time : ℕ
  pub timestamp : String

pub record AffectedUser : Type 0 where
  pub identifier : String
  pub user_email : String
  pub user_name : String
  pub error_count : ℕ

pub data Color : Type 0 where
  red yellow green : Color

unfoldable pub status_color : ℕ → Color
status_color code = if leb 500 code then red else if leb 400 code then yellow else green

-- The texts that the platform makes; `age` is that of alert_age.
pub record Texts : Type 0 where
  pub number : ℕ → String
  pub day_and_time : String → String
  pub age : String → String
  pub string_of : Json → String
  -- `key.replace(/_/g, ' ')`
  pub spaced : String → String
  -- `JSON.parse`, `none` where it throws
  pub parse : String → Option Json

pub data Action : Type 0 where
  select : Alert → Action
  close : Action

abbrev pub counted : Texts → ℕ → String → String
counted t n word = t.number n <> " " <> word <> (if n == 1 then "" else "s")

abbrev pub optional_text : {A : Type 0} → Option String → Screen A
optional_text none = []
optional_text (some s) = when (truthy_text s) (text s ∷ [])

abbrev pub alert_card : Texts → Alert → Screen Action
alert_card t a =
    button true "" (select a)
      ∷ text (rule_meta a.summary.path).label
      ∷ text a.summary.service_name
      ∷ optional_text a.environment
    ++ (optional_text (some (rule_meta a.summary.path).description)
        ++ text (t.day_and_time a.summary.timestamp) ∷ text (t.age a.summary.timestamp) ∷ [])

-- The details of an alert: the body of its event, an object or the JSON text of one by its type.
abbrev pub fields_of : Option Json → Option Fields
fields_of none = none
fields_of (some (obj fs)) = some fs
fields_of (some j) = none

abbrev pub details_of : Texts → Option Json → Option Fields
details_of t (some (str s)) = if truthy_text s then fields_of (t.parse s) else none
details_of t body = fields_of body

-- The text of a value: numbers are whole.
abbrev pub value_shown : Texts → Json → String
value_shown t (num n) = t.number n
value_shown t j = t.string_of j

abbrev pub detection_details : Texts → Fields → Screen Action
detection_details t end = []
detection_details t (field k v fs) =
    text (t.spaced k) ∷ text (value_shown t v) ∷ detection_details t fs

abbrev pub related_event : Texts → RelatedEvent → Screen Action
related_event t e =
    text e.method
    ∷ text e.path
    ∷ text (t.number e.status_code)
    ∷ text (t.number e.response_time <> "ms")
    ∷ text (t.age e.timestamp)
    ∷ []

-- `RelatedEvents`; `none` while its query is loading.
unfoldable pub related_events : Texts → Option (List RelatedEvent) → Screen Action
related_events t none = text "Loading events…" ∷ []
related_events t (some []) = text "No related events found in this window." ∷ []
related_events t (some (e ∷ es)) =
    each (related_event t) (e ∷ es)
    ++ text (counted t (length (e ∷ es)) "event" <> " in window") ∷ []

abbrev pub affected_user : Texts → AffectedUser → Screen Action
affected_user t u =
    text (
      if truthy_text u.user_email
      then u.user_email
      else if truthy_text u.user_name
      then u.user_name
      else u.identifier)
    ∷ text (t.number u.error_count <> " err")
    ∷ []

abbrev pub affected_users_list : Texts → Option (List AffectedUser) → Screen Action
affected_users_list t none = text "Loading…" ∷ []
affected_users_list t (some []) = text "No affected users found." ∷ []
affected_users_list t (some (u ∷ us)) =
    each (affected_user t) (u ∷ us) ++ text (counted t (length (u ∷ us)) "user" <> " affected") ∷ []

-- `details?.k ? String(details.k) : null`
abbrev pub named_detail : Texts → String → Option Fields → Option String
named_detail t k details = elim (detail k details) [
  | none ↦ none
  | some v ↦ if truthy_json (some v) then some (t.string_of v) else none
]

-- `AffectedUsersSection`
unfoldable pub affected_users_section :
    Texts → Option Fields → Option (List AffectedUser) → Screen Action
affected_users_section t details users = elim (named_detail t "path" details) [
  | none ↦ []
  | some path ↦ when (truthy_text path) (
      text "Affected Users" ∷ optional_text (named_detail t "method" details)
      ++ (text path ∷ affected_users_list t users))
]

-- What the queries of the drawer report; `none` while they are loading, and the body of the event.
pub record Loaded : Type 0 where
  pub loading_detail : Bool
  pub request_body : Option Json
  pub events : Option (List RelatedEvent)
  pub users : Option (List AffectedUser)

abbrev pub details_shown : Texts → Loaded → Option Fields → Screen Action
details_shown t d details = if d.loading_detail then text "Loading…" ∷ [] else elim details [
  | none ↦ text "No detail data available." ∷ []
  | some fs ↦ detection_details t fs
]

abbrev pub attacker : Texts → Alert → Option Fields → Screen Action
attacker t a details = elim (named_detail t "identifier" details) [
  | none ↦ []
  | some id ↦ when (str_eq a.summary.path "brute_force") (text ("Attacker identifier: " <> id) ∷ [])
]

-- `AlertDrawer`
unfoldable pub alert_drawer : Texts → Loaded → Option Alert → Screen Action
alert_drawer t d none = []
alert_drawer t d (some a) =
    let details = details_of t d.request_body in
    (text (rule_meta a.summary.path).label
      ∷ text a.summary.service_name
      ∷ optional_text a.environment)
    ++ (button true "" close
          ∷ text (t.day_and_time a.summary.timestamp)
          ∷ text (t.age a.summary.timestamp)
          ∷ optional_text (some (rule_meta a.summary.path).description)
        ++ ((text "Detection Details" ∷ details_shown t d details)
            ++ ((text (
                    if str_eq a.summary.path "silent_service"
                    then "Last Events Before Silence"
                    else "Triggering Events")
                  ∷ (if d.loading_detail then text "Loading…" ∷ [] else related_events t d.events))
                ++ (when (str_eq a.summary.path "error_rate_by_route")
                      (affected_users_section t details d.users)
                    ++ attacker t a details))))

abbrev pub same_alert : Option Alert → Alert → Bool
same_alert none a = false
same_alert (some b) a = str_eq b.id a.id

-- `handleSelect`, and closing the drawer by its button, the backdrop or the key Escape.
unfoldable pub act : Action → Option Alert → Option Alert
act (select a) prev = if same_alert prev a then none else some a
act close prev = none

abbrev pub on_key : String → Option Alert → Option Alert
on_key key prev = if str_eq key "Escape" then act close prev else prev

unfoldable pub view :
    Texts → (is_loading : Bool) → List Alert → Loaded → Option Alert → Screen Action
view t is_loading alerts d selected =
    (text "Anomaly Alerts"
      ∷ text "Last 24 hours — click an alert to open the detail panel"
      ∷ when (ltb 0 (length alerts)) (text (counted t (length alerts) "alert") ∷ []))
    ++ (when is_loading (text "Loading…" ∷ [])
        ++ (when (not is_loading && not (ltb 0 (length alerts)))
              (text "No anomalies detected in the last 24 hours." ∷ [])
            ++ (each (alert_card t) alerts ++ alert_drawer t d selected)))

-- A second click on the card of the selected alert closes the drawer.
act_twice :
    (a : Alert) (prev : Option Alert)
    → same_alert prev a ≡ false
    → act (select a) (act (select a) prev) ≡ none
unfolding act
act_twice a prev h = rw (h, (eq_iff a.id a.id).1 refl) refl
