-- ===== src/Dashboard/Events/Card.antt =====
-- event-card.tsx, status-indicator.tsx and health-status.tsx.
use bataudit.Prelude.{
  ℕ, ◌/◌, String, Bool, ◌&&◌, Option, none, some, [], ◌∷◌, ◌++◌, ◌==◌, ltb, leb, str_eq,
  if◌then◌else◌,
}
use bataudit.Prelude.Text.{◌<>◌}
use bataudit.Dashboard.Screen.{Screen, text}
use bataudit.Dashboard.Times.{Age, seconds_ago, minutes_ago, hours_ago, on_date}

pub record AuditEvent : Type 0 where
  pub id : String
  pub timestamp : String
  pub method : String
  pub path : String
  pub status_code : ℕ
  pub identifier : String
  pub user_email : String
  pub service_name : String
  pub response_time : Option ℕ
  pub user_agent : Option String

-- `formatTimestamp`, for a time that is not in the future, by its distance in milliseconds.
unfoldable pub format_timestamp : ℕ → Age
format_timestamp diff =
    let seconds = diff / 1000 in
    let minutes = seconds / 60 in
    let hours = minutes / 60 in
    if ltb seconds 60
    then seconds_ago seconds
    else if ltb minutes 60
    then minutes_ago minutes
    else if ltb hours 24
    then hours_ago hours
    else on_date

pub data StatusColor : Type 0 where
  green yellow red muted : StatusColor

unfoldable pub get_status_color : ℕ → StatusColor
get_status_color code =
    if leb 200 code && ltb code 300
    then green
    else if leb 400 code && ltb code 500
    then yellow
    else if leb 500 code
    then red
    else muted

unfoldable pub get_status_text : ℕ → String
get_status_text code =
    if leb 200 code && ltb code 300
    then "Success"
    else if leb 400 code && ltb code 500
    then "Client Error"
    else if leb 500 code
    then "Server Error"
    else "Unknown"

pub data MethodColor : Type 0 where
  green slate yellow red blue muted : MethodColor

-- The method in upper case.
unfoldable pub get_method_color : String → MethodColor
get_method_color method =
    if str_eq method "GET"
    then MethodColor.green
    else if str_eq method "POST"
    then slate
    else if str_eq method "PUT"
    then MethodColor.yellow
    else if str_eq method "DELETE"
    then MethodColor.red
    else if str_eq method "PATCH"
    then blue
    else MethodColor.muted

module _ {A : Type 0} (number : ℕ → String) where
  unfoldable pub status_indicator : ℕ → Screen A
  status_indicator status = text (number status) ∷ text (get_status_text status) ∷ []

  -- `{event.response_time && …}`: the number 0 is itself a text that is shown.
  abbrev pub response_time_shown : Option ℕ → Screen A
  response_time_shown none = []
  response_time_shown (some ms) = text (if ms == 0 then number 0 else number ms <> "ms") ∷ []

  unfoldable pub event_card : (age : String → String) → AuditEvent → Screen A
  event_card age e =
      text (age e.timestamp) ∷ text e.method ∷ text e.path ∷ status_indicator e.status_code
      ++ (text e.identifier
          ∷ text e.user_email
          ∷ text e.service_name
          ∷ response_time_shown e.response_time)

pub record HealthResponse : Type 0 where
  pub api_response_ms : ℕ
  pub db_response_ms : ℕ
  pub db_status : String
  pub environment : String
  pub message : String
  pub status : String
  pub version : String

abbrev pub is_healthy : HealthResponse → Bool
is_healthy h = str_eq h.status "ok"

module _ {A : Type 0} (number : ℕ → String) (upper : String → String) where
  -- The texts; the two signs are green where a status is `ok`.
  unfoldable pub health_status : HealthResponse → Screen A
  health_status h =
      text "Status"
      ∷ text (upper h.status)
      ∷ text "API"
      ∷ text (number h.api_response_ms <> "ms")
      ∷ text "Database"
      ∷ text (number h.db_response_ms <> "ms")
      ∷ text "Environment"
      ∷ text h.environment
      ∷ text "Version"
      ∷ text h.version
      ∷ text "DB Status"
      ∷ text (upper h.db_status)
      ∷ []
