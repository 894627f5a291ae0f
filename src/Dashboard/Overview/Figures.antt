-- ===== src/Dashboard/Overview/Figures.antt =====
-- What the event list shows above its charts: figures, the monitors that are down, the requests
-- without a response, and the table of services (frontend/src/routes/app/_layout/index.tsx).
use bataudit.Prelude.{
  ℕ, ◌*◌, String, Bool, true, not, ◌&&◌, Option, none, some, List, [], ◌∷◌, ◌++◌, ◌==◌, ltb, leb,
  length, keep, str_eq, if◌then◌else◌, ◌or_else◌,
}
use bataudit.Prelude.Text.{◌<>◌, truthy, truthy_text}
use bataudit.Dashboard.Screen.{Screen, text, button, when, each}
use bataudit.Dashboard.Overview.{monitor_by_service}
use bataudit.Dashboard.Overview.Page.{
  AuditStats, AuditSummary, OrphansResponse, Texts, Action, refresh, toggle_orphans, select_event,
  sort_services,
}
use bataudit.Dashboard.Services.{
  ServiceBreakdown, Column, service_name, requests, errors, avg_response_time, last_event,
}

abbrev pub stat : Option AuditStats → (AuditStats → ℕ) → ℕ
stat none f = 0
stat (some st) f = f st

-- `stats?.by_service[0]?.service_name ?? 'Dashboard'`
abbrev pub first_service : Option AuditStats → String
first_service none = "Dashboard"
first_service (some st) = elim st.by_service [ [] ↦ "Dashboard" | s ∷ ss ↦ s.service_name ]

abbrev pub title : Option String → Option AuditStats → String
title none stats = "All Projects"
title (some id) stats = first_service stats

abbrev pub last_seen : Texts → Option AuditStats → String
last_seen t none = "No events yet"
last_seen t (some st) =
    if truthy_text st.last_event_at
    then "Last event: " <> t.age st.last_event_at
    else "No events yet"

abbrev pub heading : Texts → Option String → Option AuditStats → Screen Action
heading t project_id stats =
    text (title project_id stats) ∷ text (last_seen t stats) ∷ button true "Refresh" refresh ∷ []

-- A figure, with its share of all events where there are any.
abbrev pub figure : (label value : String) → Screen Action
figure label value = text label ∷ text value ∷ []

abbrev pub share : Texts → Option AuditStats → (AuditStats → ℕ) → Screen Action
share t none f = []
share t (some st) f = when (ltb 0 st.total) (text (t.percent (f st) st.total <> "%") ∷ [])

-- `statsLoading ? '…' : value`
abbrev pub unless : (loading : Bool) → String → String
unless loading value = if loading then "…" else value

unfoldable pub metric_cards :
    Texts → (loading : Bool) → Option AuditStats → (alerts orphans : ℕ) → Screen Action
metric_cards t loading stats alerts orphans =
    figure "Total Events" (unless loading (t.grouped (stat stats (λ st. st.total))))
    ++ (figure "Active Services" (unless loading (t.number (stat stats (λ st. st.active_services))))
        ++ (figure "Errors 4xx" (unless loading (t.number (stat stats (λ st. st.errors_4xx))))
            ++ (share t stats (λ st. st.errors_4xx)
                ++ (figure "Errors 5xx"
                      (unless loading (t.number (stat stats (λ st. st.errors_5xx))))
                    ++ (share t stats (λ st. st.errors_5xx)
                        ++ (figure "Avg Response" (
                              unless loading
                                (t.number (stat stats (λ st. st.avg_response_time)) <> "ms"))
                            ++ (figure "p95 Response" (
                                  unless loading
                                    (t.number (stat stats (λ st. st.p95_response_time)) <> "ms"))
                                ++ (figure "Anomaly Alerts" (t.number alerts)
                                    ++ figure "Orphan Requests" (t.number orphans)))))))))

pub record Monitor : Type 0 where
  pub name : String
  pub url : String
  pub last_status : String

abbrev pub is_down : Monitor → Bool
is_down m = str_eq m.last_status "down"

abbrev pub monitor_shown : Monitor → Screen Action
monitor_shown m = text (m.name <> " — " <> m.url) ∷ []

abbrev pub plural : ℕ → String
plural n = if n == 1 then "" else "s"

unfoldable pub down_monitors : Texts → List Monitor → Screen Action
down_monitors t monitors =
    let down = keep is_down monitors in
    when (ltb 0 (length down)) (
      text (t.number (length down) <> " monitor" <> plural (length down) <> " down")
      ∷ each monitor_shown down)

abbrev pub orphan_row : Texts → AuditSummary → Screen Action
orphan_row t e =
    button true "" (select_event e.id)
    ∷ text (t.clock e.timestamp)
    ∷ text e.service_name
    ∷ text e.method
    ∷ text e.path
    ∷ text e.identifier
    ∷ []

abbrev pub orphan_list : Texts → OrphansResponse → Screen Action
orphan_list t o = text "Orphan requests (last 24h)" ∷ each (orphan_row t) o.events

unfoldable pub orphans_banner :
    Texts → (show_orphans : Bool) → Option OrphansResponse → Screen Action
orphans_banner t show_orphans none = []
orphans_banner t show_orphans (some o) = when (ltb 0 o.total) (
    text (
      t.number o.total
      <> " request"
      <> plural o.total
      <> " without backend response in the last 24h")
    ∷ text
        "Browser-side events with no matching backend audit — possible crashes, timeouts, or OOM kills."
    ∷ button true (if show_orphans then "Hide" else "View orphans") toggle_orphans
    ∷ when show_orphans (orphan_list t o))

pub data Badge : Type 0 where
  red orange green : Badge

-- The colour of `errorRateBadge`, for a rate that is taken exactly.
unfoldable pub error_rate_badge : (errors requests : ℕ) → Badge
error_rate_badge e r =
    if ltb 0 r && leb (5 * r) (100 * e)
    then red
    else if ltb 0 r && leb r (100 * e)
    then orange
    else green

abbrev pub sort_head : (label : String) → Column → Screen Action
sort_head label col = button true label (sort_services col) ∷ []

abbrev pub service_heads : Screen Action
service_heads =
    sort_head "Service" service_name
    ++ (sort_head "Requests" requests
        ++ (sort_head "Errors" errors
            ++ (text "Error Rate" ∷ sort_head "Avg Time" avg_response_time
                ++ (sort_head "Last Event" last_event ++ text "Health" ∷ []))))

-- `{rate}%`, where the rate is 0 without requests.
abbrev pub rate_shown : Texts → ServiceBreakdown → String
rate_shown t s = (if ltb 0 s.requests then t.percent s.errors s.requests else t.percent 0 1) <> "%"

abbrev pub health_of : Option String → Screen Action
health_of status =
    when (str_eq (status or_else "") "up") (text "UP" ∷ [])
    ++ (when (str_eq (status or_else "") "down") (text "DOWN" ∷ [])
        ++ when (not (truthy status)) (text "—" ∷ []))

abbrev pub named : Monitor → String × String
named m = (m.name, m.last_status)

abbrev pub statuses : List Monitor → List (String × String)
statuses [] = []
statuses (m ∷ ms) = named m ∷ statuses ms

abbrev pub service_row : Texts → List Monitor → ServiceBreakdown → Screen Action
service_row t monitors s =
    text s.service_name
    ∷ text (t.grouped s.requests)
    ∷ text (t.grouped s.errors)
    ∷ text (rate_shown t s)
    ∷ text (t.number s.avg_response_time <> "ms")
    ∷ text (t.age s.last_event)
    ∷ health_of (monitor_by_service s.service_name (statuses monitors))

-- The table, for the services in their order.
unfoldable pub services_table : Texts → List Monitor → List ServiceBreakdown → Screen Action
services_table t monitors [] = []
services_table t monitors (s ∷ ss) = service_heads ++ each (service_row t monitors) (s ∷ ss)
