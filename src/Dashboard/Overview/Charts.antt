-- ===== src/Dashboard/Overview/Charts.antt =====
-- The charts of frontend/src/routes/app/_layout/index.tsx, as the points and bars that can be clicked.
use bataudit.Prelude.{
  ℕ, ◌+◌, String, true, not, Option, none, some, List, [], ◌∷◌, ◌++◌, ltb, length, str_eq,
  if◌then◌else◌,
}
use bataudit.Prelude.Text.{◌<>◌, truthy, truthy_text}
use bataudit.Dashboard.Screen.{Screen, text, button, when, each}
use bataudit.Dashboard.Overview.Page.{
  TimelinePoint, AuditStats, HistoryPoint, Texts, Action, click_hour, click_status, click_method,
}

abbrev pub count_of : String → List (String × ℕ) → ℕ
count_of name [] = 0
count_of name ((k, n) ∷ counts) =
    let rest = count_of name counts in if str_eq k name then n else rest

abbrev pub timeline_point : Texts → TimelinePoint → Screen Action
timeline_point t p =
    button true (t.hours p.hour <> "h: " <> t.number p.count) (click_hour (t.time p.hour)) ∷ []

abbrev pub timeline_of : Option AuditStats → List TimelinePoint
timeline_of none = []
timeline_of (some st) = st.timeline

abbrev pub timeline_chart : Texts → Option AuditStats → Screen Action
timeline_chart t stats =
    text "Events / hour (last 24h) (click to filter)" ∷ each (timeline_point t) (timeline_of stats)

-- A point of the history: its label, its events and its errors.
abbrev pub history_label : Texts → HistoryPoint → String
history_label t p =
    if str_eq p.period_type "day" then t.day p.period_start else t.day_and_hour p.period_start

abbrev pub history_point : Texts → HistoryPoint → Screen Action
history_point t p =
    text (history_label t p)
    ∷ text (t.number p.event_count)
    ∷ text (t.number (p.errors_4xx + p.errors_5xx))
    ∷ []

unfoldable pub history_chart : Texts → Option String → List HistoryPoint → Screen Action
history_chart t project_id points =
    text "Event history (90 days)"
    ∷ (if not (truthy project_id)
        then text "Select a project to view 90-day history" ∷ []
        else if not (ltb 0 (length points))
        then text "No history yet for this project"
          ∷ text "Daily history builds up as events are recorded over time."
          ∷ []
        else each (history_point t) points)

-- The bars, and the legend.
abbrev pub status_counts : Option AuditStats → List (String × ℕ)
status_counts none = []
status_counts (some st) =
    ("2xx", count_of "2xx" st.by_status_class)
    ∷ ("3xx", count_of "3xx" st.by_status_class)
    ∷ ("4xx", count_of "4xx" st.by_status_class)
    ∷ ("5xx", count_of "5xx" st.by_status_class)
    ∷ []

abbrev pub status_bar : Texts → String × ℕ → Screen Action
status_bar t (name, n) = button true (name <> ": " <> t.number n) (click_status name) ∷ []

abbrev pub status_legend : Texts → String × ℕ → Screen Action
status_legend t (name, n) = text (name <> ": " <> t.grouped n) ∷ []

abbrev pub status_chart : Texts → Option AuditStats → Screen Action
status_chart t stats =
    text "Status distribution (click to filter)" ∷ each (status_bar t) (status_counts stats)
    ++ each (status_legend t) (status_counts stats)

-- The bar of a method, which has a name.
abbrev pub method_bar : Texts → String × ℕ → Screen Action
method_bar t (name, n) =
    when (truthy_text name) (button true (name <> ": " <> t.number n) (click_method name) ∷ [])

abbrev pub method_counts : Option AuditStats → List (String × ℕ)
method_counts none = []
method_counts (some st) = st.by_method

abbrev pub method_chart : Texts → Option AuditStats → Screen Action
method_chart t stats = text "Methods (click to filter)" ∷ each (method_bar t) (method_counts stats)

unfoldable pub charts :
    Texts → Option String → Option AuditStats → List HistoryPoint → Screen Action
charts t project_id stats points =
    timeline_chart t stats
    ++ (history_chart t project_id points ++ (status_chart t stats ++ method_chart t stats))
