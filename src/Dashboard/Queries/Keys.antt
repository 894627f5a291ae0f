-- ===== src/Dashboard/Queries/Keys.antt =====
-- The keys of the queries of Dashboard/Queries.antt, and the requests that belong to them.
use bataudit.Prelude.{
  String, ◌≡◌, ◌≢◌, refl, Bool, false, Option, none, some, [], ◌∷◌, str_eq, if◌then◌else◌,
  ◌or_else◌, ap, sym, ◌∙◌,
}
use bataudit.Web.Clients.Audit.{ListAuditParams}
use bataudit.Web.Clients.Endpoint.{
  Endpoint, list_audit, get_audit_detail, get_audit_stats, get_insights, get_affected_users,
  get_session_by_id, get_sessions, get_orphans, list_users, list_invites, list_projects,
  get_vapid_public_key, list_members, list_api_keys, list_monitors, list_monitor_history,
  list_webhooks, list_deliveries, get_audit_history, get_usage_stat,
}
use bataudit.Dashboard.Queries.{
  Query, Kind, Rest, texts, params, audit_stats, audit_sessions, audit_detail, audit_orphans,
  insights, session_by_id, anomaly_related, affected_users, api_keys, members, invites, projects,
  users, vapid_public_key, monitors, monitor_history, webhooks, deliveries, audit_history,
  usage_stat, use_audit_stats, use_audit_sessions, use_audit_detail, use_orphans, use_insights,
  use_session_by_id, use_anomaly_related_events, use_affected_users, use_api_keys, use_members,
  use_invites, use_projects, use_users, use_vapid_public_key, use_monitors, use_monitor_history,
  use_webhooks, use_deliveries, use_audit_history, use_usage_stat,
}

-- The project that a key of the monitors stands for, all of them where it says so.
abbrev monitored : String → Option String
monitored a = if str_eq a "all" then none else some a

-- The request that belongs to a key.
request_of : Kind × Rest → Option Endpoint
request_of (audit_stats, texts (a ∷ b ∷ [])) = some (get_audit_stats a b)
request_of (audit_sessions, texts (a ∷ b ∷ c ∷ d ∷ e ∷ f ∷ [])) = some (get_sessions a b c d e f)
request_of (audit_detail, texts (a ∷ [])) = some (get_audit_detail (a or_else ""))
request_of (audit_orphans, texts (a ∷ b ∷ c ∷ d ∷ e ∷ [])) = some (get_orphans a b c d e)
request_of (insights, texts (a ∷ b ∷ c ∷ [])) = some (get_insights a b c)
request_of (session_by_id, texts (a ∷ [])) = some (get_session_by_id (a or_else ""))
request_of (anomaly_related, params p) = some (list_audit p)
request_of (affected_users, texts (a ∷ b ∷ c ∷ d ∷ e ∷ [])) =
    some (get_affected_users (a or_else "") (b or_else "") c d e)
request_of (api_keys, texts (a ∷ [])) = some (list_api_keys (a or_else ""))
request_of (members, texts (a ∷ [])) = some (list_members (a or_else ""))
request_of (invites, texts []) = some list_invites
request_of (projects, texts []) = some list_projects
request_of (users, texts []) = some list_users
request_of (vapid_public_key, texts []) = some get_vapid_public_key
request_of (monitors, texts (some a ∷ [])) = some (list_monitors (monitored a))
request_of (monitor_history, texts (a ∷ [])) = some (list_monitor_history (a or_else "") none)
request_of (webhooks, texts (some a ∷ [])) = some (list_webhooks a)
request_of (deliveries, texts (some a ∷ [])) = some (list_deliveries a)
request_of (audit_history, texts (a ∷ b ∷ c ∷ d ∷ [])) =
    some (get_audit_history (a or_else "") b c d)
request_of (usage_stat, texts (a ∷ [])) = some (get_usage_stat (a or_else ""))
request_of _ = none

-- The queries of frontend/src/queries but useAuditList, useAnomalyAlerts and useSessionTimeline, whose requests depend on
-- the time or on more than their key (Dashboard/TimedQueries.antt), useHealth, and those of wallboard.ts, which send the
-- wallboard's token. Of useMonitors, a project whose id is `all` is left out.
pub data IsKeyed : Query → Type 0 where
  audit_stats_query :
      (project_id environment : Option String) → IsKeyed (use_audit_stats project_id environment)
  audit_sessions_query :
      (project_id identifier service_name start_date end_date environment : Option String)
      → IsKeyed
          (use_audit_sessions project_id identifier service_name start_date end_date environment)
  audit_detail_query : (id : Option String) → IsKeyed (use_audit_detail id)
  orphans_query :
      (project_id service_name start_date end_date environment : Option String)
      → IsKeyed (use_orphans project_id service_name start_date end_date environment)
  insights_query :
      (project_id period environment : Option String)
      → IsKeyed (use_insights project_id period environment)
  session_by_id_query : (session_id : Option String) → IsKeyed (use_session_by_id session_id)
  anomaly_related_events_query :
      (p : ListAuditParams) (enabled : Bool) → IsKeyed (use_anomaly_related_events p enabled)
  affected_users_query :
      (project_id path method start end : Option String)
      → IsKeyed (use_affected_users project_id path method start end)
  api_keys_query : (project_id : Option String) → IsKeyed (use_api_keys project_id)
  members_query : (project_id : Option String) → IsKeyed (use_members project_id)
  invites_query : IsKeyed use_invites
  projects_query : IsKeyed use_projects
  users_query : IsKeyed use_users
  vapid_public_key_query : IsKeyed use_vapid_public_key
  all_monitors_query : IsKeyed (use_monitors none)
  monitors_query : (id : String) → str_eq id "all" ≡ false → IsKeyed (use_monitors (some id))
  monitor_history_query : (monitor_id : Option String) → IsKeyed (use_monitor_history monitor_id)
  webhooks_query : (project_id : String) → IsKeyed (use_webhooks project_id)
  deliveries_query : (webhook_id : String) → IsKeyed (use_deliveries webhook_id)
  audit_history_query :
      (project_id start_date end_date environment : Option String)
      → IsKeyed (use_audit_history project_id start_date end_date environment)
  usage_stat_query : (project_id : Option String) → IsKeyed (use_usage_stat project_id)

request_of-query_key : {q : Query} → IsKeyed q → request_of q.query_key ≡ some q.query_fn
unfolding request_of use_audit_stats use_audit_sessions use_audit_detail use_orphans use_insights
    use_session_by_id use_anomaly_related_events use_affected_users use_api_keys use_members
    use_invites use_projects use_users use_vapid_public_key use_monitors use_monitor_history
    use_webhooks use_deliveries use_audit_history use_usage_stat
request_of-query_key (monitors_query id h) = rw h
request_of-query_key (audit_stats_query project_id environment) = refl
request_of-query_key
      (audit_sessions_query project_id identifier service_name start_date end_date environment) =
    refl
request_of-query_key (audit_detail_query id) = refl
request_of-query_key (orphans_query project_id service_name start_date end_date environment) = refl
request_of-query_key (insights_query project_id period environment) = refl
request_of-query_key (session_by_id_query session_id) = refl
request_of-query_key (anomaly_related_events_query p enabled) = refl
request_of-query_key (affected_users_query project_id path method start end) = refl
request_of-query_key (api_keys_query project_id) = refl
request_of-query_key (members_query project_id) = refl
request_of-query_key invites_query = refl
request_of-query_key projects_query = refl
request_of-query_key users_query = refl
request_of-query_key vapid_public_key_query = refl
request_of-query_key all_monitors_query = refl
request_of-query_key (monitor_history_query monitor_id) = refl
request_of-query_key (webhooks_query project_id) = refl
request_of-query_key (deliveries_query webhook_id) = refl
request_of-query_key (audit_history_query project_id start_date end_date environment) = refl
request_of-query_key (usage_stat_query project_id) = refl

some_injective : {a b : Endpoint} → some a ≡ some b → a ≡ b
some_injective e = cc

-- Two of the queries that IsKeyed lists that have the same key make the same request, so that the cache never answers one
-- of them with the value of another. Left out are useAuditList, useAnomalyAlerts, useSessionTimeline, useHealth and those
-- of wallboard.ts, and useMonitors of a project whose id is `all`.
pub query_key-query_fn :
    (q r : Query) → IsKeyed q → IsKeyed r → q.query_key ≡ r.query_key → q.query_fn ≡ r.query_fn
query_key-query_fn q r h k e =
    some_injective (sym (request_of-query_key h) ∙ ap request_of e ∙ request_of-query_key k)

-- The monitors of all projects and those of a project with the id `all` have one key, but are two
-- requests.
pub monitors_all :
    ((use_monitors none).query_key ≡ (use_monitors (some "all")).query_key)
    × ((use_monitors none).query_fn ≢ (use_monitors (some "all")).query_fn)
unfolding use_monitors
monitors_all = (refl, λ e. cc)
