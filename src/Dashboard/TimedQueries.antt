-- ===== src/Dashboard/TimedQueries.antt =====
-- The queries of frontend/src/queries/audit.ts whose requests depend on the time or on more than
-- their key: the event list, the recent alerts, and the events of a session. Times are milliseconds
-- since 1970, a day after it at the least.
pub mod Recent
use bataudit.Prelude.{ℕ, ◌+◌, ◌-◌, ◌*◌, ◌%◌, String, Bool, true, false, Option, none, some}
use bataudit.Web.Clients.Audit.{ListAuditParams, no_params}
use bataudit.Dashboard.Filters.{ActiveFilters, audit_list_params}

-- `['audit', page, projectId, filters]`
pub record ListKey : Type 0 where
  pub page : ℕ
  pub project_id : Option String
  pub filters : ActiveFilters

-- A query: its key, whether it is enabled, and the argument of `ListAudit` at a time.
pub record TimedQuery (Key : Type 0) : Type 0 where
  pub query_key : Key
  pub enabled : Bool
  pub params : (now : ℕ) → ListAuditParams

unfoldable pub use_audit_list :
    (iso : ℕ → String) → (page limit : ℕ) → Option String → ActiveFilters → TimedQuery ListKey
use_audit_list iso page limit project_id filters = record {
  query_key = record { page = page; project_id = project_id; filters = filters };
  enabled = true;
  params = λ now. audit_list_params iso now page limit project_id filters;
}

-- The start of the hour on the clock of the place, which is ahead of that of 1970 by an offset.
abbrev pub start_of_hour : (offset : ℕ) → ℕ → ℕ
start_of_hour offset t = t - (t + offset) % (60 * 60 * 1000)

abbrev pub since : (offset now : ℕ) → ℕ
since offset now = start_of_hour offset (now - 24 * 60 * 60 * 1000)

-- `['anomaly-alerts', projectId, environment, since]`
pub record AlertsKey : Type 0 where
  pub project_id : Option String
  pub environment : Option String
  pub since : String

-- The query that is made when the page is rendered at a time.
unfoldable pub use_anomaly_alerts :
    (iso : ℕ → String)
    → (offset rendered : ℕ) → (project_id environment : Option String) → TimedQuery AlertsKey
use_anomaly_alerts iso offset rendered project_id environment = record {
  query_key = record {
    project_id = project_id;
    environment = environment;
    since = iso (since offset rendered);
  };
  enabled = true;
  params = λ now. record no_params {
    event_type = some "system.alert";
    project_id = project_id;
    environment = environment;
    start_date = some (iso (since offset rendered));
    limit = some 100;
  };
}

-- What is read of a session.
pub record Session : Type 0 where
  pub identifier : String
  pub service_name : String
  pub session_start : String
  pub session_end : String

-- `['session-timeline', …]`
pub record TimelineKey : Type 0 where
  pub identifier : String
  pub service_name : String
  pub session_start : String
  pub project_id : Option String

-- For a session that is not `null`; otherwise the query is not enabled.
unfoldable pub use_session_timeline : Session → Option String → TimedQuery TimelineKey
use_session_timeline session project_id = record {
  query_key = record {
    identifier = session.identifier;
    service_name = session.service_name;
    session_start = session.session_start;
    project_id = project_id;
  };
  enabled = true;
  params = λ now. record no_params {
    identifier = some session.identifier;
    service_name = some session.service_name;
    start_date = some session.session_start;
    end_date = some session.session_end;
    limit = some 500;
    project_id = project_id;
  };
}
