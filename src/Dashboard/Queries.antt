-- ===== src/Dashboard/Queries.antt =====
-- frontend/src/queries: the cached queries of the dashboard. A query has a key, under which its
-- value is kept, and a request, which is made while the query is enabled. The query client, a
-- library, is not modelled. `null` and `undefined`, which a key does not tell apart, are `none`; an
-- argument that the code asserts not to be `null` is read as the empty text where it is.
pub mod Keys
use bataudit.Prelude.{String, Bool, true, Option, none, some, List, [], ◌∷◌, ◌&&◌, ◌or_else◌}
use bataudit.Prelude.Text.{truthy, truthy_text}
use bataudit.Web.Clients.Audit.{ListAuditParams}
use bataudit.Web.Clients.Endpoint.{
  Endpoint, list_audit, get_audit_detail, get_audit_stats, get_insights, get_affected_users,
  get_session_by_id, get_sessions, get_orphans, list_users, list_invites, list_projects,
  get_vapid_public_key, list_members, list_api_keys, list_monitors, list_monitor_history,
  list_webhooks, list_deliveries, get_audit_history, get_usage_stat,
}

-- The text that a key begins with.
pub data Kind : Type 0 where
  audit_stats audit_sessions audit_detail audit_orphans insights session_by_id : Kind
  anomaly_related affected_users api_keys members invites projects users vapid_public_key : Kind
  monitors monitor_history webhooks deliveries audit_history usage_stat : Kind

-- The rest of a key. A property of an object that is `undefined` is left out of its hash, as it is
-- in JSON; the objects here are modelled by their properties in a fixed order.
pub data Rest : Type 0 where
  texts : List (Option String) → Rest
  params : ListAuditParams → Rest

-- The argument of `useQuery`, without its times.
pub record Query : Type 0 where
  pub query_key : Kind × Rest
  pub enabled : Bool
  pub query_fn : Endpoint

unfoldable pub use_audit_stats : (project_id environment : Option String) → Query
use_audit_stats project_id environment = record {
  query_key = (audit_stats, texts (project_id ∷ environment ∷ []));
  enabled = true;
  query_fn = get_audit_stats project_id environment;
}

unfoldable pub use_audit_sessions :
    (project_id identifier service_name start_date end_date environment : Option String) → Query
use_audit_sessions project_id identifier service_name start_date end_date environment = record {
  query_key = (
    audit_sessions,
    texts (project_id ∷ identifier ∷ service_name ∷ start_date ∷ end_date ∷ environment ∷ []),
  );
  enabled = true;
  query_fn = get_sessions project_id identifier service_name start_date end_date environment;
}

unfoldable pub use_audit_detail : (id : Option String) → Query
use_audit_detail id = record {
  query_key = (audit_detail, texts (id ∷ []));
  enabled = truthy id;
  query_fn = get_audit_detail (id or_else "");
}

unfoldable pub use_orphans :
    (project_id service_name start_date end_date environment : Option String) → Query
use_orphans project_id service_name start_date end_date environment = record {
  query_key =
      (audit_orphans, texts (project_id ∷ service_name ∷ start_date ∷ end_date ∷ environment ∷ []));
  enabled = truthy project_id;
  query_fn = get_orphans project_id service_name start_date end_date environment;
}

unfoldable pub use_insights : (project_id period environment : Option String) → Query
use_insights project_id period environment = record {
  query_key = (insights, texts (project_id ∷ some (period or_else "7d") ∷ environment ∷ []));
  enabled = true;
  query_fn = get_insights project_id (some (period or_else "7d")) environment;
}

unfoldable pub use_session_by_id : (session_id : Option String) → Query
use_session_by_id session_id = record {
  query_key = (session_by_id, texts (session_id ∷ []));
  enabled = truthy session_id;
  query_fn = get_session_by_id (session_id or_else "");
}

unfoldable pub use_anomaly_related_events : (p : ListAuditParams) (enabled : Bool) → Query
use_anomaly_related_events p enabled = record {
  query_key = (anomaly_related, params p);
  enabled = enabled && truthy p.service_name;
  query_fn = list_audit p;
}

unfoldable pub use_affected_users : (project_id path method start end : Option String) → Query
use_affected_users project_id path method start end = record {
  query_key = (affected_users, texts (project_id ∷ path ∷ method ∷ start ∷ end ∷ []));
  enabled = truthy project_id && truthy path;
  query_fn = get_affected_users (project_id or_else "") (path or_else "") method start end;
}

unfoldable pub use_api_keys : (project_id : Option String) → Query
use_api_keys project_id = record {
  query_key = (api_keys, texts (project_id ∷ []));
  enabled = truthy project_id;
  query_fn = list_api_keys (project_id or_else "");
}

unfoldable pub use_members : (project_id : Option String) → Query
use_members project_id = record {
  query_key = (members, texts (project_id ∷ []));
  enabled = truthy project_id;
  query_fn = list_members (project_id or_else "");
}

unfoldable pub use_invites : Query
use_invites = record { query_key = (invites, texts []); enabled = true; query_fn = list_invites }

unfoldable pub use_projects : Query
use_projects = record { query_key = (projects, texts []); enabled = true; query_fn = list_projects }

unfoldable pub use_users : Query
use_users = record { query_key = (users, texts []); enabled = true; query_fn = list_users }

unfoldable pub use_vapid_public_key : Query
use_vapid_public_key = record {
  query_key = (vapid_public_key, texts []);
  enabled = true;
  query_fn = get_vapid_public_key;
}

unfoldable pub use_monitors : (project_id : Option String) → Query
use_monitors project_id = record {
  query_key = (monitors, texts (some (project_id or_else "all") ∷ []));
  enabled = true;
  query_fn = list_monitors project_id;
}

unfoldable pub use_monitor_history : (monitor_id : Option String) → Query
use_monitor_history monitor_id = record {
  query_key = (monitor_history, texts (monitor_id ∷ []));
  enabled = truthy monitor_id;
  query_fn = list_monitor_history (monitor_id or_else "") none;
}

unfoldable pub use_webhooks : (project_id : String) → Query
use_webhooks project_id = record {
  query_key = (webhooks, texts (some project_id ∷ []));
  enabled = truthy_text project_id;
  query_fn = list_webhooks project_id;
}

unfoldable pub use_deliveries : (webhook_id : String) → Query
use_deliveries webhook_id = record {
  query_key = (deliveries, texts (some webhook_id ∷ []));
  enabled = truthy_text webhook_id;
  query_fn = list_deliveries webhook_id;
}

unfoldable pub use_audit_history :
    (project_id start_date end_date environment : Option String) → Query
use_audit_history project_id start_date end_date environment = record {
  query_key = (audit_history, texts (project_id ∷ start_date ∷ end_date ∷ environment ∷ []));
  enabled = truthy project_id;
  query_fn = get_audit_history (project_id or_else "") start_date end_date environment;
}

unfoldable pub use_usage_stat : (project_id : Option String) → Query
use_usage_stat project_id = record {
  query_key = (usage_stat, texts (project_id ∷ []));
  enabled = truthy project_id;
  query_fn = get_usage_stat (project_id or_else "");
}
