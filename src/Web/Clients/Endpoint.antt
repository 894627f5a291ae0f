-- ===== src/Web/Clients/Endpoint.antt =====
-- All operations that need a signed-in user, as one type: what holds of each of them is stated once.
pub mod Refused
pub mod Checked
use bataudit.Prelude.{ℕ, String, Bool, true, false, Option, none, some, List}
use bataudit.Prelude.Json.{Json}
use bataudit.Web.Platform.{Platform}
use bataudit.Web.Http.{Api, ◌>>=◌, pure}
use bataudit.Web.Clients.Audit
use bataudit.Web.Clients.Audit.{ListAuditParams}
use bataudit.Web.Clients.Accounts
use bataudit.Web.Clients.Projects
use bataudit.Web.Clients.Monitors
use bataudit.Web.Clients.Monitors.{NewMonitor, MonitorChange}
use bataudit.Web.Clients.Notifications
use bataudit.Web.Clients.Studio
use bataudit.Web.Clients.Studio.{Widget, GridItem}
use bataudit.Web.Clients.Tiering
use bataudit.Web.Clients.WallboardCodes

pub data Endpoint : Type 0 where
  list_audit : ListAuditParams → Endpoint
  get_audit_detail : String → Endpoint
  get_audit_stats : (project_id environment : Option String) → Endpoint
  get_insights : (project_id period environment : Option String) → Endpoint
  get_affected_users : (project_id path : String) → (method start end : Option String) → Endpoint
  get_session_by_id : String → Endpoint
  get_sessions :
      (project_id identifier service_name start_date end_date environment : Option String)
      → Endpoint
  get_orphans : (project_id service_name start_date end_date environment : Option String) → Endpoint
  logout list_users list_invites list_projects get_vapid_public_key : Endpoint
  create_user : (name email password role : String) → Endpoint
  delete_user : String → Endpoint
  create_invite : (email role : String) → Endpoint
  revoke_invite : String → Endpoint
  create_project : (name slug : String) → Endpoint
  list_members : String → Endpoint
  add_member update_member_role : (project_id who role : String) → Endpoint
  remove_member : (project_id user_id : String) → Endpoint
  list_api_keys revoke_api_key : String → Endpoint
  create_api_key : (project_id name : String) → Endpoint
  list_monitors : Option String → Endpoint
  create_monitor : NewMonitor → Endpoint
  update_monitor : String → MonitorChange → Endpoint
  delete_monitor test_monitor : String → Endpoint
  list_monitor_history : String → Option ℕ → Endpoint
  subscribe_push : String → Json → Endpoint
  unsubscribe_push : (project_id channel_id : String) → Endpoint
  list_webhooks list_deliveries : String → Endpoint
  create_webhook : (project_id url : String) → Option String → Endpoint
  delete_webhook test_webhook : (project_id webhook_id : String) → Endpoint
  run_query get_report delete_report : String → Endpoint
  create_report : Option String → String → List Widget → List GridItem → Endpoint
  update_report : String → String → List Widget → List GridItem → Endpoint
  get_audit_history : String → (start_date end_date environment : Option String) → Endpoint
  get_usage_stat : String → Endpoint
  list_wb_tokens : Option String → Endpoint
  generate_wb_code : (project_id name : Option String) → Endpoint
  list_reports : Option String → Endpoint
  revoke_wb_code : String → Endpoint

-- The operations that do not look at the status of the reply: listReports and revokeWbCode.
abbrev pub ignores_status : Endpoint → Bool
ignores_status (list_reports project_id) = true
ignores_status (revoke_wb_code id) = true
ignores_status _ = false

-- A call whose value is always there.
abbrev pub value : Api Json → Api (Option Json)
value m = do j ← m; pure (some j)

unfoldable pub run : Platform → Endpoint → Api (Option Json)
unfolding Audit.list_audit Audit.get_audit_detail Audit.get_audit_stats Audit.get_insights
    Audit.get_affected_users Audit.get_session_by_id Audit.get_sessions Audit.get_orphans
    Accounts.logout Accounts.list_users Accounts.list_invites Projects.list_projects
    Notifications.get_vapid_public_key Accounts.create_user Accounts.delete_user
    Accounts.create_invite Accounts.revoke_invite Projects.create_project Projects.list_members
    Projects.add_member Projects.update_member_role Projects.remove_member Projects.list_api_keys
    Projects.revoke_api_key Projects.create_api_key Monitors.list_monitors Monitors.create_monitor
    Monitors.update_monitor Monitors.delete_monitor Monitors.test_monitor
    Monitors.list_monitor_history Notifications.subscribe_push Notifications.unsubscribe_push
    Notifications.list_webhooks Notifications.list_deliveries Notifications.create_webhook
    Notifications.delete_webhook Notifications.test_webhook Studio.run_query Studio.get_report
    Studio.delete_report Studio.create_report Studio.update_report Tiering.get_audit_history
    Tiering.get_usage_stat WallboardCodes.list_wb_tokens WallboardCodes.generate_wb_code
    Studio.list_reports WallboardCodes.revoke_wb_code
run p (list_audit a) = value (Audit.list_audit p a)
run p (get_audit_detail a) = value (Audit.get_audit_detail p a)
run p (get_audit_stats a b) = value (Audit.get_audit_stats p a b)
run p (get_insights a b c) = value (Audit.get_insights p a b c)
run p (get_affected_users a b c d e) = value (Audit.get_affected_users p a b c d e)
run p (get_session_by_id a) = value (Audit.get_session_by_id p a)
run p (get_sessions a b c d e f) = value (Audit.get_sessions p a b c d e f)
run p (get_orphans a b c d e) = value (Audit.get_orphans p a b c d e)
run p logout = Accounts.logout p
run p list_users = Accounts.list_users p
run p list_invites = Accounts.list_invites p
run p list_projects = value (Projects.list_projects p)
run p get_vapid_public_key = Notifications.get_vapid_public_key p
run p (create_user a b c d) = value (Accounts.create_user p a b c d)
run p (delete_user a) = Accounts.delete_user p a
run p (create_invite a b) = value (Accounts.create_invite p a b)
run p (revoke_invite a) = Accounts.revoke_invite p a
run p (create_project a b) = value (Projects.create_project p a b)
run p (list_members a) = value (Projects.list_members p a)
run p (add_member a b c) = Projects.add_member p a b c
run p (update_member_role a b c) = Projects.update_member_role p a b c
run p (remove_member a b) = Projects.remove_member p a b
run p (list_api_keys a) = value (Projects.list_api_keys p a)
run p (revoke_api_key a) = Projects.revoke_api_key p a
run p (create_api_key a b) = value (Projects.create_api_key p a b)
run p (list_monitors a) = value (Monitors.list_monitors p a)
run p (create_monitor a) = value (Monitors.create_monitor p a)
run p (update_monitor a b) = value (Monitors.update_monitor p a b)
run p (delete_monitor a) = Monitors.delete_monitor p a
run p (test_monitor a) = value (Monitors.test_monitor p a)
run p (list_monitor_history a b) = value (Monitors.list_monitor_history p a b)
run p (subscribe_push a b) = value (Notifications.subscribe_push p a b)
run p (unsubscribe_push a b) = Notifications.unsubscribe_push p a b
run p (list_webhooks a) = value (Notifications.list_webhooks p a)
run p (list_deliveries a) = value (Notifications.list_deliveries p a)
run p (create_webhook a b c) = value (Notifications.create_webhook p a b c)
run p (delete_webhook a b) = Notifications.delete_webhook p a b
run p (test_webhook a b) = value (Notifications.test_webhook p a b)
run p (run_query a) = value (Studio.run_query p a)
run p (get_report a) = value (Studio.get_report p a)
run p (delete_report a) = Studio.delete_report p a
run p (create_report a b c d) = value (Studio.create_report p a b c d)
run p (update_report a b c d) = Studio.update_report p a b c d
run p (get_audit_history a b c d) = value (Tiering.get_audit_history p a b c d)
run p (get_usage_stat a) = value (Tiering.get_usage_stat p a)
run p (list_wb_tokens a) = value (WallboardCodes.list_wb_tokens p a)
run p (generate_wb_code a b) = value (WallboardCodes.generate_wb_code p a b)
run p (list_reports a) = value (Studio.list_reports p a)
run p (revoke_wb_code a) = WallboardCodes.revoke_wb_code p a
