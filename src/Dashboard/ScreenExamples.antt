-- ===== src/Dashboard/ScreenExamples.antt =====
-- The theorems of what the pages show at concrete inputs.
use mathlib.Core.List.{Memᴰ}
use mathlib.Core.List.Memᴰ.{head}
use bataudit.Prelude.{String, true, false, ◌&&◌, ◌≡◌, refl, none, some, [], ◌∷◌, any, str_eq}
use bataudit.Prelude.Json.{str}
use bataudit.Web.Fixtures.{ada, browser, strokes}
use bataudit.Dashboard.Mutations.{use_revoke_api_key}
use bataudit.Dashboard.Screen.Offers.{Offers, here, press, Offers-drop}
use bataudit.Dashboard.ApiKeys.{
  Project, ApiKey, Member, ApiKeysPage, toggle_project, revoke_key, initial, act, call,
}
use bataudit.Dashboard.ApiKeys.View.{Loaded, projects_list, view}
use bataudit.Dashboard.ApiKeys.Own.{Reach, start, acts, call-IsOwn}
use bataudit.Dashboard.Events.{AuditDetail, Texts}
use bataudit.Dashboard.Events as Events
use bataudit.Dashboard.Filters.{empty_search, page_params}
use bataudit.Dashboard.Insights.{
  InsightsResult, TopSlowRoute, go_to_events, slow_route, event_search,
}
use bataudit.Dashboard.Insights as Insights
use bataudit.Dashboard.Insights.Led.{view-slow_route}
use bataudit.Dashboard.Layout as Layout
use bataudit.Dashboard.Layout.Header.{Header, toggle_projects, header}
use bataudit.Dashboard.Layout.Offered.{IsProjectPage, header-Offers}
use bataudit.Dashboard.Layout.Offered as Offered
use bataudit.Dashboard.Team.MembersView.{MembersPage, click_remove}
use bataudit.Dashboard.Team.MembersView as Members
use bataudit.Dashboard.Team.Managed.{view-Offers}

abbrev same_text : String → String
same_text s = s

abbrev shop : Project
shop = record { id = "p1"; name = "Shop"; slug = "shop" }

abbrev build_key : ApiKey
build_key = record {
  id = "k1";
  name = "build";
  project_id = "p1";
  created_at = "2024-01-01";
  expires_at = none;
  active = true;
}

abbrev grace : Member
grace = record {
  user_id = "u2";
  project_id = "p1";
  role = "viewer";
  name = "Grace";
  email = "grace@example.org";
}

abbrev loaded : Loaded
loaded = record {
  projects = shop ∷ [];
  is_loading = false;
  keys = build_key ∷ [];
  members = grace ∷ [];
  creating_project = false;
  creating_key = false;
  adding_member = false;
}

-- The page after a click on its only project.
abbrev opened : ApiKeysPage
opened = act same_text (toggle_project "p1") initial

opened_Reach : Reach same_text same_text opened
unfolding view projects_list
opened_Reach =
    acts loaded (toggle_project "p1") start
      (Offers-drop 5 (view same_text loaded initial) (here (press refl)))

revoke_offered : Offers (revoke_key "k1") (view same_text loaded opened)
unfolding view projects_list act
revoke_offered = Offers-drop 13 (view same_text loaded opened) (here (press refl))

call-IsOwn_example : any (λ (k : ApiKey). k.active && str_eq k.id "k1") (build_key ∷ []) ≡ true
unfolding call use_revoke_api_key
call-IsOwn_example =
    call-IsOwn same_text same_text opened loaded (revoke_key "k1") opened_Reach revoke_offered

abbrev texts : Texts
texts = record { number = strokes; local_time = same_text; stringify = λ _. "[1]" }

abbrev event : AuditDetail
event = record {
  id = "e1";
  method = "POST";
  path = "/orders";
  status_code = 201;
  response_time = 12;
  identifier = "ada";
  user_email = "ada@example.org";
  user_name = "Ada";
  user_roles = none;
  user_type = "";
  tenant_id = "";
  ip = "127.0.0.1";
  user_agent = "";
  request_id = "bat-1";
  query_params = none;
  path_params = none;
  request_body = none;
  response_body = some (str "card 4111");
  error_message = "";
  service_name = "shop";
  environment = "production";
  timestamp = "2024-01-01T00:00:00Z";
  project_id = "p1";
}

abbrev closed : Header
closed = record { selection = Layout.initial; project_open = false; env_open = false }

menu_offered : Offers toggle_projects (header "/app" (some ada) (shop ∷ []) false closed)
unfolding header
menu_offered = here (press refl)

header-Offers_example : ((closed.project_open && closed.env_open) ≡ false) × IsProjectPage "/app"
header-Offers_example =
    header-Offers closed "/app" (some ada) (shop ∷ []) false toggle_projects Offered.start
      menu_offered

abbrev slow : TopSlowRoute
slow = record { path = "/reports"; method = "GET"; avg_ms = 812500 }

abbrev ranking : InsightsResult
ranking = record {
  top_endpoints = [];
  top_users = [];
  top_error_routes = [];
  top_slow_routes = slow ∷ [];
}

view-slow_route_example :
    Offers
      (go_to_events (slow_route "GET" "/reports"))
      (Insights.view strokes strokes false (some ranking))
    × (page_params strokes 0 none none (event_search (slow_route "GET" "/reports") empty_search)
        ≡ record (page_params strokes 0 none none empty_search) {
          page = some 1;
          method = some "GET";
          path = some "/reports";
          sort_by = some "response_time";
          sort_order = some "desc";
        })
view-slow_route_example =
    view-slow_route strokes strokes ranking slow strokes 0 none none empty_search (head refl)

abbrev members_page : MembersPage
members_page = record {
  form = record { email = ""; role = "viewer"; error_text = ""; browser = browser };
  confirms = [];
}

abbrev members_loaded : Members.Loaded
members_loaded = record {
  members = grace ∷ [];
  is_loading = false;
  adding = false;
  updating = λ _. false;
  removing = λ _. false;
}

view-Offers_example :
    Offers
      (click_remove "u2")
      (Members.view strokes same_text (some "p1") members_loaded members_page)
view-Offers_example =
    view-Offers strokes same_text "p1" members_loaded members_page grace refl (head refl) refl refl
