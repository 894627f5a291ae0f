-- ===== src/Dashboard/Insights/Led.antt =====
-- Where the rows of the rankings lead.
use mathlib.Core.List.{Memᴰ}
use mathlib.Core.List.Memᴰ.{head, tail}
use mathlib.Core.Path.{subst}
use bataudit.Prelude.{ℕ, suc, String, false, ◌≡◌, refl, Option, some, List, [], ◌∷◌}
use bataudit.Dashboard.Screen.{Screen}
use bataudit.Dashboard.Screen.Offers.{
  Offers, here, there, press, Offers-append_left, Offers-append_right,
}
use bataudit.Dashboard.Filters.{Search, page_params}
use bataudit.Dashboard.Insights.{
  InsightsResult, TopErrorRoute, TopSlowRoute, Action, go_to_events, route, slow_route,
  event_search, rank_card, ranked, endpoint_row, user_row, error_row, slow_row, view,
}

Offers-ranked :
    {A : Type 0} {a : Action} (f : ℕ → A → Screen Action) (n : ℕ) (xs : List A) (x : A)
    → Memᴰ x xs
    → ((k : ℕ) → Offers a (f k x))
    → Offers a (ranked f n xs)
Offers-ranked f n [] x m o = elim m [ ]
Offers-ranked {a = a} f n (y ∷ ys) x (head e) o =
    Offers-append_left (f n y) (ranked f (suc n) ys) (subst (λ z. Offers a (f n z)) e (o n))
Offers-ranked f n (y ∷ ys) x (tail m) o =
    Offers-append_right (f n y) (ranked f (suc n) ys) (Offers-ranked f (suc n) ys x m o)

Offers-rank_card :
    {A : Type 0} {a : Action} (title : String) (f : ℕ → A → Screen Action) (xs : List A) (x : A)
    → Memᴰ x xs
    → ((k : ℕ) → Offers a (f k x))
    → Offers a (rank_card title f xs)
Offers-rank_card title f [] x m o = elim m [ ]
Offers-rank_card title f (y ∷ ys) x m o = there (Offers-ranked f 1 (y ∷ ys) x m o)

-- Each slow route of the reply has a row, whose button leads to the first page of the events of its
-- method and path, those that took longest first, under the other filters as they were.
pub view-slow_route :
    (number fixed : ℕ → String) (d : InsightsResult) (r : TopSlowRoute) (iso : ℕ → String) (now : ℕ)
    (project_id environment : Option String) (prev : Search)
    → Memᴰ r d.top_slow_routes
    → Offers (go_to_events (slow_route r.method r.path)) (view number fixed false (some d))
      × (page_params iso now project_id environment (event_search (slow_route r.method r.path) prev)
          ≡ record (page_params iso now project_id environment prev) {
            page = some 1;
            method = some r.method;
            path = some r.path;
            sort_by = some "response_time";
            sort_order = some "desc";
          })
unfolding view event_search page_params
view-slow_route number fixed d r iso now project_id environment prev m = (
  there (
      there (
        there (
          there (
            Offers-append_right
              (rank_card "Top Endpoints by Volume" (endpoint_row number fixed) d.top_endpoints) _
              (Offers-append_right
                (rank_card "Top Users by Activity" (user_row number fixed) d.top_users) _
                (Offers-append_right
                  (rank_card "Top Routes by Error Rate" (error_row number fixed) d.top_error_routes)
                  _
                  (Offers-rank_card "Top Routes by Response Time" (slow_row number fixed)
                    d.top_slow_routes r m (λ k. here (press refl))))))))),
  refl,
)

-- The button of a route that fails leads to all its events: the same as that of an endpoint.
error_row-leads :
    (number fixed : ℕ → String) (n : ℕ) (r : TopErrorRoute)
    → Offers (go_to_events (route r.method r.path)) (error_row number fixed n r)
error_row-leads number fixed n r = here (press refl)
