-- ===== src/Dashboard/Overview/Clicked.antt =====
-- What the controls of the event list do to the list that is asked for.
use bataudit.Prelude.{
  ℕ, String, Bool, true, false, ◌≡◌, refl, ap, Option, none, some, ◌⊎◌, inl, inr, eq_iff, arith,
  ◌or_else◌,
}
use bataudit.Web.Clients.Audit.{ListAuditParams}
use bataudit.Dashboard.Filters.{
  Search, page_params, audit_list_params, active_filters, on_relative, on_absolute, on_clear,
  toggle_feed_sort,
}
use bataudit.Dashboard.Overview.{set_filter}
use bataudit.Dashboard.Overview.Page.{
  Page, Texts, Action, act, is_selected, status_clicked, method_clicked, hour_clicked, click_status,
  refresh, clear, toggle_filter, toggle_orphans, toggle_export, clear_range, export_as,
  select_event, sort_services, sort_feed, set, set_environment, click_hour, click_method,
  pick_relative, pick_absolute, set_page,
}

-- The actions that leave the page of the list as it is, or choose it.
abbrev pub keeps_page : Action → Bool
keeps_page (set_page p) = true
keeps_page (set_environment e) = true
keeps_page _ = false

module _ (t : Texts) (now : ℕ) (project_id : Option String) where
  -- What the page asks for.
  abbrev pub asked : Page → ListAuditParams
  asked s = page_params t.iso now project_id s.environment s.search

  page_params-first :
      (e : Option String) (s : Search)
      → s.page ≡ some 1
      → (page_params t.iso now project_id e s).page ≡ some 1
  unfolding page_params audit_list_params active_filters
  page_params-first e s h = ap (λ p. some (p or_else 1)) h

  act-page :
      (a : Action) (s : Page)
      → keeps_page a ≡ false
      → ((asked (act t a s)) ≡ asked s) ⊎ ((act t a s).search.page ≡ some 1)
  unfolding act hour_clicked status_clicked method_clicked on_relative on_absolute on_clear
      toggle_feed_sort set_filter
  act-page refresh s h = inl refl
  act-page toggle_filter s h = inl refl
  act-page toggle_orphans s h = inl refl
  act-page toggle_export s h = inl refl
  act-page (export_as format) s h = inl refl
  act-page (select_event id) s h = inl refl
  act-page (sort_services col) s h = inl refl
  act-page clear s h = inr refl
  act-page clear_range s h = inr refl
  act-page (sort_feed col) s h = inr refl
  act-page (set key value) s h = inr refl
  act-page (click_hour raw_hour) s h = inr refl
  act-page (click_status cls) s h = inr refl
  act-page (click_method m) s h = inr refl
  act-page (pick_relative range) s h = inr refl
  act-page (pick_absolute start end) s h = inr refl
  act-page (set_page p) s h = ground arith
  act-page (set_environment e) s h = ground arith

  -- An action other than a choice of the page or of the environment leaves the request for the list
  -- as it is, or asks for its first page. A choice of the environment keeps the page that is asked
  -- for, whatever page the list of the new environment may lack.
  pub act-asked :
      (a : Action) (e : Option String) (s : Page)
      → keeps_page a ≡ false
      → ((asked (act t a s) ≡ asked s) ⊎ ((asked (act t a s)).page ≡ some 1))
        × ((asked (act t (set_environment e) s)).page ≡ (asked s).page)
  unfolding act page_params audit_list_params active_filters
  act-asked a e s h = (
    elim (act-page a s h) [
      | inl same ↦ inl same
      | inr first ↦ inr (page_params-first (act t a s).environment (act t a s).search first)
    ],
    refl,
  )

  -- A click on a class of statuses that is not selected asks for the first page of its events,
  -- without a single status; a second click takes the class away again.
  status_clicked_twice :
      (cls : String) (s : Search)
      → is_selected s.status_class cls ≡ false
      → (status_clicked cls s
          ≡ record s { status_class = some cls; status_code = none; page = some 1 })
        × (status_clicked cls (status_clicked cls s)
            ≡ record s { status_class = none; status_code = none; page = some 1 })
  unfolding status_clicked
  status_clicked_twice cls s h = rw (h, (eq_iff cls cls).1 refl) (refl, refl)
