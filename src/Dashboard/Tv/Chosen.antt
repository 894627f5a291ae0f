-- ===== src/Dashboard/Tv/Chosen.antt =====
-- Who may do what on the page of a wallboard.
use mathlib.Core.List.{Memᴰ}
use bataudit.Prelude.{ℕ, String, true, false, ◌≡◌, refl, ◌≤◌, List, [], ◌∷◌}
use bataudit.Dashboard.Screen.Offers.{
  Offers, here, press, Offers-append_left, Offers-append_right, Offers-each,
}
use bataudit.Dashboard.Tv.{Tv, Activation}
use bataudit.Dashboard.Tv.Views.{View, is_grid}
use bataudit.Dashboard.Tv.Panels.{
  WbProjectStat, Texts, Action, submit, type_code, grid_select, project_grid_card, project_grid,
}
use bataudit.Dashboard.Tv.Screens.{Loaded, Codes, header, tv_dashboard, view}

-- What may be done on the form of the code: typing a code, and submitting one that is long enough, one at a time.
abbrev pub IsActivation : Codes → Activation → Action → Type 0
IsActivation c f (type_code typed) = (v : String) × (typed ≡ c.upper v)
IsActivation c f submit = (f.loading ≡ false) × (6 ≤ c.size f.code)
IsActivation c f _ = ⊥

module _ (t : Texts) (c : Codes) (clock : String) (page : ℕ) where
  grid-Offers :
      (stats : List WbProjectStat) (p : WbProjectStat)
      → Memᴰ p stats
      → Offers (grid_select p.project_id) (project_grid t stats)
  unfolding project_grid
  grid-Offers [] p m = elim m [ ]
  grid-Offers (x ∷ xs) p m = Offers-each (project_grid_card t) (x ∷ xs) p m (here (press refl))

  dashboard_grid :
      {a : Action} (d : Loaded) (s : Tv) (v : View) (p : WbProjectStat)
      → is_grid v.view_mode ≡ true
      → Offers a (project_grid t d.stats)
      → Offers a (tv_dashboard t clock page d s v)
  unfolding tv_dashboard
  dashboard_grid d s v p in_grid o = Offers-append_right (header t clock d s v) _ (rw in_grid o)

  -- In the grid each project that has figures can be selected.
  grid_select-Offers :
      (d : Loaded) (f : Activation) (s : Tv) (v : View) (p : WbProjectStat)
      → s.authenticated ≡ true
      → is_grid v.view_mode ≡ true
      → Memᴰ p d.stats
      → Offers (grid_select p.project_id) (view t c clock page d f s v)
  unfolding view tv_dashboard
  grid_select-Offers d f s v p signed_in in_grid m = rw signed_in (
      Offers-append_left (tv_dashboard t clock page d s v) _
        (dashboard_grid d s v p in_grid (grid-Offers d.stats p m)))
