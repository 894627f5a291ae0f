-- ===== src/Dashboard/Studio/Consistency.antt =====
-- Widgets and their places in the grid.
use bataudit.Prelude.{
  String, ◌≡◌, refl, Bool, true, false, not, ◌||◌, inl, inr, List, [], ◌∷◌, keep, str_eq, eq_iff,
  if◌then◌else◌, any-append, arith, Bool-cases, ap, sym, ◌∙◌,
}
use bataudit.Web.Clients.Studio.{Widget, GridItem}
use bataudit.Dashboard.Studio.{
  Studio, has_widget, has_item, replace_widget, put_widget, place, add_or_update_widget,
  remove_widget, new_report,
}

-- A widget has a place in the grid exactly if it is there.
abbrev pub IsConsistent : Studio → Type 0
IsConsistent s = (id : String) → has_widget id s.widgets ≡ has_item id s.layout

has_widget-replace_widget :
    (id : String) (w : Widget) (ws : List Widget)
    → has_widget id (replace_widget w ws) ≡ has_widget id ws
has_widget-replace_widget id w [] = refl
has_widget-replace_widget id w (x ∷ xs) =
    ground (arith, eq_iff x.id w.id, has_widget-replace_widget id w xs)

absorb : (P : String → Bool) (k id : String) → P k ≡ true → P id ≡ (P id || str_eq k id)
absorb P k id h = elim (Bool-cases (str_eq k id)) [
  | inl same ↦ rw (← (eq_iff k id).0 same, h)
  | inr other ↦ rw other (ground arith)
]

has_widget-put_widget :
    (id : String) (w : Widget) (ws : List Widget)
    → has_widget id (put_widget w ws) ≡ (has_widget id ws || str_eq w.id id)
unfolding put_widget
has_widget-put_widget id w ws = elim (Bool-cases (has_widget w.id ws)) [
  | inl old ↦
      rw (old, has_widget-replace_widget id w ws) (absorb (λ k. has_widget k ws) w.id id old)
  | inr new ↦ rw (new, any-append (λ x. str_eq x.id id) ws (w ∷ [])) (ground arith)
]

has_item-place :
    (id k : String) (ls : List GridItem)
    → has_item id (place k ls) ≡ (has_item id ls || str_eq k id)
unfolding place
has_item-place id k ls = elim (Bool-cases (has_item k ls)) [
  | inl old ↦ rw old (absorb (λ j. has_item j ls) k id old)
  | inr new ↦ rw (new, any-append (λ l. str_eq l.i id) ls) (ground arith)
]

has_widget-keep :
    (id k : String) (ws : List Widget)
    → has_widget id (keep (λ w. not (str_eq w.id k)) ws)
      ≡ (if str_eq k id then false else has_widget id ws)
has_widget-keep id k [] = ground arith
has_widget-keep id k (w ∷ ws) =
    ground (arith, eq_iff w.id k, eq_iff w.id id, eq_iff k id, has_widget-keep id k ws)

has_item-keep :
    (id k : String) (ls : List GridItem)
    → has_item id (keep (λ l. not (str_eq l.i k)) ls)
      ≡ (if str_eq k id then false else has_item id ls)
has_item-keep id k [] = ground arith
has_item-keep id k (l ∷ ls) =
    ground (arith, eq_iff l.i k, eq_iff l.i id, eq_iff k id, has_item-keep id k ls)

-- The functions that change the report keep a place in the grid for each widget, and none for
-- anything else: saving an edited widget, removing one, and starting a new report.
pub studio-IsConsistent :
    (w : Widget) (id : String) (s : Studio)
    → IsConsistent s
    → IsConsistent (add_or_update_widget w s)
      × IsConsistent (remove_widget id s)
      × IsConsistent (new_report s)
unfolding add_or_update_widget remove_widget new_report
studio-IsConsistent w id s h = (
  λ k.
      has_widget-put_widget k w s.widgets
      ∙ ap (λ b. b || str_eq w.id k) (h k)
      ∙ sym (has_item-place k w.id s.layout),
  λ k.
      has_widget-keep k id s.widgets
      ∙ ap (λ b. if str_eq id k then false else b) (h k)
      ∙ sym (has_item-keep k id s.layout),
  λ k. refl,
)
