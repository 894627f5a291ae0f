-- ===== src/Dashboard/Pages/Controls.antt =====
-- Where the links of the pagination bar lead.
use bataudit.Prelude.{ℕ, ◌≤◌, ◌≡◌, true, List, [], ◌∷◌, arith, All}
use bataudit.Dashboard.Pages.{Control, previous, link, ellipsis, next, app_pagination}

-- The page that a control leads to lies between 1 and the last one.
abbrev pub LeadsInto : ℕ → Control → Type 0
LeadsInto total (previous n) = (1 ≤ n) × (n ≤ total)
LeadsInto total (link n active) = (1 ≤ n) × (n ≤ total)
LeadsInto total ellipsis = Unit
LeadsInto total (next n) = (1 ≤ n) × (n ≤ total)

-- The pages that are marked as the current one.
abbrev pub marked : List Control → List ℕ
marked [] = []
marked (link n true ∷ cs) = n ∷ marked cs
marked (_ ∷ cs) = marked cs

-- On a page that exists, every control leads to a page that exists, and exactly one link is marked
-- as the current page, the one with its number.
pub app_pagination_sound :
    (page total : ℕ)
    → 1 ≤ page
    → page ≤ total
    → All (LeadsInto total) (app_pagination page total)
      × (marked (app_pagination page total) ≡ page ∷ [])
unfolding app_pagination
app_pagination_sound page total h k = ground arith
